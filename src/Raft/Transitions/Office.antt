-- ===== src/Raft/Transitions/Office.antt =====
-- becomeLeader: what a node is when it has taken office.
use raft_thesis.Base.{
  int_eq, Bool, Bool-cases, List, Option, [], ap, append-nil, append_assoc, arith, contains, false,
  if◌then◌else◌, inl, inr, int_beq_iff, keys, length, length-append, lookup, lookup-insert, not,
  refl, some, sym, take, take-append_left, take_all, true, ◌&&◌, ◌++◌, ◌+◌, ◌-◌, ◌<◌, ◌==◌, ◌=?◌,
  ◌||◌, ◌∙◌, ◌∷◌, ◌≡◌,
}
use raft_thesis.Raft.Node.{Raft, get_last_log_info}
use raft_thesis.Raft.Node.Core.{SameCore, SameCore-refl, SameCore-trans}
use raft_thesis.Raft.Node.Log.{last_log_info-append, last_log_info-length}
use raft_thesis.Raft.Transitions.{
  append_founding, become_leader, begin_term, founding_entries, no_op, reset_one, reset_progress,
  sorted_bootstrap_ids, take_office,
}
use raft_thesis.Raft.Types.{Env, LogEntry, LogIndex, NodeId, Term, Time, is_leader, leader, u64}

reset_one-core :
    (now : Time) (next : LogIndex) (id : NodeId) (rf : Raft)
    → SameCore (reset_one now next id rf) rf
unfolding reset_one
reset_one-core now next id rf = ground arith

pub reset_progress-core :
    (now : Time) (next : LogIndex) (ids : List NodeId) (rf : Raft)
    → SameCore (reset_progress now next ids rf) rf
unfolding reset_progress
reset_progress-core now next [] rf = SameCore-refl rf
reset_progress-core now next (id ∷ ids) rf =
    SameCore-trans _ _ _ (reset_progress-core now next ids (reset_one now next id rf))
      (reset_one-core now next id rf)

reset_one-lookup :
    (now : Time) (next : LogIndex) (id j : NodeId) (rf : Raft)
    → (lookup j (reset_one now next id rf).next_index
        ≡ (if id =? j && not (j =? rf.id) then some next else lookup j rf.next_index))
      × (lookup j (reset_one now next id rf).match_index
          ≡ (if id =? j && not (j =? rf.id) then some 0 else lookup j rf.match_index))
unfolding reset_one
reset_one-lookup now next id j rf = ground (
  arith,
  lookup-insert id j next rf.next_index,
  lookup-insert id j 0 rf.match_index,
  int_beq_iff id j,
)

absorb :
    (a b c : Bool) (x : LogIndex) (o : Option LogIndex)
    → (if b && c then some x else if a && c then some x else o)
      ≡ (if (a || b) && c then some x else o)
absorb a b c x o = ground arith

reset_progress-lookup :
    (now : Time) (next : LogIndex) (ids : List NodeId) (j : NodeId) (rf : Raft)
    → (lookup j (reset_progress now next ids rf).next_index
        ≡ (if contains j ids && not (j =? rf.id) then some next else lookup j rf.next_index))
      × (lookup j (reset_progress now next ids rf).match_index
          ≡ (if contains j ids && not (j =? rf.id) then some 0 else lookup j rf.match_index))
unfolding reset_progress contains
reset_progress-lookup now next [] j rf = (refl, refl)
reset_progress-lookup now next (id ∷ ids) j rf =
    let (n, m) = reset_progress-lookup now next ids j (reset_one now next id rf) in
    let (n', m') = reset_one-lookup now next id j rf in
    let same = (reset_one-core now next id rf).id in
    (
      n ∙ rw (same, n') (absorb (id =? j) (contains j ids) (not (j =? rf.id)) next _),
      m ∙ rw (same, m') (absorb (id =? j) (contains j ids) (not (j =? rf.id)) 0 _),
    )

-- What append_founding adds stands behind the log.
append_founding-log :
    (env : Env) (rf : Raft)
    → (es : List LogEntry) × (append_founding env rf ≡ record rf { log = rf.log ++ es })
unfolding append_founding
append_founding-log env rf =
    elim (Bool-cases ((get_last_log_info rf).0 == 0 && not (length rf.bootstrap_cluster == 0))) [
      | inl founding ↦ (
        founding_entries env rf.current_term rf.bootstrap_cluster
            (sorted_bootstrap_ids rf.bootstrap_cluster),
        rw founding,
      )
      | inr later' ↦ (
        [],
        rw later' (ap (λ (l : List LogEntry). record rf { log = l }) (sym (append-nil rf.log))),
      )
    ]

-- A node that has just taken office.
pub record InOffice (rf f : Raft) : Type 0 where
  pub leads : f.state ≡ leader
  pub hint : f.hint_leader_id ≡ rf.id
  pub term : f.current_term ≡ rf.current_term
  pub own_term : (get_last_log_info f).1 ≡ rf.current_term
  pub kept : take (length rf.log) f.log ≡ rf.log
  pub grown : length rf.log < length f.log
  pub commit : f.commit_index ≡ rf.commit_index
  pub progress :
      (j : NodeId)
      → contains j (keys rf.peers) ≡ true
      → (j =? rf.id) ≡ false
      → (lookup j f.next_index ≡ some (u64 (length f.log - 1))) × (lookup j f.match_index ≡ some 0)

pub begin_term-log :
    (env : Env) (led : Raft) → (begin_term env led).log ≡ led.log ++ no_op led.current_term ∷ []
unfolding begin_term
begin_term-log env led =
    let core =
      reset_progress-core env.now (u64 ((get_last_log_info led).0 + 1)) (keys led.peers) led in
    rw (core.log, core.current_term)

begin_term-core :
    (env : Env) (led : Raft)
    → ((begin_term env led).state ≡ led.state)
      × ((begin_term env led).current_term ≡ led.current_term)
      × ((begin_term env led).hint_leader_id ≡ led.hint_leader_id)
      × ((begin_term env led).commit_index ≡ led.commit_index)
unfolding begin_term
begin_term-core env led =
    let core =
      reset_progress-core env.now (u64 ((get_last_log_info led).0 + 1)) (keys led.peers) led in
    (core.state, core.current_term, core.hint_leader_id, core.commit_index)

begin_term-progress :
    (env : Env) (led : Raft) (j : NodeId)
    → 0 < length led.log
    → contains j (keys led.peers) ≡ true
    → (j =? led.id) ≡ false
    → (lookup j (begin_term env led).next_index ≡ some (u64 (length led.log)))
      × (lookup j (begin_term env led).match_index ≡ some 0)
unfolding begin_term get_last_log_info
begin_term-progress env led j h peer other =
    let (n, m) =
      reset_progress-lookup env.now (u64 ((get_last_log_info led).0 + 1)) (keys led.peers) j led in
    let len = last_log_info-length led.log h in (n ∙ rw (peer, other, len), m ∙ rw (peer, other))

begin_term-InOffice :
    (env : Env) (rf : Raft) (es : List LogEntry)
    → 0 < length rf.log
    → InOffice rf
        (begin_term env (record rf { state = leader; hint_leader_id = rf.id; log = rf.log ++ es }))
unfolding get_last_log_info
begin_term-InOffice env rf es h =
    let led = record rf { state = leader; hint_leader_id = rf.id; log = rf.log ++ es } in
    let (st, term, hint, commit) = begin_term-core env led in
    let log = begin_term-log env led in
    let size : length (begin_term env led).log ≡ length led.log + 1 =
      ap length log ∙ length-append led.log (no_op rf.current_term ∷ []) in
    let longer = length-append rf.log es in
    let end : length led.log ≡ length (begin_term env led).log - 1 = omega arith in
    record {
      leads = st;
      hint = hint;
      term = term;
      own_term = rw log (ap (λ (p : LogIndex × Term). p.1) (last_log_info-append (rf.log ++ es) _));
      kept = rw log (
          rw (append_assoc rf.log es (no_op rf.current_term ∷ [])) (
            take-append_left (length rf.log) rf.log _ (omega arith)
            ∙ take_all (length rf.log) rf.log (omega arith)));
      grown = omega arith;
      commit = commit;
      progress =
          λ j peer other. rw (← end) (begin_term-progress env led j (omega arith) peer other);
    }

-- From a node that is no leader and has an entry in its log, becomeLeader makes it leader of its term,
-- with an entry of that term at the end of a log that is otherwise only extended, and with the progress
-- of each other peer set to the end of that log before the new entry.
pub become_leader-InOffice :
    (env : Env) (rf : Raft)
    → 0 < length rf.log
    → is_leader rf.state ≡ false
    → InOffice rf (become_leader env rf).0
unfolding become_leader take_office
become_leader-InOffice env rf h new' =
    let (es, founded) =
      append_founding-log env (record rf { state = leader; hint_leader_id = rf.id }) in
    rw (new', founded) (begin_term-InOffice env rf es h)

begin_term-voted_for : (env : Env) (led : Raft) → (begin_term env led).voted_for ≡ led.voted_for
unfolding begin_term
begin_term-voted_for env led =
    (reset_progress-core env.now (u64 ((get_last_log_info led).0 + 1)) (keys led.peers)
      led).voted_for

-- Taking office keeps the term and the vote, and ends the log in the term, whatever the log was.
pub become_leader-ballot :
    (env : Env) (rf : Raft)
    → is_leader rf.state ≡ false
    → let f = (become_leader env rf).0 in
      (f.state ≡ leader)
      × (f.current_term ≡ rf.current_term)
      × (f.voted_for ≡ rf.voted_for)
      × ((get_last_log_info f).1 ≡ rf.current_term)
unfolding become_leader take_office get_last_log_info
become_leader-ballot env rf new' =
    let (es, founded) =
      append_founding-log env (record rf { state = leader; hint_leader_id = rf.id }) in
    let led = record rf { state = leader; hint_leader_id = rf.id; log = rf.log ++ es } in
    let (st, term, _, _) = begin_term-core env led in
    rw (new', founded)
      (
        st,
        term,
        begin_term-voted_for env led,
        rw (begin_term-log env led)
            (ap (λ (p : LogIndex × Term). p.1) (last_log_info-append (rf.log ++ es) _)),
      )
