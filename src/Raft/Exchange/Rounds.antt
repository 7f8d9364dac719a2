-- ===== src/Raft/Exchange/Rounds.antt =====
-- One round between a leader and a follower: the follower accepts, or the next round starts earlier.
use raft_thesis.Base.{
  int_eq, List, [], ap, arith, dec_le, drop, false, get_elem?, get_or, if◌then◌else◌, insert, leb,
  length, length-drop, le→leb, le→ltb_false, lookup, lt→leb_false, refl, some, suc, sym, true, zero,
  ℕ, ◌+◌, ◌-◌, ◌<◌, ◌∙◌, ◌∷◌, ◌≡◌, ◌≤◌,
}
use raft_thesis.Raft.Node.{Raft, get_last_log_info, last_log_info, term_at}
use raft_thesis.Raft.Node.Core.{IsSound, reset_election_timer_lem}
use raft_thesis.Raft.Node.Log.{last_log_info-length, term_at-some}
use raft_thesis.Raft.Replication.{handle_append_reply, has_client, prepare_append}
use raft_thesis.Raft.Replication.Backup.{IsAligned, backed_up, refusal-Earlier, refusal_fields}
use raft_thesis.Raft.Service.{accept_entries, append_entries}
use raft_thesis.Raft.Service.Append.{catch_up_term_lem}
use raft_thesis.Raft.Service.Conflict.{Consistency}
use raft_thesis.Raft.Service.Merging.{LogMatching, Slice}
use raft_thesis.Raft.Service.Replicates.{CutFrom}
use raft_thesis.Raft.Types.{
  AppendEntriesArgs, AppendEntriesReply, Env, LogEntry, LogIndex, NodeId, Term, is_leader, leader,
  sub_u64,
}

-- A leader with a progress record of a peer, a follower that is not ahead of its term, and logs that
-- agree as Raft's logs do.
pub record IsReady (peer : NodeId) (n : LogIndex) (rf target : Raft) : Type 0 where
  pub leads : rf.state ≡ leader
  pub client : has_client (lookup peer rf.peers) ≡ true
  pub free : get_or (lookup peer rf.append_in_flight) false ≡ false
  pub next : lookup peer rf.next_index ≡ some n
  pub positive : 0 < n
  pub within : n ≤ length rf.log
  pub sound : IsSound rf
  pub sound' : IsSound target
  pub old : target.current_term ≤ rf.current_term
  pub small : length rf.log < 18446744073709551615
  pub small' : length target.log < 18446744073709551616
  pub aligned : IsAligned rf.log target.log
  pub match : LogMatching target.log rf.log

-- The request of the round.
abbrev pub request_of : Raft → LogIndex → Term → AppendEntriesArgs
request_of rf n t = record {
  term = rf.current_term;
  leader_id = rf.id;
  prev_log_index = n - 1;
  prev_log_term = t;
  entries = if leb n (get_last_log_info rf).0 then drop n rf.log else [];
  leader_commit = rf.commit_index;
}

pub prepare_append-ready :
    (peer : NodeId) (n : LogIndex) (rf target : Raft)
    → IsReady peer n rf target
    → (t : Term) × (term_at rf.log (n - 1) ≡ some t)
      × (prepare_append peer rf
          ≡ some (
            record rf { append_in_flight = insert peer true rf.append_in_flight },
            some (request_of rf n t),
          ))
unfolding prepare_append
prepare_append-ready peer n rf target h =
    let (t, at) = term_at-some rf.log (n - 1) (omega (arith, h.within, h.positive)) in
    let before : sub_u64 n 1 ≡ n - 1 = omega (arith, h.positive, h.within, h.small) in
    (t, at, rw (ap is_leader h.leads, h.client, h.free, h.next, before, at) refl)

drop-uncons :
    (i : ℕ) (l : List LogEntry) (e : LogEntry) (es : List LogEntry)
    → drop i l ≡ e ∷ es
    → (get_elem? l i ≡ some e) × (drop (suc i) l ≡ es)
drop-uncons zero [] e es h = cc
drop-uncons zero (x ∷ xs) e es h = (cc, cc)
drop-uncons (suc i) [] e es h = cc
drop-uncons (suc i) (x ∷ xs) e es h = drop-uncons i xs e es h

pub Slice-drop :
    (l : List LogEntry) (i : LogIndex) (es : List LogEntry) → drop i l ≡ es → Slice l i es
Slice-drop l i [] h = tt
Slice-drop l i (e ∷ es) h =
    let (at, rest) = drop-uncons i l e es h in
    let one : i + 1 ≡ suc i = omega arith in (at, rw one (Slice-drop l (suc i) es rest))

drop_all : (n : ℕ) (l : List LogEntry) → length l ≤ n → drop n l ≡ []
drop_all zero [] h = refl
drop_all zero (x ∷ xs) h = absurd (omega arith)
drop_all (suc n) [] h = refl
drop_all (suc n) (x ∷ xs) h = drop_all n xs (omega arith)

request-entries :
    (rf : Raft) (n : LogIndex)
    → 0 < length rf.log
    → (if leb n (get_last_log_info rf).0 then drop n rf.log else []) ≡ drop n rf.log
unfolding get_last_log_info
request-entries rf n p =
    let last = last_log_info-length rf.log p in
    elim (dec_le n (last_log_info rf.log).0) [
      | yes inside ↦ rw (le→leb n (last_log_info rf.log).0 inside) refl
      | no past ↦
          rw (lt→leb_false n (last_log_info rf.log).0 (omega arith))
            (sym (drop_all n rf.log (omega arith)))
    ]

pub request-CutFrom :
    (n : LogIndex) (rf : Raft) (t : Term)
    → 0 < n
    → n ≤ length rf.log
    → length rf.log < 18446744073709551615
    → term_at rf.log (n - 1) ≡ some t
    → CutFrom rf.log (request_of rf n t)
      × (n - 1 + 1 + length (request_of rf n t).entries ≡ length rf.log)
request-CutFrom n rf t positive within small at =
    let whole = request-entries rf n (omega arith) in
    let size = ap length whole ∙ length-drop n rf.log in
    let here' : n - 1 + 1 ≡ n = omega arith in
    (
      record {
        small = omega (arith, size);
        previous = at;
        slice = rw (whole, here') (Slice-drop rf.log n (drop n rf.log) refl);
      },
      omega (arith, size),
    )

-- The follower in the term of the leader, before it checks its log.
pub record Caught (target led : Raft) (t : Term) : Type 0 where
  pub log : led.log ≡ target.log
  pub term : led.current_term ≡ t
  pub sound : IsSound led

pub caught :
    (env : Env) (args : AppendEntriesArgs) (target : Raft)
    → IsSound target
    → target.current_term ≤ args.term
    → (led : Raft) × (append_entries env args target ≡ accept_entries env args led)
      × Caught target led args.term
unfolding append_entries
caught env args target s low =
    let (d, p) = reset_election_timer_lem env target s.timeouts in
    let touched = record target { last_activity = env.now; election_timeout = d } in
    let (c, q, logs, commit, applied, cfg, term) =
      catch_up_term_lem env args.term touched s.timeouts in
    (
      record c { hint_leader_id = args.leader_id },
      rw (append_entries, le→ltb_false args.term target.current_term low, p, q) refl,
      record {
        log = logs;
        term = term ∙ omega arith;
        sound = record {
          committed = rw (logs, commit) s.committed;
          applied = rw (commit, applied) s.applied;
          timeouts = rw cfg s.timeouts;
        };
      },
    )

module _ (env env' : Env) (peer : NodeId) (n : LogIndex) (rf target : Raft)
    (h : IsReady peer n rf target) where
  abbrev pub flying : Raft
  flying = record rf { append_in_flight = insert peer true rf.append_in_flight }

  pub refused_round :
      (t : Term) (led : Raft) (reply : AppendEntriesReply)
      → term_at rf.log (n - 1) ≡ some t
      → Caught target led rf.current_term
      → Consistency (request_of rf n t) led (some reply)
      → (m : LogIndex) × (0 < m)
        × (m < n)
        × (handle_append_reply env peer (request_of rf n t) (some reply) flying
            ≡ some (record flying { next_index = insert peer m rf.next_index }, false, []))
  refused_round t led reply at k c =
      let (m, q, early) =
        refusal-Earlier (request_of rf n t) flying led reply (rw (k.log) h.aligned)
          (rw (k.log) h.small') at c in
      let (no_success, term) = refusal_fields (request_of rf n t) led reply c in
      (
        m,
        early.0,
        omega (arith, early.1, h.positive),
        backed_up env peer (request_of rf n t) flying reply m h.leads
            (rw (term, k.term) (le→ltb_false rf.current_term rf.current_term (omega arith)))
            no_success q (le→ltb_false m 1 (omega (arith, early.0))),
      )
