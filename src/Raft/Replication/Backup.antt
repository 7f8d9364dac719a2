-- ===== src/Raft/Replication/Backup.antt =====
-- What a refused AppendEntries does to the leader's progress record: the next request starts earlier.
use mathlib.Core.Path.{subst}
use raft_thesis.Base.{
  int_eq, =?_refl, List, Option, [], ap, arith, dec_lt, false, get_or, insert, length, le→ltb_false,
  lookup, lookup-insert, ltb, lt→ltb, nat_eq_iff, nat_ne, none, refl, some, some_inj, suc, sym,
  zero, ℕ_discrete, ◌+◌, ◌<◌, ◌∙◌, ◌≡◌, ◌≢◌, ◌≤◌,
}
use raft_thesis.Raft.Node.{Raft, get_last_log_info, last_log_info, term_at}
use raft_thesis.Raft.Node.Core.{u64_small}
use raft_thesis.Raft.Node.Log.{last_log_info-length, term_at-lt, term_at-some}
use raft_thesis.Raft.Replication.{find_term_end, handle_append_reply, next_after_conflict}
use raft_thesis.Raft.Service.{check_consistency, refusal}
use raft_thesis.Raft.Service.Conflict.{Consistency, check_consistency-Consistency, differs, missing}
use raft_thesis.Raft.Types.{
  AppendEntriesArgs, AppendEntriesReply, Env, LogEntry, LogIndex, NodeId, Term, is_leader, leader,
}

-- What the log that the leader sends from has to do with the follower's: both start with the entry of
-- term 0, and a term that both logs have is in the leader's log from its index in the follower's on.
pub record IsAligned (l m : List LogEntry) : Type 0 where
  pub first : term_at l 0 ≡ some 0
  pub first' : term_at m 0 ≡ some 0
  pub aligned :
      (t : Term) (i j : LogIndex)
      → term_at m j ≡ some t
      → term_at l i ≡ some t
      → j ≤ i
      → term_at l j ≡ some t

-- What the scan from the end can find.
data Found (log : List LogEntry) (t : Term) (last : LogIndex) : Option LogIndex → Type 0 where
  absent : Found log t last none
  at_end :
      (j : LogIndex) → 0 < j → j ≤ last → term_at log j ≡ some t → Found log t last (some (j + 1))

Found-suc :
    (log : List LogEntry) (t : Term) (last : LogIndex) (r : Option LogIndex)
    → Found log t last r
    → Found log t (suc last) r
Found-suc log t last _ absent = absent
Found-suc log t last _ (at_end j p q at) = at_end j p (omega arith) at

find_term_end-Found :
    (log : List LogEntry) (t : Term) (last : LogIndex)
    → last < length log
    → (r : Option LogIndex) × (find_term_end log t last ≡ some r) × Found log t last r
unfolding find_term_end
find_term_end-Found log t zero h = (none, refl, absent)
find_term_end-Found log t (suc i) h =
    let (u, at) = term_at-some log (suc i) h in
    let (r, p, found) = find_term_end-Found log t i (omega arith) in
    elim (ℕ_discrete u t) [
      | yes same ↦ (
        some (suc i + 1),
        rw (at, (nat_eq_iff u t).1 same) refl,
        at_end (suc i) (omega arith) (omega arith) (at ∙ ap some same),
      )
      | no other ↦ elim (dec_lt u t) [
        | yes older ↦ (none, rw (at, nat_ne u t other, lt→ltb u t older) refl, absent)
        | no newer ↦ (
          r,
          rw (at, nat_ne u t other, le→ltb_false u t (omega arith)) p,
          Found-suc log t i r found,
        )
      ]
    ]

-- The next index after a refusal lies in 1 to the index that was refused.
abbrev pub Earlier : AppendEntriesArgs → LogIndex → Type 0
Earlier args n = (0 < n) × (n ≤ args.prev_log_index)

Found-Earlier :
    (args : AppendEntriesArgs) (l m : List LogEntry) (t : Term) (s last : LogIndex)
    (r : Option LogIndex)
    → IsAligned l m
    → term_at l args.prev_log_index ≡ some args.prev_log_term
    → term_at m args.prev_log_index ≡ some t
    → t ≢ args.prev_log_term
    → Earlier args s
    → Found l t last r
    → Earlier args (get_or r s)
Found-Earlier args l m t s last _ logs prev at other early absent = early
Found-Earlier args l m t s last _ logs prev at other early (at_end j p q here) =
    elim (dec_lt j args.prev_log_index) [
      | yes before ↦ (omega arith, omega arith)
      | no behind ↦
          let both = logs.aligned t j args.prev_log_index at here (omega arith) in
          absurd (other (some_inj (sym both ∙ prev)))
    ]

next_after_differs :
    (args : AppendEntriesArgs) (rf : Raft) (m : List LogEntry) (t : Term) (s : LogIndex)
    → IsAligned rf.log m
    → term_at rf.log args.prev_log_index ≡ some args.prev_log_term
    → term_at m args.prev_log_index ≡ some t
    → t ≢ args.prev_log_term
    → Earlier args s
    → (term : Term)
    → (n : LogIndex) × (next_after_conflict (refusal term s t) rf ≡ some n) × Earlier args n
unfolding next_after_conflict get_last_log_info
next_after_differs args rf m t s logs prev at other early term = elim (ℕ_discrete t 0) [
  | yes zero' ↦ (s, rw ((nat_eq_iff t 0).1 zero') refl, early)
  | no named ↦
      let some_entry : 0 < length rf.log = omega (arith, term_at-lt rf.log 0 logs.first) in
      let last = last_log_info-length rf.log some_entry in
      let (r, p, found) =
        find_term_end-Found rf.log t (last_log_info rf.log).0 (omega (arith, last)) in
      (
        get_or r s,
        rw (nat_ne t 0 named, p) refl,
        Found-Earlier args rf.log m t s _ r logs prev at other early found,
      )
]

-- The sentinel matches, so a refusal is of an index behind it.
prev_positive :
    (args : AppendEntriesArgs) (l m : List LogEntry) (t : Term)
    → IsAligned l m
    → term_at l args.prev_log_index ≡ some args.prev_log_term
    → term_at m args.prev_log_index ≡ some t
    → t ≢ args.prev_log_term
    → 0 < args.prev_log_index
prev_positive args l m t logs prev at other = elim (ℕ_discrete args.prev_log_index 0) [
  | no behind ↦ omega arith
  | yes first ↦
      let left = sym (ap (term_at l) first) ∙ prev in
      let right = sym (ap (term_at m) first) ∙ at in
      absurd (other (some_inj (sym right ∙ logs.first' ∙ sym logs.first ∙ left)))
]

pub refusal-Earlier :
    (args : AppendEntriesArgs) (rf target : Raft) (reply : AppendEntriesReply)
    → IsAligned rf.log target.log
    → length target.log < 18446744073709551616
    → term_at rf.log args.prev_log_index ≡ some args.prev_log_term
    → Consistency args target (some reply)
    → (n : LogIndex) × (next_after_conflict reply rf ≡ some n) × Earlier args n
unfolding next_after_conflict
refusal-Earlier args rf target _ logs small prev (missing far) =
    let some_entry = term_at-lt target.log 0 logs.first' in
    (length target.log, ground (arith, u64_small (length target.log) small), (some_entry, far))
refusal-Earlier args rf target _ logs small prev (differs t s at other run) =
    let behind = prev_positive args rf.log target.log t logs prev at other in
    next_after_differs args rf target.log t s logs prev at other (run.positive behind, run.before)
      target.current_term

pub refusal_fields :
    (args : AppendEntriesArgs) (target : Raft) (reply : AppendEntriesReply)
    → Consistency args target (some reply)
    → (reply.success ≡ false) × (reply.term ≡ target.current_term)
refusal_fields args target _ (missing far) = (refl, refl)
refusal_fields args target _ (differs t s at other run) = (refl, refl)

pub backed_up :
    (env : Env) (peer : NodeId) (args : AppendEntriesArgs) (rf : Raft) (reply : AppendEntriesReply)
    (n : LogIndex)
    → rf.state ≡ leader
    → ltb rf.current_term reply.term ≡ false
    → reply.success ≡ false
    → next_after_conflict reply rf ≡ some n
    → ltb n 1 ≡ false
    → handle_append_reply env peer args (some reply) rf
      ≡ some (record rf { next_index = insert peer n rf.next_index }, false, [])
unfolding handle_append_reply
backed_up env peer args rf reply n leads current refused q positive =
    rw (handle_append_reply, q, current, refused) (rw (ap is_leader leads, positive) refl)

-- A leader asks about an entry of its log, and the consistency check of a follower refuses, whose log is
-- aligned with the leader's, is no longer than an index can count, and whose term is not newer. Then the
-- leader's handling of that reply returns, and the peer's next index is at least 1 and at most the index
-- that was refused, whichever conflict the reply names: the next request starts earlier.
pub handle_append_reply-Earlier :
    (env : Env) (peer : NodeId) (args : AppendEntriesArgs) (rf target : Raft)
    (reply : AppendEntriesReply)
    → rf.state ≡ leader
    → target.current_term ≤ rf.current_term
    → IsAligned rf.log target.log
    → length target.log < 18446744073709551616
    → term_at rf.log args.prev_log_index ≡ some args.prev_log_term
    → check_consistency args target ≡ some (some reply)
    → (f : Raft) × (n : LogIndex) × (handle_append_reply env peer args (some reply) rf
        ≡ some (f, false, []))
      × (lookup peer f.next_index ≡ some n)
      × Earlier args n
handle_append_reply-Earlier env peer args rf target reply leads old logs small prev refused =
    let (r, p, found) =
      check_consistency-Consistency args target (term_at-lt target.log 0 logs.first') in
    let c =
      subst (λ (o : Option AppendEntriesReply). Consistency args target o)
        (some_inj (sym p ∙ refused)) found in
    let (n, q, early) = refusal-Earlier args rf target reply logs small prev c in
    let (no_success, term) = refusal_fields args target reply c in
    let current : ltb rf.current_term reply.term ≡ false =
      rw term (le→ltb_false rf.current_term target.current_term old) in
    let positive : ltb n 1 ≡ false = le→ltb_false n 1 (omega arith) in
    (
      record rf { next_index = insert peer n rf.next_index },
      n,
      backed_up env peer args rf reply n leads current no_success q positive,
      lookup-insert peer peer n rf.next_index ∙ rw (=?_refl peer) refl,
      early,
    )
