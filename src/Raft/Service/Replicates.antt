-- ===== src/Raft/Service/Replicates.antt =====
-- AppendEntries against the log that the leader sent from: Raft's Log Matching is kept, and a success
-- means that the follower holds the leader's log as far as the message goes.
use raft_thesis.Base.{
  List, Option, [], arith, dec_lt, false, inl, inr, length, le→ltb_false, lt→ltb, none, refl, some,
  suc, take, true, ◌+◌, ◌<◌, ◌∙◌, ◌≡◌, ◌≤◌, ◌⊎◌,
}
use raft_thesis.Raft.Node.{Raft, term_at}
use raft_thesis.Raft.Node.Core.{IsSound, reset_election_timer_lem}
use raft_thesis.Raft.Node.Log.{term_at-lt}
use raft_thesis.Raft.Service.{
  Merge, accept_entries, answer, append_entries, check_consistency, follow_commit, merge_entries,
}
use raft_thesis.Raft.Service.Agreement.{merge_entries-agrees}
use raft_thesis.Raft.Service.Append.{catch_up_term_lem, store_entries-core}
use raft_thesis.Raft.Service.Conflict.{
  Consistency, check_consistency-Consistency, differs, matches, missing,
}
use raft_thesis.Raft.Service.Merging.{LogMatching, Slice}
use raft_thesis.Raft.Service.Stability.{merge_entries_known, merge_entries_stored}
use raft_thesis.Raft.Types.{Action, AppendEntriesArgs, AppendEntriesReply, Env, LogEntry, LogIndex}

-- The message was cut from the leader's log.
pub record CutFrom (l : List LogEntry) (args : AppendEntriesArgs) : Type 0 where
  pub small : args.prev_log_index + 1 + length args.entries < 18446744073709551616
  pub previous : term_at l args.prev_log_index ≡ some args.prev_log_term
  pub slice : Slice l (args.prev_log_index + 1) args.entries

-- What the follower's log has to do with the leader's after the call.
pub record Replicates (l : List LogEntry) (args : AppendEntriesArgs) (f : Raft)
    (reply : AppendEntriesReply) : Type 0 where
  pub matching : LogMatching f.log l
  pub holds :
      (reply.success ≡ false)
      ⊎ (take (args.prev_log_index + 1 + length args.entries) f.log
          ≡ take (args.prev_log_index + 1 + length args.entries) l)

follow_commit-log : (args : AppendEntriesArgs) (f : Raft) → (follow_commit args f).0.log ≡ f.log
unfolding follow_commit
follow_commit-log args f = ground arith

Consistency-refuses :
    (args : AppendEntriesArgs) (rf : Raft) (reply : AppendEntriesReply)
    → Consistency args rf (some reply)
    → reply.success ≡ false
Consistency-refuses args rf reply (missing h) = refl
Consistency-refuses args rf reply (differs t s at other r) = refl

pub accept_entries-Replicates :
    (env : Env) (args : AppendEntriesArgs) (rf : Raft) (l : List LogEntry)
    → 0 < length rf.log
    → CutFrom l args
    → LogMatching rf.log l
    → (f : Raft) × (reply : AppendEntriesReply) × (actions : List Action) × (accept_entries env args
          rf
        ≡ some (f, reply, actions))
      × Replicates l args f reply
unfolding accept_entries
accept_entries-Replicates env args rf l h sent match =
    let (r, p, c) = check_consistency-Consistency args rf h in go r p c
  where
    go :
        (r : Option AppendEntriesReply)
        → check_consistency args rf ≡ some r
        → Consistency args rf r
        → (f : Raft) × (reply : AppendEntriesReply) × (actions : List Action) × (accept_entries env
              args rf
            ≡ some (f, reply, actions))
          × Replicates l args f reply
    go (some reply) p c = (
      rf,
      reply,
      [],
      rw p,
      record { matching = match; holds = inl (Consistency-refuses args rf reply c) },
    )
    go none p (matches at) =
        let one : suc args.prev_log_index ≡ args.prev_log_index + 1 = omega arith in
        let agree : take (args.prev_log_index + 1) rf.log ≡ take (args.prev_log_index + 1) l =
          rw one at (match args.prev_log_index args.prev_log_term at sent.previous) in
        let (n, q, reach, same, matching) =
          merge_entries-agrees (args.prev_log_index + 1) args.entries
            (record { log = rf.log; rebuild = false }) l
            (omega (arith, term_at-lt rf.log args.prev_log_index at)) sent.small agree sent.slice
            match in
        let (f, q', core) = store_entries-core env args rf n (omega (arith, sent.small)) q in
        let logs = follow_commit-log args f ∙ core.log in
        (
          (follow_commit args f).0,
          answer rf.current_term true,
          (follow_commit args f).1,
          rw (p, q'),
          record { matching = rw logs matching; holds = inr (rw logs same) },
        )

-- From a node whose log has an entry and matches the leader's, and a message cut from the leader's log,
-- AppendEntries returns, the node's log still matches the leader's, and if the reply is a success then
-- it is the leader's log up to the last entry of the message.
pub append_entries-Replicates :
    (env : Env) (args : AppendEntriesArgs) (rf : Raft) (l : List LogEntry)
    → IsSound rf
    → CutFrom l args
    → LogMatching rf.log l
    → (f : Raft) × (reply : AppendEntriesReply) × (actions : List Action) × (append_entries env args
          rf
        ≡ some (f, reply, actions))
      × Replicates l args f reply
unfolding append_entries
append_entries-Replicates env args rf l s sent match = elim (dec_lt args.term rf.current_term) [
  | yes stale ↦ (
    rf,
    answer rf.current_term false,
    [],
    rw (lt→ltb args.term rf.current_term stale),
    record { matching = match; holds = inl refl },
  )
  | no fresh ↦
      let (d, p) = reset_election_timer_lem env rf s.timeouts in
      let touched = record rf { last_activity = env.now; election_timeout = d } in
      let (c, q, logs, _, _, _, _) = catch_up_term_lem env args.term touched s.timeouts in
      let led = record c { hint_leader_id = args.leader_id } in
      let (f, reply, actions, r, after) =
        accept_entries-Replicates env args led l (rw logs (omega (arith, s.committed))) sent
          (rw logs match) in
      (f, reply, actions, rw (le→ltb_false args.term rf.current_term (omega arith), p, q) r, after)
]

-- A message that was stored is stored again without effect on the log, whatever arrived of it twice.
pub merge_entries_twice :
    (i : LogIndex) (es : List LogEntry) (m : Merge)
    → i ≤ length m.log
    → i + length es < 18446744073709551616
    → (n k : Merge) × (merge_entries i es m ≡ some n)
      × (merge_entries i es n ≡ some k)
      × (k.log ≡ n.log)
merge_entries_twice i es m h b =
    let (n, p, _, _, terms) = merge_entries_stored i es m h b in
    let (k, q, same) = merge_entries_known i es n b terms in (n, k, p, q, same)
