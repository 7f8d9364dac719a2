-- ===== src/Raft/Replication/Success.antt =====
-- The leader's handling of a success: it always returns.
use raft_thesis.Base.{
  int_eq, Bool-cases, List, [], ap, false, get_or, if◌then◌else◌, inl, inr, insert, length, lookup,
  ltb, refl, some, true, ◌+◌, ◌<◌, ◌∷◌, ◌≡◌,
}
use raft_thesis.Raft.Node.{Raft}
use raft_thesis.Raft.Node.Core.{IsSound}
use raft_thesis.Raft.Replication.{handle_append_reply, record_match}
use raft_thesis.Raft.Replication.Commit.{update_commit_index-Commits}
use raft_thesis.Raft.Types.{
  Action, AppendEntriesArgs, AppendEntriesReply, Env, LogIndex, NodeId, is_leader, leader, u64,
  wake_applier,
}

record_match_returns :
    (peer : NodeId) (matched : LogIndex) (rf : Raft)
    → IsSound rf
    → length rf.log < 18446744073709551616
    → (l : Raft) × (acts : List Action) × (record_match peer matched rf ≡ some (l, acts))
unfolding record_match
record_match_returns peer matched rf s small =
    let raised = record rf {
      match_index = insert peer matched rf.match_index;
      next_index = insert peer (u64 (matched + 1)) rf.next_index;
    } in
    let (r, p, commits) =
      update_commit_index-Commits raised
        (record { committed = s.committed; applied = s.applied; timeouts = s.timeouts }) small in
    elim (Bool-cases (ltb (get_or (lookup peer rf.match_index) 0) matched)) [
      | inl more ↦ (
        record raised { commit_index = r },
        if ltb rf.last_applied r then wake_applier ∷ [] else [],
        rw more p,
      )
      | inr known ↦ (rf, [], rw known refl)
    ]

pub handle_append_reply_returns :
    (env : Env) (peer : NodeId) (args : AppendEntriesArgs) (rf : Raft) (reply : AppendEntriesReply)
    → rf.state ≡ leader
    → IsSound rf
    → length rf.log < 18446744073709551616
    → ltb rf.current_term reply.term ≡ false
    → reply.success ≡ true
    → (l : Raft) × (acts : List Action) × (handle_append_reply env peer args (some reply) rf
        ≡ some (l, true, acts))
unfolding handle_append_reply
handle_append_reply_returns env peer args rf reply leads s small current ok =
    let (l, acts, p) =
      record_match_returns peer (u64 (args.prev_log_index + length args.entries)) rf s small in
    (
      record l { last_heartbeat_ack = insert peer env.now l.last_heartbeat_ack },
      acts,
      rw (handle_append_reply, ap is_leader leads, current, ok, p) refl,
    )
