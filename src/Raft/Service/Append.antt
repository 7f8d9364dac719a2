-- ===== src/Raft/Service/Append.antt =====
-- AppendEntries as a whole: from a sound node and a message that contradicts nothing committed it
-- returns, keeps the node sound and the committed prefix as it is, and stores what it acknowledges.
use raft_thesis.Base.{
  Bool-cases, List, Option, [], arith, dec_lt, false, inl, inr, length, le→ltb_false, lt→ltb, max,
  none, refl, some, suc, take, true, ◌+◌, ◌<ℤ◌, ◌<◌, ◌≡◌, ◌≤◌,
}
use raft_thesis.Raft.Membership.{rebuild_volatile_peers}
use raft_thesis.Raft.Membership.Core.{rebuild_volatile_peers-core}
use raft_thesis.Raft.Node.{Raft, get_last_log_info}
use raft_thesis.Raft.Node.Core.{
  IsSound, SameCore, SameCore-refl, reset_election_timer_lem, u64_small,
}
use raft_thesis.Raft.Node.Log.{term_at-lt}
use raft_thesis.Raft.Service.{
  Merge, accept_entries, answer, append_entries, catch_up_term, check_consistency, follow_commit,
  merge_entries, store_entries,
}
use raft_thesis.Raft.Service.Conflict.{Consistency, check_consistency-Consistency, matches}
use raft_thesis.Raft.Service.Stability.{NoConflictBelow, merge_entries_keep}
use raft_thesis.Raft.Transitions.{become_follower}
use raft_thesis.Raft.Types.{
  Action, AppendEntriesArgs, AppendEntriesReply, Env, Term, follower, no_node,
}

-- What is asked of a message: its indexes are no larger than a slice, and if it announces a commit beyond
-- the node's, then it reaches up to the node's own commit index. It may announce more than it carries.
pub record Sendable (rf : Raft) (args : AppendEntriesArgs) : Type 0 where
  pub small : args.prev_log_index + 1 + length args.entries < 18446744073709551616
  pub reaches :
      rf.commit_index < args.leader_commit
      → rf.commit_index ≤ args.prev_log_index + length args.entries

-- The step to a newer term changes no index and no entry.
pub catch_up_term_lem :
    (env : Env) (term : Term) (rf : Raft)
    → rf.cfg.min_election_timeout <ℤ rf.cfg.max_election_timeout
    → (f : Raft) × (catch_up_term env term rf ≡ some f)
      × (f.log ≡ rf.log)
      × (f.commit_index ≡ rf.commit_index)
      × (f.last_applied ≡ rf.last_applied)
      × (f.cfg ≡ rf.cfg)
      × (f.current_term ≡ max rf.current_term term)
unfolding catch_up_term become_follower
catch_up_term_lem env term rf h = elim (dec_lt rf.current_term term) [
  | no stale ↦ (
    rf,
    rw (le→ltb_false rf.current_term term (omega arith)),
    refl,
    refl,
    refl,
    refl,
    omega arith,
  )
  | yes newer ↦
      let down = record rf { state = follower; current_term = term; voted_for = no_node } in
      let (d, p) = reset_election_timer_lem env down h in
      (
        record down { last_activity = env.now; election_timeout = d },
        rw (lt→ltb rf.current_term term newer) p,
        refl,
        refl,
        refl,
        refl,
        omega arith,
      )
]

-- Storing the merged log rebuilds the peers at most.
pub store_entries-core :
    (env : Env) (args : AppendEntriesArgs) (rf : Raft) (n : Merge)
    → args.prev_log_index + 1 < 18446744073709551616
    → merge_entries
        (args.prev_log_index + 1)
        args.entries
        (record { log = rf.log; rebuild = false })
      ≡ some n
    → (f : Raft) × (store_entries env args rf ≡ some f) × SameCore f (record rf { log = n.log })
unfolding store_entries
store_entries-core env args rf n small p =
    let stored = record rf { log = n.log } in
    let start = u64_small (args.prev_log_index + 1) small in
    elim (Bool-cases n.rebuild) [
      | inl b ↦ (
        rebuild_volatile_peers env (get_last_log_info stored).0 stored,
        rw (start, p, b),
        rebuild_volatile_peers-core env _ stored,
      )
      | inr b ↦ (stored, rw (start, p, b), SameCore-refl stored)
    ]

-- What the handler leaves: a sound node whose committed prefix stands and whose commit index has not
-- gone back.
pub record Advances (rf f : Raft) : Type 0 where
  pub sound : IsSound f
  pub forward : rf.commit_index ≤ f.commit_index
  pub prefix : take (suc rf.commit_index) f.log ≡ take (suc rf.commit_index) rf.log

follow_commit-Advances :
    (args : AppendEntriesArgs) (rf f : Raft)
    → IsSound rf
    → Sendable rf args
    → args.prev_log_index + 1 + length args.entries ≤ length f.log
    → suc rf.commit_index ≤ length f.log
    → take (suc rf.commit_index) f.log ≡ take (suc rf.commit_index) rf.log
    → f.commit_index ≡ rf.commit_index
    → f.last_applied ≡ rf.last_applied
    → f.cfg ≡ rf.cfg
    → Advances rf (follow_commit args f).0
unfolding follow_commit
follow_commit-Advances args rf f s m reach within same c a cfg =
    elim (dec_lt f.commit_index args.leader_commit) [
      | no behind ↦ rw (le→ltb_false f.commit_index args.leader_commit (omega arith)) (record {
        sound = record {
          committed = omega arith;
          applied = omega (arith, s.applied);
          timeouts = rw cfg s.timeouts;
        };
        forward = omega arith;
        prefix = same;
      })
      | yes ahead ↦ rw (lt→ltb f.commit_index args.leader_commit ahead) (record {
        sound = record {
          committed = omega (arith, m.small, m.reaches (omega arith));
          applied = omega (arith, s.applied, m.small, m.reaches (omega arith));
          timeouts = rw cfg s.timeouts;
        };
        forward = omega (arith, m.small, m.reaches (omega arith));
        prefix = same;
      })
    ]

accept_entries-Advances :
    (env : Env) (args : AppendEntriesArgs) (rf : Raft)
    → IsSound rf
    → Sendable rf args
    → NoConflictBelow (suc rf.commit_index) rf.log (args.prev_log_index + 1) args.entries
    → (f : Raft) × (reply : AppendEntriesReply) × (actions : List Action) × (accept_entries env args
          rf
        ≡ some (f, reply, actions))
      × Advances rf f
unfolding accept_entries
accept_entries-Advances env args rf s m quiet =
    let (r, p, c) = check_consistency-Consistency args rf (omega (arith, s.committed)) in go r p c
  where
    stays : Advances rf rf
    stays = record { sound = s; forward = omega arith; prefix = refl }

    go :
        (r : Option AppendEntriesReply)
        → check_consistency args rf ≡ some r
        → Consistency args rf r
        → (f : Raft) × (reply : AppendEntriesReply) × (actions : List Action) × (accept_entries env
              args rf
            ≡ some (f, reply, actions))
          × Advances rf f
    go (some reply) p c = (rf, reply, [], rw p, stays)
    go none p (matches at) =
        let (n, q, reach, within, same) =
          merge_entries_keep (suc rf.commit_index) (args.prev_log_index + 1) args.entries
            (record { log = rf.log; rebuild = false })
            (omega (arith, term_at-lt rf.log args.prev_log_index at)) m.small s.committed quiet in
        let (f, q', core) = store_entries-core env args rf n (omega (arith, m.small)) q in
        let logs = core.log in
        (
          (follow_commit args f).0,
          answer rf.current_term true,
          (follow_commit args f).1,
          rw (p, q'),
          follow_commit-Advances args rf f s m (rw logs reach) (rw logs within) (rw logs same)
              core.commit_index core.last_applied core.cfg,
        )

-- Take a sound node and a message whose entries contradict nothing committed, whose indexes are no larger
-- than a slice, and which reaches up to the node's commit index if it announces a later one; it may
-- announce any commit, also one beyond its entries. AppendEntries returns (it does not fault), the node is
-- sound again, so that its commit index is inside its log, the commit index has not gone back, and the log
-- up to the old commit index is unchanged, whether the message is accepted, refused or stale.
pub append_entries-Advances :
    (env : Env) (args : AppendEntriesArgs) (rf : Raft)
    → IsSound rf
    → Sendable rf args
    → NoConflictBelow (suc rf.commit_index) rf.log (args.prev_log_index + 1) args.entries
    → (f : Raft) × (reply : AppendEntriesReply) × (actions : List Action) × (append_entries env args
          rf
        ≡ some (f, reply, actions))
      × Advances rf f
unfolding append_entries
append_entries-Advances env args rf s m quiet = elim (dec_lt args.term rf.current_term) [
  | yes stale ↦ (
    rf,
    answer rf.current_term false,
    [],
    rw (lt→ltb args.term rf.current_term stale),
    record { sound = s; forward = omega arith; prefix = refl },
  )
  | no fresh ↦
      let (d, p) = reset_election_timer_lem env rf s.timeouts in
      let touched = record rf { last_activity = env.now; election_timeout = d } in
      let (c, q, logs, commit, applied, cfg, term) =
        catch_up_term_lem env args.term touched s.timeouts in
      let led = record c { hint_leader_id = args.leader_id } in
      let sound : IsSound led = record {
        committed = rw (logs, commit) s.committed;
        applied = rw (commit, applied) s.applied;
        timeouts = rw cfg s.timeouts;
      } in
      let (f, reply, actions, r, after) =
        accept_entries-Advances env args led sound
          (record { small = m.small; reaches = rw commit m.reaches }) (rw (logs, commit) quiet) in
      (
        f,
        reply,
        actions,
        rw (le→ltb_false args.term rf.current_term (omega arith), p, q) r,
        record {
          sound = after.sound;
          forward = rw commit at (after.forward);
          prefix = rw (logs, commit) at (after.prefix);
        },
      )
]
