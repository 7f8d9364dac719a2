-- ===== src/Examples/Leader.antt =====
-- The leader's commit index, the applier and the progress records.
use mathlib.Core.Option
use raft_thesis.Base.{
  int_eq, List, Option, [], arith, contains, if◌then◌else◌, int_beq, lookup, ltb, none, not, pos,
  refl, some, ℕ, ◌&&◌, ◌++◌, ◌+◌, ◌=?◌, ◌∷◌, ◌≡◌,
}
use raft_thesis.Examples.{counting_leader, sample-IsSound, sample_env, sample_node}
use raft_thesis.Raft.Applier.{applier_round}
use raft_thesis.Raft.Applier.Order.{Applied, applier_round-Applied}
use raft_thesis.Raft.Config.{default_testing_config, normalize}
use raft_thesis.Raft.Config.Defaults.{Defaulted, IsPositive, normalize-normalize}
use raft_thesis.Raft.Membership.{rebuild_progress}
use raft_thesis.Raft.Membership.Progress.{
  begin_tracking, end_tracking, rebuild_progress-lookup, tracked,
}
use raft_thesis.Raft.Node.{Raft, get_last_log_info, is_voter, quorum_votes, term_at}
use raft_thesis.Raft.Replication.{commit_scan, match_count, update_commit_index}
use raft_thesis.Raft.Replication.Commit.{Commits, update_commit_index-Commits}
use raft_thesis.Raft.Types.{Action, Error, LogIndex, u64, wake_applier}

old_term_waits :
    Option.map
      (λ (r : Raft × List Action). (r.0).commit_index)
      (update_commit_index (counting_leader 2))
    ≡ some 1
unfolding update_commit_index commit_scan term_at match_count quorum_votes get_last_log_info
    is_voter contains int_beq lookup
old_term_waits = refl

own_term_commits :
    Option.map
      (λ (r : Raft × List Action). (r.0).commit_index)
      (update_commit_index (counting_leader 3))
    ≡ some 3
unfolding update_commit_index commit_scan term_at match_count quorum_votes get_last_log_info
    is_voter contains int_beq lookup
own_term_commits = refl

update_commit_index-Commits_example :
    (r : LogIndex) × (update_commit_index (counting_leader 3)
      ≡ some (
        record (counting_leader 3) { commit_index = r },
        if ltb 1 r then wake_applier ∷ [] else [],
      ))
    × Commits (counting_leader 3) r
update_commit_index-Commits_example =
    update_commit_index-Commits (counting_leader 3)
      (record { committed = omega arith; applied = omega arith; timeouts = omega arith })
      (omega arith)

-- A machine that records its commands, as recordingFSM of the tests.
abbrev recording : List (List ℕ) → List ℕ → List (List ℕ) × Option Error
recording seen cmd = (seen ++ cmd ∷ [], none)

applier_round-Applied_example :
    (f : Raft) × (t : List (List ℕ)) × (applier_round (some recording) sample_node [] ≡ some (f, t))
    × Applied recording [] sample_node f t
applier_round-Applied_example =
    applier_round-Applied recording [] sample_node [] sample-IsSound refl

rebuild_progress-lookup_example : tracked (pos 2) (rebuild_progress sample_env sample_node) ≡ (
    if contains (pos 2) sample_node.active_members && not (pos 2 =? pos 1)
    then begin_tracking sample_env.now
        (u64 ((get_last_log_info sample_node).0 + 1))
        (tracked (pos 2) sample_node)
    else end_tracking (tracked (pos 2) sample_node))
rebuild_progress-lookup_example = rebuild_progress-lookup sample_env sample_node (pos 2)

normalize-normalize_example :
    Defaulted default_testing_config (normalize default_testing_config)
    × IsPositive (normalize default_testing_config)
    × (normalize (normalize default_testing_config) ≡ normalize default_testing_config)
normalize-normalize_example = normalize-normalize default_testing_config
