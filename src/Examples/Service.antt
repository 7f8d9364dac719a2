-- ===== src/Examples/Service.antt =====
-- AppendEntries at a message that replaces the end of a log.
use raft_thesis.Base.{
  List, Option, arith, false, refl, some, some_inj, suc, sym, take, zero, ℕ, ◌∙◌, ◌≡◌,
}
use raft_thesis.Examples.{
  far_commit, far_commit-Sendable, leader_log, replacing, sample-IsSound, sample_env, sample_node,
}
use raft_thesis.Raft.Node.{Raft, term_at}
use raft_thesis.Raft.Service.{Merge, append_entries, check_consistency, merge_entries}
use raft_thesis.Raft.Service.Append.{Advances, append_entries-Advances}
use raft_thesis.Raft.Service.Conflict.{Consistency, check_consistency-Consistency}
use raft_thesis.Raft.Service.Replicates.{Replicates, append_entries-Replicates, merge_entries_twice}
use raft_thesis.Raft.Types.{Action, AppendEntriesReply, LogIndex, Term}

append_entries-Advances_example :
    (f : Raft) × (reply : AppendEntriesReply) × (actions : List Action) × (append_entries sample_env
        far_commit sample_node
      ≡ some (f, reply, actions))
    × Advances sample_node f
append_entries-Advances_example =
    append_entries-Advances sample_env far_commit sample_node sample-IsSound far_commit-Sendable
      ((λ t below at. absurd (omega arith)), ((λ t below at. absurd (omega arith)), tt))

prefix_matches :
    (j : LogIndex) (t : Term)
    → term_at sample_node.log j ≡ some t
    → term_at leader_log j ≡ some t
    → take (suc j) sample_node.log ≡ take (suc j) leader_log
unfolding term_at
prefix_matches zero t a b = refl
prefix_matches (suc zero) t a b = refl
prefix_matches (suc (suc zero)) t a b = absurd (one_two (some_inj (a ∙ sym b)))
  where
    one_two : ◌≡◌ {A = ℕ} 1 2 → ⊥
    one_two e = omega arith
prefix_matches (suc (suc (suc j))) t a b = cc

append_entries-Replicates_example :
    (f : Raft) × (reply : AppendEntriesReply) × (actions : List Action) × (append_entries sample_env
        replacing sample_node
      ≡ some (f, reply, actions))
    × Replicates leader_log replacing f reply
unfolding term_at
append_entries-Replicates_example =
    append_entries-Replicates sample_env replacing sample_node leader_log sample-IsSound
      (record { small = omega arith; previous = refl; slice = (refl, (refl, tt)) }) prefix_matches

merge_entries_twice_example :
    (n k : Merge) × (merge_entries 2 replacing.entries
        (record { log = sample_node.log; rebuild = false })
      ≡ some n)
    × (merge_entries 2 replacing.entries n ≡ some k)
    × (k.log ≡ n.log)
merge_entries_twice_example =
    merge_entries_twice 2 replacing.entries (record { log = sample_node.log; rebuild = false })
      (omega arith) (omega arith)

check_consistency-Consistency_example :
    (r : Option AppendEntriesReply) × (check_consistency
        (record replacing { prev_log_term = 2 })
        sample_node
      ≡ some r)
    × Consistency (record replacing { prev_log_term = 2 }) sample_node r
check_consistency-Consistency_example =
    check_consistency-Consistency (record replacing { prev_log_term = 2 }) sample_node (omega arith)
