-- ===== src/Examples/Reads.antt =====
-- A quorum round of ReadIndex with one acknowledgement.
use raft_thesis.Base.{
  [], arith, contains, false, int_beq, none, refl, some, true, ℕ, ◌∷◌, ◌≡◌, ◌≢◌, ◌≤◌, ◌⊎◌,
}
use raft_thesis.Examples.{sample_node}
use raft_thesis.Raft.Node.{Raft, is_voter, quorum_votes}
use raft_thesis.Raft.ReadIndex.{Round, answered, begin_round, collect, confirm_leader, read_round}
use raft_thesis.Raft.ReadIndex.Quorum.{Confirmed, read_round-Confirmed, read_round-ends}
use raft_thesis.Raft.Types.{leader}

abbrev led : Raft
led = record sample_node { state = leader }

abbrev round : Round
round = record { quorum = 2; leader_term = 1; target = 1; acks = 1; denials = 0; max_possible = 3 }

round_runs : read_round round (answered false led ∷ answered true led ∷ []) ≡ some (none, 1)
unfolding read_round collect confirm_leader
round_runs = refl

read_round-Confirmed_example :
    (◌≡◌ {A = ℕ} 1 1) × ((2 ≤ 1) ⊎ Confirmed round (answered false led ∷ answered true led ∷ []) 1)
read_round-Confirmed_example =
    read_round-Confirmed round (answered false led ∷ answered true led ∷ []) 1 round_runs

read_round-ends_example :
    read_round (begin_round 1 1 led) (answered false led ∷ answered true led ∷ []) ≢ none
unfolding begin_round is_voter contains int_beq quorum_votes
read_round-ends_example =
    read_round-ends 1 1 led (answered false led ∷ answered true led ∷ []) (omega arith)
      (omega arith)
