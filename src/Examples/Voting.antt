-- ===== src/Examples/Voting.antt =====
-- A vote, an election that it wins, and the votes of a node.
use raft_thesis.Base.{
  Bool, List, [], arith, contains, int_beq, none, pos, refl, some, true, ℕ, ◌||◌, ◌∷◌, ◌≡◌, ◌≢◌,
}
use raft_thesis.Examples.{sample_env, sample_node}
use raft_thesis.Raft.Election.{
  Election, count_vote, handle_vote_reply, request_votes_from, start_election,
}
use raft_thesis.Raft.Election.Leadership.{Elected, handle_vote_reply-Elected, start_election_alone}
use raft_thesis.Raft.Node.{
  Raft, get_last_log_info, get_random_duration, is_voter, quorum_votes, reset_election_timer,
}
use raft_thesis.Raft.Node.Quorum.{Both, quorum_votes-Both}
use raft_thesis.Raft.Service.{
  catch_up_term, decide_vote, is_log_up_to_date, leader_in_contact, request_vote,
}
use raft_thesis.Raft.Service.Votes.{Granted, request_vote-Granted}
use raft_thesis.Raft.Transitions.{become_candidate, become_follower, become_leader}
use raft_thesis.Raft.Transitions.Office.{InOffice, become_leader-InOffice, become_leader-ballot}
use raft_thesis.Raft.Types.{Action, NodeId, RequestVoteArgs, RequestVoteReply, candidate, no_node}
use raft_thesis.Raft.Voting.{OnePerTerm, Steps, Traced, next, requested, start}
use raft_thesis.Raft.Voting.OneVote.{Steps-OnePerTerm, fresh}

abbrev candidacy : RequestVoteArgs
candidacy = record { term = 2; candidate_id = pos 3; last_log_index = 2; last_log_term = 1 }

-- Node 1 after it has voted for node 3.
abbrev voted : Raft
voted = record sample_node {
  current_term = 2;
  voted_for = pos 3;
  last_activity = 1_000_000_000;
  election_timeout = pos 225_000_000;
}

voted_lem :
    request_vote sample_env candidacy sample_node
    ≡ some (voted, record { term = 2; vote_granted = true })
unfolding request_vote leader_in_contact catch_up_term become_follower reset_election_timer
    get_random_duration decide_vote is_voter contains int_beq is_log_up_to_date get_last_log_info
voted_lem = refl

request_vote-Granted_example : Granted sample_env candidacy sample_node voted
request_vote-Granted_example =
    request_vote-Granted sample_env candidacy sample_node voted
      (record { term = 2; vote_granted = true }) voted_lem refl

no_negative : (n : ℕ) → pos n ≢ no_node
no_negative n e = cc

abbrev voted_once : Traced
voted_once = record { node = voted; votes = (2, pos 3) ∷ []; led = none }

once : Steps (fresh sample_node) voted_once
once = next start (
    requested sample_env candidacy voted (record { term = 2; vote_granted = true })
      (record { newer = omega arith; someone = no_negative 3 }) voted_lem refl)

Steps-OnePerTerm_example : OnePerTerm ((2, pos 3) ∷ [])
Steps-OnePerTerm_example = Steps-OnePerTerm sample_node voted_once (λ e. cc) once

-- Node 1 as a candidate of term 2, and its first vote from another node.
abbrev candidate_node : Raft
candidate_node = record sample_node { state = candidate; current_term = 2; voted_for = pos 1 }

abbrev running : Election
running = record { term = 2; votes_received = 1; quorum = 2 }

abbrev a_vote : RequestVoteReply
a_vote = record { term = 2; vote_granted = true }

won_lem :
    handle_vote_reply sample_env (some a_vote) running candidate_node
    ≡ some (
      (become_leader sample_env candidate_node).0,
      record { term = 2; votes_received = 2; quorum = 2 },
      (become_leader sample_env candidate_node).1,
    )
unfolding handle_vote_reply count_vote
won_lem = refl

handle_vote_reply-Elected_example :
    Elected (some a_vote) running candidate_node (become_leader sample_env candidate_node).0
handle_vote_reply-Elected_example =
    handle_vote_reply-Elected sample_env (some a_vote) running
      (record { term = 2; votes_received = 2; quorum = 2 }) candidate_node
      (become_leader sample_env candidate_node).0 (become_leader sample_env candidate_node).1
      (omega arith) won_lem (λ e. cc) (become_leader-ballot sample_env candidate_node refl).0

become_leader-InOffice_example : InOffice candidate_node (become_leader sample_env candidate_node).0
become_leader-InOffice_example = become_leader-InOffice sample_env candidate_node (omega arith) refl

-- A cluster of node 1 alone.
abbrev alone : Raft
alone = record sample_node { active_members = pos 1 ∷ []; voter_members = pos 1 ∷ []; peers = [] }

abbrev standing_alone : Raft
standing_alone = record alone {
  state = candidate;
  current_term = 2;
  voted_for = pos 1;
  last_activity = 1_000_000_000;
  election_timeout = pos 225_000_000;
}

standing_alone_lem :
    start_election sample_env alone
    ≡ some (standing_alone, record { term = 2; votes_received = 1; quorum = 1 }, [])
unfolding start_election become_candidate reset_election_timer get_random_duration is_voter contains
    int_beq quorum_votes request_votes_from
standing_alone_lem = refl

start_election_alone_example :
    (standing_alone.state ≡ candidate) × (◌≡◌ {A = ℕ} 1 1) × (◌≡◌ {A = List Action} [] [])
start_election_alone_example =
    start_election_alone sample_env alone standing_alone
      (record { term = 2; votes_received = 1; quorum = 1 }) [] refl standing_alone_lem

abbrev first_two : NodeId → Bool
first_two id = int_beq id (pos 1) || int_beq id (pos 2)

abbrev last_two : NodeId → Bool
last_two id = int_beq id (pos 2) || int_beq id (pos 3)

quorum_votes-Both_example : Both first_two last_two sample_node.voter_members
unfolding quorum_votes int_beq
quorum_votes-Both_example =
    quorum_votes-Both sample_node first_two last_two (omega arith) (omega arith)
