-- ===== src/Examples/Cluster.antt =====
-- A cluster of two voters: node 1 stands, node 2 votes for it, and node 1 counts the vote and leads.
use raft_thesis.Base.{
  int_eq, List, [], arith, contains, insert, int_beq, lookup, none, pos, refl, some, true, ℕ, ◌∷◌,
  ◌≡◌, ◌≢◌,
}
use raft_thesis.Examples.{entry, peer, sample_env, sample_node, sentinel}
use raft_thesis.Raft.Election.{
  Election, count_vote, handle_vote_reply, request_votes_from, start_election, vote_request,
}
use raft_thesis.Raft.Node.{
  Raft, get_last_log_info, get_random_duration, is_voter, quorum_votes, reset_election_timer,
  term_at,
}
use raft_thesis.Raft.Replication.{encode_append, prepare_append}
use raft_thesis.Raft.Service.{
  catch_up_term, decide_vote, is_log_up_to_date, leader_in_contact, request_vote,
}
use raft_thesis.Raft.Service.Merging.{LogMatching}
use raft_thesis.Raft.System.{
  Cluster, Intact, Later, Reached, Sent, begun, counting, encoding, first, further, more_turns,
  no_later, place, put, put_at, returned, sending, set_call, standing, turned, unasked, used,
  voting,
}
use raft_thesis.Raft.System.Safety.{Reached-OneLeader}
use raft_thesis.Raft.System.SameLogs.{Reached-LogMatching}
use raft_thesis.Raft.System.Wire.{unsent}
use raft_thesis.Raft.Transitions.{
  append_founding, become_candidate, become_follower, become_leader, begin_term, founding_entries,
  reset_progress, sorted_bootstrap_ids, take_office,
}
use raft_thesis.Raft.Transitions.Office.{become_leader-ballot}
use raft_thesis.Raft.Types.{
  Action, AppendEntriesArgs, NodeId, RequestVoteArgs, RequestVoteReply, candidate, entry_normal,
  leader, no_node, send_request_vote,
}
use raft_thesis.Raft.Voting.{led_after}
use raft_thesis.Raft.Voting.OneVote.{fresh}

abbrev voters : List NodeId
voters = pos 1 ∷ pos 2 ∷ []

abbrev new_node : NodeId → Raft
new_node i = record sample_node {
  id = i;
  active_members = voters;
  voter_members = voters;
  peers = (pos 1, peer 1) ∷ (pos 2, peer 2) ∷ [];
  log = sentinel ∷ [];
  commit_index = 0;
}

abbrev started : Cluster
started = record {
  nodes = λ i. fresh (new_node i);
  elections = λ i t. none;
  calls = λ i t v. unasked;
  sent = [];
  waiting = [];
  wire = [];
}

started-Reached : Reached voters started
started-Reached =
    begun (λ i. fresh (new_node i))
      (λ i. record { id = refl; members = refl; quiet = λ e. cc; sentinel = refl; unvoted = refl })

idle : (c : Cluster) → c.waiting ≡ [] → Intact c
idle c none_waits = record { unwritten = λ i peer args s. absurd (unsent s none_waits) }

abbrev candidate_1 : Raft
candidate_1 = record (new_node (pos 1)) {
  state = candidate;
  current_term = 2;
  voted_for = pos 1;
  last_activity = 1_000_000_000;
  election_timeout = pos 225_000_000;
}

abbrev request : RequestVoteArgs
request = record { term = 2; candidate_id = pos 1; last_log_index = 0; last_log_term = 0 }

abbrev first_count : Election
first_count = record { term = 2; votes_received = 1; quorum = 2 }

abbrev asking : List Action
asking = send_request_vote (pos 2) request ∷ []

stands : start_election sample_env (new_node (pos 1)) ≡ some (candidate_1, first_count, asking)
unfolding start_election become_candidate reset_election_timer get_random_duration is_voter contains
    int_beq quorum_votes request_votes_from vote_request get_last_log_info
stands = refl

abbrev stood_cluster : Cluster
stood_cluster = record started {
  nodes =
      put (pos 1)
        (record (fresh (new_node (pos 1))) { node = candidate_1; votes = (2, pos 1) ∷ [] })
        started.nodes;
  elections = put_at (pos 1) 2 (some first_count) started.elections;
  calls = put_at (pos 1) 2 (place asking) started.calls;
}

no_negative_id : (n : ℕ) → pos n ≢ no_node
no_negative_id n e = cc

stood-Reached : Reached voters stood_cluster
stood-Reached =
    turned started-Reached
      (standing (pos 1) sample_env candidate_1 first_count asking (no_negative_id 1) (omega arith)
        refl stands refl refl)
      (idle stood_cluster refl)

abbrev voter_2 : Raft
voter_2 = record (new_node (pos 2)) {
  current_term = 2;
  voted_for = pos 1;
  last_activity = 1_000_000_000;
  election_timeout = pos 225_000_000;
}

abbrev granted_vote : RequestVoteReply
granted_vote = record { term = 2; vote_granted = true }

votes_for_1 : request_vote sample_env request (new_node (pos 2)) ≡ some (voter_2, granted_vote)
unfolding request_vote leader_in_contact catch_up_term become_follower reset_election_timer
    get_random_duration decide_vote is_voter contains int_beq is_log_up_to_date get_last_log_info
votes_for_1 = refl

abbrev voted_cluster : Cluster
voted_cluster = record stood_cluster {
  nodes =
      put (pos 2) (record (stood_cluster.nodes (pos 2)) { node = voter_2; votes = (2, pos 1) ∷ [] })
        stood_cluster.nodes;
  calls = set_call (pos 1) 2 (pos 2) (returned granted_vote) stood_cluster;
}

voted-Reached : Reached voters voted_cluster
unfolding int_beq place
voted-Reached =
    turned stood-Reached
      (voting (pos 1) (pos 2) 2 sample_env request voter_2 granted_vote refl votes_for_1 refl refl)
      (idle voted_cluster refl)

abbrev leader_1 : Raft
leader_1 = (become_leader sample_env candidate_1).0

abbrev full_count : Election
full_count = record { term = 2; votes_received = 2; quorum = 2 }

counts :
    handle_vote_reply sample_env (some granted_vote) first_count candidate_1
    ≡ some (leader_1, full_count, (become_leader sample_env candidate_1).1)
unfolding handle_vote_reply count_vote
counts = refl

abbrev led_cluster : Cluster
led_cluster = record voted_cluster {
  nodes =
      put (pos 1)
        (record (voted_cluster.nodes (pos 1)) {
          node = leader_1;
          led = led_after leader_1 (voted_cluster.nodes (pos 1)).led;
        })
        voted_cluster.nodes;
  elections = put_at (pos 1) 2 (some full_count) voted_cluster.elections;
  calls = set_call (pos 1) 2 (pos 2) (used true) voted_cluster;
}

leads_state : leader_1.state ≡ leader
leads_state = (become_leader-ballot sample_env candidate_1 refl).0

leads_members : leader_1.voter_members ≡ voters
unfolding become_leader take_office begin_term append_founding reset_progress get_last_log_info
    founding_entries sorted_bootstrap_ids int_beq
leads_members = refl

led-Reached : Reached voters led_cluster
unfolding int_beq
led-Reached =
    turned voted-Reached
      (counting (pos 1) (pos 2) 2 sample_env granted_vote first_count full_count leader_1
        (become_leader sample_env candidate_1).1 refl refl counts leads_members refl)
      (idle led_cluster refl)

-- The leader prepares a request for node 2, and the request is encoded.
abbrev sending_1 : Raft
sending_1 = record leader_1 { append_in_flight = insert (pos 2) true leader_1.append_in_flight }

abbrev append_1 : AppendEntriesArgs
append_1 = record {
  term = 2;
  leader_id = pos 1;
  prev_log_index = 3;
  prev_log_term = 2;
  entries = record { type = entry_normal; term = 2; command = none } ∷ [];
  leader_commit = 0;
}

prepares : prepare_append (pos 2) leader_1 ≡ some (sending_1, some append_1)
unfolding prepare_append become_leader take_office begin_term append_founding reset_progress
    get_last_log_info founding_entries sorted_bootstrap_ids int_beq lookup term_at insert
prepares = refl

abbrev sent_cluster : Cluster
sent_cluster = record led_cluster {
  nodes = put (pos 1) (record (led_cluster.nodes (pos 1)) { node = sending_1 }) led_cluster.nodes;
  sent = (pos 2, append_1) ∷ [];
  waiting = (pos 1, pos 2, append_1) ∷ [];
}

sent-Intact : Intact sent_cluster
unfolding encode_append int_beq become_leader take_office begin_term append_founding reset_progress
    get_last_log_info founding_entries sorted_bootstrap_ids
sent-Intact = record { unwritten = unwritten }
  where
    unwritten :
        (i to : NodeId) (args : AppendEntriesArgs)
        → Sent (i, to, args) sent_cluster.waiting
        → encode_append (sent_cluster.nodes i).node.log args ≡ args
    unwritten _ _ _ first = refl
    unwritten i to args (further s) = absurd (unsent s refl)

abbrev encoded_cluster : Cluster
encoded_cluster = record sent_cluster {
  waiting = [];
  wire = (pos 2, encode_append sending_1.log append_1) ∷ [];
}

encoded-Later : Later voters led_cluster encoded_cluster
unfolding int_beq become_leader take_office begin_term append_founding reset_progress
    get_last_log_info founding_entries sorted_bootstrap_ids
encoded-Later =
    more_turns
      (more_turns no_later
        (sending (pos 1) (pos 2) sending_1 append_1 (λ e. cc) (omega arith) prepares leads_members
          refl)
        sent-Intact)
      (encoding (pos 1) (pos 2) append_1 [] [] refl refl) (idle encoded_cluster refl)

Reached-OneLeader_example : pos 1 ≡ pos 1
unfolding int_beq
Reached-OneLeader_example =
    Reached-OneLeader voters led_cluster encoded_cluster (pos 1) (pos 1) led-Reached encoded-Later
      leads_state leads_state refl

-- A request of term 1 that waited while its sender, deposed, stored an entry of term 2 in place of the
-- first that it carries: it goes out with the new entry before its own second one.
overwritten_request :
    (encode_append (sentinel ∷ entry 2 (98 ∷ []) ∷ []) (record append_1 {
      term = 1;
      prev_log_index = 0;
      entries = entry 1 (97 ∷ []) ∷ entry 1 (99 ∷ []) ∷ [];
    })).entries
    ≡ entry 2 (98 ∷ []) ∷ entry 1 (99 ∷ []) ∷ []
unfolding encode_append
overwritten_request = refl

-- The leader has written entries of its term, and node 2 has none of them yet.
Reached-LogMatching_example :
    LogMatching (led_cluster.nodes (pos 1)).node.log (led_cluster.nodes (pos 2)).node.log
Reached-LogMatching_example = Reached-LogMatching voters led_cluster (pos 1) (pos 2) led-Reached
