-- ===== src/Examples.antt =====
-- Concrete runs: the nodes and messages of the repository's tests, and the theorems at such inputs.
mod Service
mod Voting
mod Cluster
mod Command
mod Replica
mod Http
mod Startup
mod Futures
mod Backup
mod Stores
mod Leader
mod Members
mod Reads
use raft_thesis.Base.{List, Option, String, [], arith, none, pos, pos_part, some, ℕ, ◌/◌, ◌∷◌}
use raft_thesis.Raft.Config.{default_production_config}
use raft_thesis.Raft.Node.{Raft}
use raft_thesis.Raft.Node.Core.{IsSound}
use raft_thesis.Raft.Service.Append.{Sendable}
use raft_thesis.Raft.Types.{
  AppendEntriesArgs, Env, LogEntry, LogIndex, NodeId, Peer, Term, entry_normal, follower, leader,
  no_node, voter,
}

abbrev pub sample_env : Env
sample_env = record {
  now = 1_000_000_000;
  int64_n = λ n. n / 2;
  encode_config_add = λ id addr. some (pos_part id ∷ []);
  encode_config_remove = λ id. some (pos_part id ∷ []);
  decode_config_add = λ cmd. elim cmd [ none ↦ none | some bytes ↦ decode_id bytes ];
  decode_config_remove = λ cmd. elim cmd [ none ↦ none | some bytes ↦ decode_one bytes ];
  peer_factory = some (λ id addr. some (pos_part id));
}
  where
    decode_one : List ℕ → Option NodeId
    decode_one [] = none
    decode_one (n ∷ rest) = some (pos n)

    decode_id : List ℕ → Option (NodeId × String)
    decode_id [] = none
    decode_id (n ∷ rest) = some (pos n, "added")

abbrev pub entry : Term → List ℕ → LogEntry
entry term bytes = record { type = entry_normal; term = term; command = some bytes }

abbrev pub sentinel : LogEntry
sentinel = record { type = entry_normal; term = 0; command = none }

abbrev pub peer : ℕ → Peer
peer c = record { client = some c; role = voter }

-- newTestRaft of invariants_test.go: node 1 of the voters 1, 2 and 3, with a production configuration.
abbrev pub sample_node : Raft
sample_node = record {
  id = pos 1;
  bootstrap_cluster = (pos 1, "n1") ∷ (pos 2, "n2") ∷ (pos 3, "n3") ∷ [];
  active_members = pos 1 ∷ pos 2 ∷ pos 3 ∷ [];
  voter_members = pos 1 ∷ pos 2 ∷ pos 3 ∷ [];
  member_addrs = (pos 1, "n1") ∷ (pos 2, "n2") ∷ (pos 3, "n3") ∷ [];
  peers = (pos 2, peer 2) ∷ (pos 3, peer 3) ∷ [];
  cfg = default_production_config;
  current_term = 1;
  voted_for = no_node;
  log = sentinel ∷ entry 1 (97 ∷ []) ∷ entry 1 (98 ∷ []) ∷ [];
  commit_index = 1;
  last_applied = 0;
  state = follower;
  next_index = (pos 2, 1) ∷ (pos 3, 1) ∷ [];
  match_index = (pos 2, 0) ∷ (pos 3, 0) ∷ [];
  append_in_flight = [];
  last_heartbeat_ack = (pos 2, 0) ∷ (pos 3, 0) ∷ [];
  hint_leader_id = no_node;
  last_activity = 0;
  election_timeout = pos 200_000_000;
  apply_futures = [];
}

pub sample-IsSound : IsSound sample_node
sample-IsSound = record { committed = omega arith; applied = omega arith; timeouts = omega arith }

-- TestUpdateCommitIndexCommitsOnlyCurrentTermByCounting.
abbrev pub counting_leader : LogIndex → Raft
counting_leader matched = record sample_node {
  state = leader;
  current_term = 3;
  log = sentinel ∷ entry 1 [] ∷ entry 2 [] ∷ entry 3 [] ∷ [];
  commit_index = 1;
  last_applied = 1;
  match_index = (pos 2, matched) ∷ (pos 3, 2) ∷ [];
}

-- A leader's message that replaces the follower's second entry and adds a third.
abbrev pub replacing : AppendEntriesArgs
replacing = record {
  term = 2;
  leader_id = pos 2;
  prev_log_index = 1;
  prev_log_term = 1;
  entries = entry 2 (99 ∷ []) ∷ entry 2 (100 ∷ []) ∷ [];
  leader_commit = 2;
}

abbrev pub leader_log : List LogEntry
leader_log = sentinel ∷ entry 1 (97 ∷ []) ∷ entry 2 (99 ∷ []) ∷ entry 2 (100 ∷ []) ∷ []

-- The same with a commit that the message does not reach.
abbrev pub far_commit : AppendEntriesArgs
far_commit = record replacing { leader_commit = 9 }

pub far_commit-Sendable : Sendable sample_node far_commit
far_commit-Sendable = record { small = omega arith; reaches = λ ahead. omega arith }
