-- ===== src/Raft/Types.antt =====
-- raft-consensus/internal/raft/types.go, errors.go and futures.go: the data that the core exchanges
-- and stores. A Go int is a `ℤ`, a uint64 is a number below 2 ^ 64, a nil slice or pointer is `none`.
use raft_thesis.Base.{ℕ, ◌+◌, ◌-◌, ◌%◌, ℤ, negsuc, String, Bool, Option, List}

-- uint64 arithmetic wraps.
abbrev pub u64 : ℕ → ℕ
u64 n = n % 18446744073709551616

abbrev pub sub_u64 : ℕ → ℕ → ℕ
sub_u64 a b = (a + 18446744073709551616 - b) % 18446744073709551616

abbrev pub Term : Type 0
Term = ℕ

abbrev pub LogIndex : Type 0
LogIndex = ℕ

abbrev pub NodeId : Type 0
NodeId = ℤ

abbrev pub no_node : NodeId
no_node = negsuc 0

-- A reading of the monotonic clock, in nanoseconds.
abbrev pub Time : Type 0
Time = ℕ

-- time.Duration, in nanoseconds.
abbrev pub Duration : Type 0
Duration = ℤ

pub data State : Type 0 where
  follower candidate leader : State

-- rf.state == s
abbrev pub is_follower : State → Bool
is_follower State.follower = Bool.true
is_follower _ = Bool.false

abbrev pub is_candidate : State → Bool
is_candidate State.candidate = Bool.true
is_candidate _ = Bool.false

abbrev pub is_leader : State → Bool
is_leader State.leader = Bool.true
is_leader _ = Bool.false

pub data EntryType : Type 0 where
  entry_normal entry_add_learner entry_add_voter entry_remove_node : EntryType

-- A []byte; `none` is the nil slice.
abbrev pub Command : Type 0
Command = Option (List ℕ)

pub record LogEntry : Type 0 where
  pub type : EntryType
  pub term : Term
  pub command : Command

pub data PeerRole : Type 0 where
  voter learner : PeerRole

abbrev pub is_voter_role : PeerRole → Bool
is_voter_role PeerRole.voter = Bool.true
is_voter_role PeerRole.learner = Bool.false

abbrev pub is_learner_role : PeerRole → Bool
is_learner_role PeerRole.voter = Bool.false
is_learner_role PeerRole.learner = Bool.true

-- A value of the interface RaftService, as a reference that is compared with nil only.
abbrev pub Client : Type 0
Client = ℕ

pub record Peer : Type 0 where
  pub client : Option Client
  pub role : PeerRole

pub record RequestVoteArgs : Type 0 where
  pub term : Term
  pub candidate_id : NodeId
  pub last_log_index : LogIndex
  pub last_log_term : Term

pub record RequestVoteReply : Type 0 where
  pub term : Term
  pub vote_granted : Bool

pub record AppendEntriesArgs : Type 0 where
  pub term : Term
  pub leader_id : NodeId
  pub prev_log_index : LogIndex
  pub prev_log_term : Term
  pub entries : List LogEntry
  pub leader_commit : LogIndex

pub record AppendEntriesReply : Type 0 where
  pub term : Term
  pub success : Bool
  pub conflict_index : LogIndex
  pub conflict_term : Term

pub data Error : Type 0 where
  not_leader read_index_no_quorum config_change_in_progress : Error
  node_not_in_cluster peer_already_in_cluster : Error
  encode_failed context_done rpc_failed : Error
  apply_failed : ℕ → Error

-- A future for one log index; a closed channel `done` is the flag `resolved`.
pub record IndexFuture : Type 0 where
  pub resolved : Bool
  pub err : Option Error
  pub waiters : ℤ

-- What a critical section starts or signals besides its new state.
pub data Action : Type 0 where
  send_request_vote : NodeId → RequestVoteArgs → Action
  send_append_entries : NodeId → Action
  start_catch_up_promoter : NodeId → Action
  wake_applier : Action

-- What a critical section takes from outside the program: the clock and the random source at that
-- moment, the JSON codec of the configuration entries, and the application's peer factory.
pub record Env : Type 0 where
  pub now : Time
  pub int64_n : ℕ → ℕ
  pub encode_config_add : NodeId → String → Option (List ℕ)
  pub encode_config_remove : NodeId → Option (List ℕ)
  pub decode_config_add : Command → Option (NodeId × String)
  pub decode_config_remove : Command → Option NodeId
  pub peer_factory : Option (NodeId → String → Option Client)
