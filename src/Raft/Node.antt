-- ===== src/Raft/Node.antt =====
-- raft-consensus/internal/raft/raft.go (the struct), util.go, and the timer of election.go.
-- The fields fsm, peerFactory and logger stand outside the record: the first belongs to the applier's
-- parameters, the second to `Env`, and logging changes no state. readTokens is never used.
pub mod Log
pub mod Core
pub mod Quorum
use raft_thesis.Base.{
  int_eq, Bool, List, Map, Option, String, [], contains, if◌then◌else◌, leb_ℤ, length, none, pos,
  pos_part, some, suc, zero, ℕ, ◌+ℤ◌, ◌+◌, ◌-ℤ◌, ◌/◌, ◌==◌, ◌>>=◌, ◌∷◌,
}
use raft_thesis.Raft.Config.{Config}
use raft_thesis.Raft.Types.{
  Duration, Env, IndexFuture, LogEntry, LogIndex, NodeId, Peer, State, Term, Time,
}

pub record Raft : Type 0 where
  pub id : NodeId
  pub bootstrap_cluster : Map NodeId String
  pub active_members : List NodeId
  pub voter_members : List NodeId
  pub member_addrs : Map NodeId String
  pub peers : Map NodeId Peer
  pub cfg : Config
  pub current_term : Term
  pub voted_for : NodeId
  pub log : List LogEntry
  pub commit_index : LogIndex
  pub last_applied : LogIndex
  pub state : State
  pub next_index : Map NodeId LogIndex
  pub match_index : Map NodeId LogIndex
  pub append_in_flight : Map NodeId Bool
  pub last_heartbeat_ack : Map NodeId Time
  pub hint_leader_id : NodeId
  pub last_activity : Time
  pub election_timeout : Duration
  pub apply_futures : Map LogIndex IndexFuture

-- The term of the entry at an index; out of range the Go program panics.
unfoldable pub term_at : List LogEntry → LogIndex → Option Term
term_at [] i = none
term_at (e ∷ es) zero = some e.term
term_at (e ∷ es) (suc i) = term_at es i

-- The last index and its term, and (0, 0) for an empty log.
unfoldable pub last_log_info : List LogEntry → LogIndex × Term
last_log_info [] = (0, 0)
last_log_info (e ∷ []) = (0, e.term)
last_log_info (e ∷ f ∷ es) = let (i, t) = last_log_info (f ∷ es) in (i + 1, t)

unfoldable pub get_last_log_info : Raft → LogIndex × Term
unfolding last_log_info
get_last_log_info rf = last_log_info rf.log

unfoldable pub quorum_votes : Raft → ℕ
quorum_votes rf = let n = length rf.voter_members in if n == 0 then 1 else n / 2 + 1

-- rand.Int64N panics unless its argument is positive.
unfoldable pub get_random_duration : Env → Duration → Duration → Option Duration
get_random_duration env shortest longest =
    let span = longest -ℤ shortest in
    if leb_ℤ span (pos 0) then none else some (pos (env.int64_n (pos_part span)) +ℤ shortest)

unfoldable pub reset_election_timer : Env → Raft → Option Raft
reset_election_timer env rf = do
  timeout ← get_random_duration env rf.cfg.min_election_timeout rf.cfg.max_election_timeout
  some (record rf { last_activity = env.now; election_timeout = timeout })

unfoldable pub is_member : Raft → NodeId → Bool
is_member rf id = contains id rf.active_members

unfoldable pub is_voter : Raft → NodeId → Bool
is_voter rf id = contains id rf.voter_members
