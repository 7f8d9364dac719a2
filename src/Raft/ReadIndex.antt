-- ===== src/Raft/ReadIndex.antt =====
-- raft-consensus/internal/raft/readindex.go: linearizable reads.
pub mod Quorum
use raft_thesis.Base.{
  int_eq, Bool, List, Map, Option, [], false, if◌then◌else◌, leb, length, lookup, ltb_ℤ, none, not,
  pos, some, sub_ℕ, suc, true, ℕ, ◌&&◌, ◌+◌, ◌==◌, ◌=?◌, ◌>>=◌, ◌||◌, ◌∷◌,
}
use raft_thesis.Raft.Node.{Raft, is_voter, quorum_votes, term_at}
use raft_thesis.Raft.Types.{
  Duration, Env, Error, LogIndex, NodeId, Peer, Term, Time, context_done, is_leader, not_leader,
  read_index_no_quorum,
}

-- The voters other than this node that acknowledged within the window.
unfoldable pub live_voters : Time → Duration → Raft → List NodeId → ℕ
live_voters now window rf [] = 0
live_voters now window rf (id ∷ ids) =
    let rest = live_voters now window rf ids in
    if id =? rf.id then rest else elim (lookup id rf.last_heartbeat_ack) [
      | none ↦ rest
      | some ack ↦ if ltb_ℤ (sub_ℕ now ack) window then suc rest else rest
    ]

unfoldable pub live_count : Time → Duration → Raft → ℕ
unfolding live_voters
live_count now window rf =
    (if is_voter rf rf.id then 1 else 0) + live_voters now window rf rf.voter_members

unfoldable pub has_leader_lease_locked : Time → Raft → Bool
unfolding live_count
has_leader_lease_locked now rf =
    leb (quorum_votes rf) (live_count now rf.cfg.min_election_timeout rf)

-- What a section of ReadIndex ends with.
pub data ReadStep : Type 0 where
  served : LogIndex → ReadStep
  refused : Error → ReadStep
  confirm : Term → LogIndex → ReadStep
  retry : ReadStep

-- The fast path: `retry` goes on to the quorum round.
unfoldable pub read_fast : Env → Raft → Option ReadStep
read_fast env rf = if not (is_leader rf.state) then some (refused not_leader) else (do
  term ← term_at rf.log rf.commit_index
  some (
      if term == rf.current_term && has_leader_lease_locked env.now rf
      then served rf.commit_index
      else retry))

-- One round of the loop that waits for an entry of the leader's own term to be committed.
unfoldable pub read_await_term : Raft → Option ReadStep
read_await_term rf = if not (is_leader rf.state) then some (refused not_leader) else (do
  term ← term_at rf.log rf.commit_index
  some (if term == rf.current_term then confirm rf.current_term rf.commit_index else retry))

-- The voters that are asked for an acknowledgement.
unfoldable pub heartbeat_targets : Raft → Map NodeId Peer → List NodeId
heartbeat_targets rf [] = []
heartbeat_targets rf ((id, peer) ∷ rest) =
    let others = heartbeat_targets rf rest in
    if id =? rf.id then others else elim peer.client [
      | none ↦ others
      | some c ↦ if is_voter rf id then id ∷ others else others
    ]

-- The variables of the quorum round.
pub record Round : Type 0 where
  pub quorum : ℕ
  pub leader_term : Term
  pub target : LogIndex
  pub acks : ℕ
  pub denials : ℕ
  pub max_possible : ℕ

unfoldable pub begin_round : Term → LogIndex → Raft → Round
unfolding heartbeat_targets
begin_round term target rf =
    let own : ℕ = if is_voter rf rf.id then 1 else 0 in
    record {
      quorum = quorum_votes rf;
      leader_term = term;
      target = target;
      acks = own;
      denials = 0;
      max_possible = length (heartbeat_targets rf rf.peers) + own;
    }

-- What arrives: an answer of a peer, with the node as it is then, or the end of the context.
pub data ReadEvent : Type 0 where
  answered : Bool → Raft → ReadEvent
  cancelled : ReadEvent

unfoldable pub confirm_leader : Round → Raft → Option Error × LogIndex
confirm_leader r rf =
    if not (is_leader rf.state) || not (rf.current_term == r.leader_term)
    then (some not_leader, 0)
    else (none, r.target)

-- The loop over the answers; `none` while it waits for more.
unfoldable pub collect : Round → List ReadEvent → Option (Option Error × LogIndex)
unfolding confirm_leader
collect r [] = none
collect r (cancelled ∷ events) = some (some context_done, 0)
collect r (answered true rf ∷ events) =
    let rest = collect (record r { acks = r.acks + 1 }) events in
    if leb r.quorum (r.acks + 1) then some (confirm_leader r rf) else rest
collect r (answered false rf ∷ events) =
    let rest = collect (record r { denials = r.denials + 1 }) events in
    if ltb_ℤ (sub_ℕ r.max_possible (r.denials + 1)) (pos r.quorum)
    then some (some read_index_no_quorum, 0)
    else rest

unfoldable pub read_round : Round → List ReadEvent → Option (Option Error × LogIndex)
unfolding collect
read_round r events = if leb r.quorum r.acks then some (none, r.target) else collect r events
