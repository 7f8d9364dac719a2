-- ===== src/Raft/Transitions.antt =====
-- raft-consensus/internal/raft/state.go, and broadcastAppendEntries of replication.go.
pub mod Office
use raft_thesis.Base.{
  int_eq, List, Map, Option, String, [], get_or, if◌then◌else◌, insert, keys, leb_ℤ, length, lookup,
  none, not, some, ◌&&◌, ◌++◌, ◌+◌, ◌==◌, ◌=?◌, ◌∷◌,
}
use raft_thesis.Raft.Node.{Raft, get_last_log_info, reset_election_timer}
use raft_thesis.Raft.Types.{
  Action, Env, LogEntry, LogIndex, NodeId, Peer, Term, Time, candidate, entry_add_voter,
  entry_normal, follower, is_leader, leader, no_node, send_append_entries, u64,
}

-- `slices.Sort` of the ids.
insert_sorted : NodeId → List NodeId → List NodeId
insert_sorted a [] = a ∷ []
insert_sorted a (b ∷ bs) = if leb_ℤ a b then a ∷ b ∷ bs else b ∷ insert_sorted a bs

sort_ids : List NodeId → List NodeId
unfolding insert_sorted
sort_ids [] = []
sort_ids (a ∷ rest) = insert_sorted a (sort_ids rest)

unfoldable pub sorted_bootstrap_ids : Map NodeId String → List NodeId
unfolding sort_ids keys
sorted_bootstrap_ids m = sort_ids (keys m)

unfoldable pub become_follower : Env → Term → Raft → Option Raft
become_follower env term rf =
    reset_election_timer env
      (record rf { state = follower; current_term = term; voted_for = no_node })

unfoldable pub become_candidate : Env → Raft → Option Raft
become_candidate env rf =
    reset_election_timer env
      (record rf { state = candidate; current_term = u64 (rf.current_term + 1); voted_for = rf.id })

-- One goroutine for each peer that has a client.
unfoldable pub broadcast_to : NodeId → Map NodeId Peer → List Action
broadcast_to self [] = []
broadcast_to self ((id, peer) ∷ rest) =
    let others = broadcast_to self rest in
    if id =? self
    then others
    else elim peer.client [ none ↦ others | some c ↦ send_append_entries id ∷ others ]

unfoldable pub broadcast_append_entries : Raft → List Action
unfolding broadcast_to
broadcast_append_entries rf = broadcast_to rf.id rf.peers

-- The founding cluster as log entries; an id whose encoding fails is left out.
unfoldable pub founding_entries : Env → Term → Map NodeId String → List NodeId → List LogEntry
founding_entries env term cluster [] = []
founding_entries env term cluster (id ∷ ids) =
    let rest = founding_entries env term cluster ids in
    elim (env.encode_config_add id (get_or (lookup id cluster) "")) [
      | none ↦ rest
      | some cmd ↦ record { type = entry_add_voter; term = term; command = some cmd } ∷ rest
    ]

unfoldable pub append_founding : Env → Raft → Raft
append_founding env rf =
    if (get_last_log_info rf).0 == 0 && not (length rf.bootstrap_cluster == 0)
    then record rf {
      log =
          rf.log
          ++ founding_entries env rf.current_term rf.bootstrap_cluster
              (sorted_bootstrap_ids rf.bootstrap_cluster);
    }
    else rf

-- The progress records of the other members start at the end of the log.
unfoldable pub reset_one : Time → LogIndex → NodeId → Raft → Raft
reset_one now next id rf = if id =? rf.id then rf else record rf {
  next_index = insert id next rf.next_index;
  match_index = insert id 0 rf.match_index;
  last_heartbeat_ack = insert id now rf.last_heartbeat_ack;
}

unfoldable pub reset_progress : Time → LogIndex → List NodeId → Raft → Raft
reset_progress now next [] rf = rf
reset_progress now next (id ∷ ids) rf = reset_progress now next ids (reset_one now next id rf)

abbrev pub no_op : Term → LogEntry
no_op term = record { type = entry_normal; term = term; command = none }

-- The progress records and the no-op entry.
unfoldable pub begin_term : Env → Raft → Raft
unfolding reset_one reset_progress get_last_log_info
begin_term env led =
    let started =
      reset_progress env.now (u64 ((get_last_log_info led).0 + 1)) (keys led.peers) led in
    record started { log = started.log ++ no_op started.current_term ∷ [] }

unfoldable pub take_office : Env → Raft → Raft
take_office env rf =
    begin_term env (append_founding env (record rf { state = leader; hint_leader_id = rf.id }))

unfoldable pub become_leader : Env → Raft → Raft × List Action
become_leader env rf =
    if is_leader rf.state
    then (rf, [])
    else (let led = take_office env rf in (led, broadcast_append_entries led))
