-- ===== src/Raft/Api.antt =====
-- raft-consensus/internal/raft/raft.go, and the catch-up promoter of membership.go: what clients and
-- the promoter do to a node.
pub mod Startup
pub mod Current
pub mod Members
use raft_thesis.Base.{
  int_eq, Bool, List, Map, Option, String, [], false, get_or, if◌then◌else◌, leb_ℤ, lookup, none,
  not, pos, some, sub_ℕ, true, ◌++◌, ◌=?◌, ◌∷◌,
}
use raft_thesis.Raft.Config.{Config, normalize}
use raft_thesis.Raft.Membership.{
  has_pending_add_voter_or_remove, has_pending_membership_commit, rebuild_volatile_peers,
}
use raft_thesis.Raft.Node.{Raft, get_last_log_info, is_member, reset_election_timer}
use raft_thesis.Raft.Transitions.{become_follower, broadcast_append_entries}
use raft_thesis.Raft.Types.{
  Action, Command, EntryType, Env, Error, LogIndex, NodeId, Peer, Term, config_change_in_progress,
  encode_failed, entry_add_learner, entry_add_voter, entry_normal, entry_remove_node, follower,
  is_leader, is_learner_role, no_node, node_not_in_cluster, not_leader, peer_already_in_cluster,
  start_catch_up_promoter,
}

-- The record that NewRaft fills in, with the sentinel entry and the normalized configuration; `cfg` is
-- what the options leave in the record.
abbrev pub blank_raft : NodeId → Map NodeId String → Config → Raft
blank_raft id initial_cluster cfg = record {
  id = id;
  bootstrap_cluster = initial_cluster;
  active_members = [];
  voter_members = [];
  member_addrs = [];
  peers = [];
  cfg = normalize cfg;
  current_term = 0;
  voted_for = no_node;
  log = record { type = entry_normal; term = 0; command = none } ∷ [];
  commit_index = 0;
  last_applied = 0;
  state = follower;
  next_index = [];
  match_index = [];
  append_in_flight = [];
  last_heartbeat_ack = [];
  hint_leader_id = no_node;
  last_activity = 0;
  election_timeout = pos 0;
  apply_futures = [];
}

-- NewRaft, up to the start of the two goroutines.
unfoldable pub new_raft : Env → NodeId → Map NodeId String → Config → Option Raft
new_raft env id initial_cluster cfg =
    reset_election_timer env (rebuild_volatile_peers env 0 (blank_raft id initial_cluster cfg))

abbrev pub append_entry : EntryType → Command → Raft → Raft
append_entry type cmd rf = record rf {
  log = rf.log ++ record { type = type; term = rf.current_term; command = cmd } ∷ [];
}

-- The answer of Submit: whether this node leads, and the index and term of the entry.
unfoldable pub submit : Command → Raft → Raft × (Bool × LogIndex × Term) × List Action
submit command rf =
    if not (is_leader rf.state)
    then (rf, (false, 0, 0), [])
    else (let appended = append_entry entry_normal command rf in
        (
          appended,
          (true, (get_last_log_info appended).0, rf.current_term),
          broadcast_append_entries appended,
        ))

-- Append a configuration entry and take it into force at once.
unfoldable pub reconfigure : Env → EntryType → Command → Raft → Raft
reconfigure env type cmd rf =
    let appended = append_entry type cmd rf in
    rebuild_volatile_peers env (get_last_log_info appended).0 appended

unfoldable pub add_node : Env → NodeId → String → Raft → Raft × Option Error × List Action
add_node env id addr rf = elim (env.encode_config_add id addr) [
  | none ↦ (rf, some encode_failed, [])
  | some cmd ↦
      if not (is_leader rf.state)
      then (rf, some not_leader, [])
      else if has_pending_add_voter_or_remove rf
      then (rf, some config_change_in_progress, [])
      else if is_member rf id
      then (rf, some peer_already_in_cluster, [])
      else (let changed = reconfigure env entry_add_learner (some cmd) rf in
          (changed, none, broadcast_append_entries changed ++ start_catch_up_promoter id ∷ []))
]

-- The first section of RemoveNode: an error, or the index to wait for.
unfoldable pub remove_node : Env → NodeId → Raft → Raft × (Option Error × LogIndex) × List Action
remove_node env id rf = elim (env.encode_config_remove id) [
  | none ↦ (rf, (some encode_failed, 0), [])
  | some cmd ↦
      if not (is_leader rf.state)
      then (rf, (some not_leader, 0), [])
      else if not (is_member rf id)
      then (rf, (some node_not_in_cluster, 0), [])
      else if has_pending_membership_commit rf
      then (rf, (some config_change_in_progress, 0), [])
      else (let changed = reconfigure env entry_remove_node (some cmd) rf in
          (changed, (none, (get_last_log_info changed).0), broadcast_append_entries changed))
]

-- Its last section, once the entry is applied.
unfoldable pub removed_self : Env → NodeId → Raft → Option Raft
removed_self env id rf = if id =? rf.id then become_follower env rf.current_term rf else some rf

unfoldable pub leader_hint : Raft → NodeId
leader_hint rf =
    if is_leader rf.state
    then rf.id
    else if not (rf.hint_leader_id =? no_node)
    then rf.hint_leader_id
    else no_node

-- One tick of runCatchUpPromoter; true if the promoter ends. The difference of the indexes goes
-- through int, so a match beyond the log is a negative difference.
abbrev learner_peer : Option Peer → Bool
learner_peer none = false
learner_peer (some p) = is_learner_role p.role

unfoldable pub catch_up_tick : Env → NodeId → Raft → Raft × Bool × List Action
catch_up_tick env target rf =
    if not (is_leader rf.state)
    then (rf, true, [])
    else if not (learner_peer (lookup target rf.peers))
    then (rf, true, [])
    else if has_pending_add_voter_or_remove rf
    then (rf, false, [])
    else if leb_ℤ rf.cfg.catch_up_promote_threshold
        (sub_ℕ (get_last_log_info rf).0 (get_or (lookup target rf.match_index) 0))
    then (rf, false, [])
    else elim (env.encode_config_add target (get_or (lookup target rf.member_addrs) "")) [
      | none ↦ (rf, true, [])
      | some cmd ↦
          let changed = reconfigure env entry_add_voter (some cmd) rf in
          (changed, true, broadcast_append_entries changed)
    ]
