-- ===== src/Raft/Membership.antt =====
-- raft-consensus/internal/raft/membership.go: the configuration that bootstrap and log spell out.
pub mod Core
pub mod Progress
pub mod Payloads
pub mod InForce
use raft_thesis.Base.{
  string_eq, int_eq, Bool, List, Map, Option, String, [], contains, delete, drop, false, get_or,
  if◌then◌else◌, insert, keys, lookup, none, not, some, take, true, ◌+◌, ◌=?◌, ◌||◌, ◌∷◌,
}
use raft_thesis.Raft.Node.{Raft, get_last_log_info}
use raft_thesis.Raft.Types.{
  Client, Command, EntryType, Env, LogEntry, LogIndex, NodeId, Peer, PeerRole, Time,
  entry_add_learner, entry_add_voter, entry_normal, entry_remove_node, is_voter_role, learner, u64,
  voter,
}

unfoldable pub entry_type_changes_membership : EntryType → Bool
entry_type_changes_membership entry_normal = false
entry_type_changes_membership entry_add_learner = true
entry_type_changes_membership entry_add_voter = true
entry_type_changes_membership entry_remove_node = true

-- The local maps `members` and `roles` of rebuildVolatilePeers.
pub record Roster : Type 0 where
  pub members : Map NodeId String
  pub roles : Map NodeId PeerRole

unfoldable pub bootstrap_roster : Map NodeId String → Roster
bootstrap_roster [] = record { members = []; roles = [] }
bootstrap_roster ((id, addr) ∷ rest) =
    let r = bootstrap_roster rest in
    record { members = insert id addr r.members; roles = insert id voter r.roles }

unfoldable pub add_to_roster : PeerRole → Option (NodeId × String) → Roster → Roster
add_to_roster role none r = r
add_to_roster role (some (id, addr)) r = record {
  members = insert id addr r.members;
  roles = insert id role r.roles;
}

unfoldable pub remove_from_roster : Option NodeId → Roster → Roster
remove_from_roster none r = r
remove_from_roster (some id) r = record { members = delete id r.members; roles = delete id r.roles }

-- An entry whose payload does not decode is skipped.
unfoldable pub replay_entry : Env → EntryType → Command → Roster → Roster
unfolding add_to_roster remove_from_roster
replay_entry env entry_normal cmd r = r
replay_entry env entry_add_learner cmd r = add_to_roster learner (env.decode_config_add cmd) r
replay_entry env entry_add_voter cmd r = add_to_roster voter (env.decode_config_add cmd) r
replay_entry env entry_remove_node cmd r = remove_from_roster (env.decode_config_remove cmd) r

unfoldable pub replay : Env → List LogEntry → Roster → Roster
unfolding replay_entry
replay env [] r = r
replay env (e ∷ es) r = replay env es (replay_entry env e.type e.command r)

-- Bootstrap and the entries 1 to last_index, as far as the log goes.
unfoldable pub roster_at : Env → Raft → LogIndex → Roster
unfolding replay bootstrap_roster
roster_at env rf last_index =
    replay env (take last_index (drop 1 rf.log)) (bootstrap_roster rf.bootstrap_cluster)

-- roles[id], whose missing value is the zero value Voter.
abbrev pub role_of : Roster → NodeId → PeerRole
role_of r id = get_or (lookup id r.roles) voter

unfoldable pub voters_among : Roster → List NodeId → List NodeId
voters_among r [] = []
voters_among r (id ∷ ids) =
    let rest = voters_among r ids in if is_voter_role (role_of r id) then id ∷ rest else rest

from_factory : Env → NodeId → String → Option Client
from_factory env id addr = elim env.peer_factory [ none ↦ none | some make ↦ make id addr ]

-- The client of a member: the old one where the address has not changed, else a new one.
unfoldable pub client_for : Env → Raft → NodeId → String → Option Client
unfolding from_factory
client_for env rf id addr =
    if addr =? ""
    then elim (lookup id rf.peers) [ none ↦ none | some p ↦ p.client ]
    else elim (lookup id rf.member_addrs) [
      | none ↦ from_factory env id addr
      | some prev ↦
          if prev =? addr
          then elim (lookup id rf.peers) [
            | none ↦ from_factory env id addr
            | some p ↦ elim p.client [ none ↦ from_factory env id addr | some c ↦ some c ]
          ]
          else from_factory env id addr
    ]

unfoldable pub new_peers : Env → Raft → Roster → Map NodeId String → Map NodeId Peer
unfolding client_for
new_peers env rf r [] = []
new_peers env rf r ((id, addr) ∷ rest) =
    let others = new_peers env rf r rest in
    if id =? rf.id
    then others
    else insert id (record { client = client_for env rf id addr; role = role_of r id }) others

-- The first loop over nextIndex: forget what is no member, and this node itself.
unfoldable pub drop_one : NodeId → Raft → Raft
drop_one id rf =
    if not (contains id rf.active_members) || id =? rf.id
    then record rf {
      next_index = delete id rf.next_index;
      match_index = delete id rf.match_index;
      last_heartbeat_ack = delete id rf.last_heartbeat_ack;
    }
    else rf

unfoldable pub drop_progress : List NodeId → Raft → Raft
drop_progress [] rf = rf
drop_progress (id ∷ ids) rf = drop_progress ids (drop_one id rf)

-- The second loop, over activeMembers: a member without a progress record gets one.
unfoldable pub add_one : Time → LogIndex → NodeId → Raft → Raft
add_one now next id rf = if id =? rf.id then rf else elim (lookup id rf.next_index) [
  | some _ ↦ rf
  | none ↦ record rf {
    next_index = insert id next rf.next_index;
    match_index = insert id 0 rf.match_index;
    last_heartbeat_ack = insert id now rf.last_heartbeat_ack;
  }
]

unfoldable pub add_progress : Time → LogIndex → List NodeId → Raft → Raft
add_progress now next [] rf = rf
add_progress now next (id ∷ ids) rf = add_progress now next ids (add_one now next id rf)

-- The members, voters, addresses and peers of a roster.
unfoldable pub install_roster : Env → Roster → Raft → Raft
unfolding voters_among new_peers keys
install_roster env r rf = record rf {
  active_members = keys r.members;
  voter_members = voters_among r (keys r.members);
  member_addrs = r.members;
  peers = new_peers env rf r r.members;
}

-- The two loops over the progress records.
unfoldable pub rebuild_progress : Env → Raft → Raft
unfolding drop_one drop_progress add_one add_progress keys get_last_log_info
rebuild_progress env rf =
    let dropped = drop_progress (keys rf.next_index) rf in
    add_progress env.now (u64 ((get_last_log_info rf).0 + 1)) dropped.active_members dropped

unfoldable pub rebuild_volatile_peers : Env → LogIndex → Raft → Raft
unfolding roster_at install_roster rebuild_progress
rebuild_volatile_peers env last_index rf =
    rebuild_progress env (install_roster env (roster_at env rf last_index) rf)

unfoldable pub any_entry : (EntryType → Bool) → List LogEntry → Bool
any_entry p [] = false
any_entry p (e ∷ es) = p e.type || any_entry p es

abbrev is_voter_change : EntryType → Bool
is_voter_change entry_add_voter = true
is_voter_change entry_remove_node = true
is_voter_change _ = false

-- Over the entries behind the commit index.
unfoldable pub has_pending_add_voter_or_remove : Raft → Bool
unfolding any_entry
has_pending_add_voter_or_remove rf = any_entry is_voter_change (drop (rf.commit_index + 1) rf.log)

unfoldable pub has_pending_membership_commit : Raft → Bool
unfolding any_entry entry_type_changes_membership
has_pending_membership_commit rf =
    any_entry entry_type_changes_membership (drop (rf.commit_index + 1) rf.log)
