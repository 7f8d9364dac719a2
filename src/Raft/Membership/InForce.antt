-- ===== src/Raft/Membership/InForce.antt =====
-- The members, voters and addresses after a rebuild are those of the roster.
use raft_thesis.Base.{
  int_eq, Bool, List, Map, Option, String, [], arith, contains, false, get_or, if◌then◌else◌,
  int_beq_iff, keys, lookup, lookup-delete, lookup-insert, none, refl, some, true, ◌&&◌, ◌++◌, ◌+◌,
  ◌=?◌, ◌∙◌, ◌∷◌, ◌≡◌,
}
use raft_thesis.Raft.Membership.{
  Roster, add_one, add_progress, add_to_roster, drop_one, drop_progress, install_roster,
  rebuild_progress, rebuild_volatile_peers, remove_from_roster, replay, replay_entry, role_of,
  roster_at, voters_among,
}
use raft_thesis.Raft.Node.{Raft, get_last_log_info, is_voter}
use raft_thesis.Raft.Types.{
  Env, LogEntry, LogIndex, NodeId, Time, is_voter_role, learner, u64, voter,
}

record SameRoster (a b : Raft) : Type 0 where
  active_members : a.active_members ≡ b.active_members
  voter_members : a.voter_members ≡ b.voter_members
  member_addrs : a.member_addrs ≡ b.member_addrs

SameRoster-trans : (a b c : Raft) → SameRoster a b → SameRoster b c → SameRoster a c
SameRoster-trans a b c p q = record {
  active_members = p.active_members ∙ q.active_members;
  voter_members = p.voter_members ∙ q.voter_members;
  member_addrs = p.member_addrs ∙ q.member_addrs;
}

drop_one-members : (id : NodeId) (rf : Raft) → SameRoster (drop_one id rf) rf
unfolding drop_one
drop_one-members id rf = ground arith

add_one-members :
    (now : Time) (next : LogIndex) (id : NodeId) (rf : Raft)
    → SameRoster (add_one now next id rf) rf
unfolding add_one
add_one-members now next id rf = ground arith

drop_progress-members : (ids : List NodeId) (rf : Raft) → SameRoster (drop_progress ids rf) rf
unfolding drop_progress
drop_progress-members [] rf = record {
  active_members = refl;
  voter_members = refl;
  member_addrs = refl;
}
drop_progress-members (id ∷ ids) rf =
    SameRoster-trans _ _ _ (drop_progress-members ids (drop_one id rf)) (drop_one-members id rf)

add_progress-members :
    (now : Time) (next : LogIndex) (ids : List NodeId) (rf : Raft)
    → SameRoster (add_progress now next ids rf) rf
unfolding add_progress
add_progress-members now next [] rf = record {
  active_members = refl;
  voter_members = refl;
  member_addrs = refl;
}
add_progress-members now next (id ∷ ids) rf =
    SameRoster-trans _ _ _ (add_progress-members now next ids (add_one now next id rf))
      (add_one-members now next id rf)

rebuild_progress-members : (env : Env) (rf : Raft) → SameRoster (rebuild_progress env rf) rf
unfolding rebuild_progress
rebuild_progress-members env rf =
    let ids = keys rf.next_index in
    let dropped = drop_progress ids rf in
    SameRoster-trans _ _ _
      (add_progress-members env.now (u64 ((get_last_log_info rf).0 + 1)) dropped.active_members
        dropped)
      (drop_progress-members ids rf)

-- The members in force are those of a roster.
pub record InForce (r : Roster) (rf : Raft) : Type 0 where
  pub active_members : rf.active_members ≡ keys r.members
  pub voter_members : rf.voter_members ≡ voters_among r (keys r.members)
  pub member_addrs : rf.member_addrs ≡ r.members

pub rebuild_volatile_peers-InForce :
    (env : Env) (last : LogIndex) (rf : Raft)
    → InForce (roster_at env rf last) (rebuild_volatile_peers env last rf)
unfolding rebuild_volatile_peers rebuild_progress install_roster
rebuild_volatile_peers-InForce env last rf =
    let same = rebuild_progress-members env (install_roster env (roster_at env rf last) rf) in
    record {
      active_members = same.active_members;
      voter_members = same.voter_members;
      member_addrs = same.member_addrs;
    }

pub replay-append :
    (env : Env) (es fs : List LogEntry) (r : Roster)
    → replay env (es ++ fs) r ≡ replay env fs (replay env es r)
unfolding replay
replay-append env [] fs r = refl
replay-append env (e ∷ es) fs r = replay-append env es fs (replay_entry env e.type e.command r)

abbrev pub present {ℓ} : {A : Type ℓ} → Option A → Bool
present none = false
present (some _) = true

pub contains-keys :
    {V : Type 0} (j : NodeId) (m : Map NodeId V) → contains j (keys m) ≡ present (lookup j m)
unfolding contains keys lookup
contains-keys j [] = refl
contains-keys j ((k, v) ∷ m) = let ih = contains-keys j m in ground arith

contains-voters :
    (r : Roster) (j : NodeId) (ids : List NodeId)
    → contains j (voters_among r ids) ≡ (contains j ids && is_voter_role (role_of r j))
unfolding contains voters_among
contains-voters r j [] = refl
contains-voters r j (id ∷ ids) =
    let ih = contains-voters r j ids in ground (arith, int_beq_iff id j)

-- Who votes by a roster: its members whose role is that of a voter.
unfoldable pub votes_in : Roster → NodeId → Bool
votes_in r j = present (lookup j r.members) && is_voter_role (role_of r j)

pub is_voter-InForce :
    (r : Roster) (rf : Raft) (j : NodeId) → InForce r rf → is_voter rf j ≡ votes_in r j
unfolding is_voter votes_in
is_voter-InForce r rf j h =
    rw (h.voter_members, contains-voters r j (keys r.members), contains-keys j r.members)

-- A learner that joins has an address and no vote; everyone else is as before.
pub add_learner-members :
    (r : Roster) (id j : NodeId) (addr : String)
    → let joined = add_to_roster learner (some (id, addr)) r in
      (lookup j joined.members ≡ (if id =? j then some addr else lookup j r.members))
      × (votes_in joined j ≡ (if id =? j then false else votes_in r j))
unfolding add_to_roster votes_in
add_learner-members r id j addr = (
  lookup-insert id j addr r.members,
  rw (lookup-insert id j addr r.members, lookup-insert id j learner r.roles) (joins (id =? j)),
)
  where
    joins :
        (same : Bool)
        → (present (if same then some addr else lookup j r.members)
            && is_voter_role (get_or (if same then some learner else lookup j r.roles) voter))
          ≡ (if same then false else present (lookup j r.members) && is_voter_role (role_of r j))
    joins true = refl
    joins false = refl

-- A member that leaves has neither an address nor a vote; everyone else is as before.
pub remove-members :
    (r : Roster) (id j : NodeId)
    → let rest = remove_from_roster (some id) r in
      (lookup j rest.members ≡ (if id =? j then none else lookup j r.members))
      × (votes_in rest j ≡ (if id =? j then false else votes_in r j))
unfolding remove_from_roster votes_in
remove-members r id j = (
  lookup-delete id j r.members,
  rw (lookup-delete id j r.members, lookup-delete id j r.roles) (leaves (id =? j)),
)
  where
    leaves :
        (same : Bool)
        → (present (if same then none else lookup j r.members)
            && is_voter_role (get_or (if same then none else lookup j r.roles) voter))
          ≡ (if same then false else present (lookup j r.members) && is_voter_role (role_of r j))
    leaves true = refl
    leaves false = refl
