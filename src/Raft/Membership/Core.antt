-- ===== src/Raft/Membership/Core.antt =====
-- Rebuilding the peers touches the members, the peers and the progress records only.
use raft_thesis.Base.{int_eq, List, [], arith, keys, ◌+◌, ◌∷◌}
use raft_thesis.Raft.Membership.{
  Roster, add_one, add_progress, drop_one, drop_progress, install_roster, rebuild_progress,
  rebuild_volatile_peers, roster_at,
}
use raft_thesis.Raft.Node.{Raft, get_last_log_info}
use raft_thesis.Raft.Node.Core.{SameCore, SameCore-refl, SameCore-trans}
use raft_thesis.Raft.Types.{Env, LogIndex, NodeId, Time, u64}

drop_one-core : (id : NodeId) (rf : Raft) → SameCore (drop_one id rf) rf
unfolding drop_one
drop_one-core id rf = ground arith

add_one-core :
    (now : Time) (next : LogIndex) (id : NodeId) (rf : Raft) → SameCore (add_one now next id rf) rf
unfolding add_one
add_one-core now next id rf = ground arith

drop_progress-core : (ids : List NodeId) (rf : Raft) → SameCore (drop_progress ids rf) rf
unfolding drop_progress
drop_progress-core [] rf = SameCore-refl rf
drop_progress-core (id ∷ ids) rf =
    SameCore-trans _ _ _ (drop_progress-core ids (drop_one id rf)) (drop_one-core id rf)

add_progress-core :
    (now : Time) (next : LogIndex) (ids : List NodeId) (rf : Raft)
    → SameCore (add_progress now next ids rf) rf
unfolding add_progress
add_progress-core now next [] rf = SameCore-refl rf
add_progress-core now next (id ∷ ids) rf =
    SameCore-trans _ _ _ (add_progress-core now next ids (add_one now next id rf))
      (add_one-core now next id rf)

install_roster-core : (env : Env) (r : Roster) (rf : Raft) → SameCore (install_roster env r rf) rf
unfolding install_roster
install_roster-core env r rf = ground arith

pub rebuild_volatile_peers-core :
    (env : Env) (last : LogIndex) (rf : Raft) → SameCore (rebuild_volatile_peers env last rf) rf
unfolding rebuild_volatile_peers rebuild_progress
rebuild_volatile_peers-core env last rf =
    let installed = install_roster env (roster_at env rf last) rf in
    let ids = keys installed.next_index in
    let dropped = drop_progress ids installed in
    SameCore-trans _ _ _
      (add_progress-core env.now (u64 ((get_last_log_info installed).0 + 1)) dropped.active_members
        dropped)
      (SameCore-trans _ _ _ (drop_progress-core ids installed) (install_roster-core env _ rf))
