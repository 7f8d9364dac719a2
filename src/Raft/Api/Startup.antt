-- ===== src/Raft/Api/Startup.antt =====
-- raft-consensus/internal/raft/raft.go, NewRaft: what a node starts as.
use raft_thesis.Base.{Map, String, arith, none, some, ◌<ℤ◌, ◌≡◌, ◌≤ℤ◌}
use raft_thesis.Raft.Api.{blank_raft, new_raft}
use raft_thesis.Raft.Config.{Config, normalize}
use raft_thesis.Raft.Membership.{rebuild_volatile_peers}
use raft_thesis.Raft.Membership.Core.{rebuild_volatile_peers-core}
use raft_thesis.Raft.Node.{Raft, get_random_duration, reset_election_timer}
use raft_thesis.Raft.Node.Core.{IsSound, SameCore, reset_election_timer_lem}
use raft_thesis.Raft.Types.{Duration, Env, NodeId, follower, no_node}

-- What NewRaft gives: a sound follower of term 0 that has voted for nobody and applied nothing.
pub record Started (rf : Raft) : Type 0 where
  pub sound : IsSound rf
  pub follows : rf.state ≡ follower
  pub term : rf.current_term ≡ 0
  pub unvoted : rf.voted_for ≡ no_node
  pub applied_none : rf.last_applied ≡ 0

abbrev rebuilt : Env → NodeId → Map NodeId String → Config → Raft
rebuilt env id cluster cfg = rebuild_volatile_peers env 0 (blank_raft id cluster cfg)

module _ (env : Env) (id : NodeId) (cluster : Map NodeId String) (cfg : Config) where
  rebuilt-Started :
      (rf : Raft)
      → SameCore rf (blank_raft id cluster cfg)
      → (normalize cfg).min_election_timeout <ℤ (normalize cfg).max_election_timeout
      → (d : Duration) → Started (record rf { last_activity = env.now; election_timeout = d })
  rebuilt-Started rf core h d = record {
    sound = record {
      committed = rw (core.commit_index, core.log) (omega arith);
      applied = rw (core.commit_index, core.last_applied) (omega arith);
      timeouts = rw core.cfg h;
    };
    follows = core.state;
    term = core.current_term;
    unvoted = core.voted_for;
    applied_none = core.last_applied;
  }

reset_election_timer_panics :
    (env : Env) (rf : Raft)
    → rf.cfg.max_election_timeout ≤ℤ rf.cfg.min_election_timeout
    → reset_election_timer env rf ≡ none
unfolding reset_election_timer get_random_duration
reset_election_timer_panics env rf h = ground arith

-- Whatever the options say, if the normalized timeouts leave a range then NewRaft returns such a node.
pub new_raft-Started :
    (env : Env) (id : NodeId) (cluster : Map NodeId String) (cfg : Config)
    → (normalize cfg).min_election_timeout <ℤ (normalize cfg).max_election_timeout
    → (rf : Raft) × (new_raft env id cluster cfg ≡ some rf) × Started rf
unfolding new_raft
new_raft-Started env id cluster cfg h =
    let core = rebuild_volatile_peers-core env 0 (blank_raft id cluster cfg) in
    let rf = rebuilt env id cluster cfg in
    let (d, p) = reset_election_timer_lem env rf (rw core.cfg h) in
    (
      record rf { last_activity = env.now; election_timeout = d },
      p,
      rebuilt-Started env id cluster cfg rf core h d,
    )

-- A configuration with a minimal timeout that is no less than the maximal one, after normalize, makes
-- NewRaft panic.
pub new_raft_panics :
    (env : Env) (id : NodeId) (cluster : Map NodeId String) (cfg : Config)
    → (normalize cfg).max_election_timeout ≤ℤ (normalize cfg).min_election_timeout
    → new_raft env id cluster cfg ≡ none
unfolding new_raft
new_raft_panics env id cluster cfg h =
    let core = rebuild_volatile_peers-core env 0 (blank_raft id cluster cfg) in
    reset_election_timer_panics env (rebuilt env id cluster cfg) (rw core.cfg h)
