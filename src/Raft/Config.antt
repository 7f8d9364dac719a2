-- ===== src/Raft/Config.antt =====
-- raft-consensus/internal/raft/config.go.
pub mod Defaults
use raft_thesis.Base.{ℕ, ◌*◌, ℤ, pos, leb_ℤ, if◌then◌else◌}
use raft_thesis.Raft.Types.{Duration}

pub record Config : Type 0 where
  pub heartbeat_interval : Duration
  pub min_election_timeout : Duration
  pub max_election_timeout : Duration
  pub rpc_timeout : Duration
  pub leader_quorum_liveness_timeout : Duration
  pub catch_up_promote_threshold : ℤ

abbrev millisecond : ℕ
millisecond = 1_000_000

abbrev second : ℕ
second = 1_000_000_000

abbrev pub default_testing_config : Config
default_testing_config = record {
  heartbeat_interval = pos (5 * second);
  min_election_timeout = pos (10 * second);
  max_election_timeout = pos (15 * second);
  rpc_timeout = pos (1 * second);
  leader_quorum_liveness_timeout = pos (15 * second);
  catch_up_promote_threshold = pos 10;
}

abbrev pub default_production_config : Config
default_production_config = record {
  heartbeat_interval = pos (50 * millisecond);
  min_election_timeout = pos (150 * millisecond);
  max_election_timeout = pos (300 * millisecond);
  rpc_timeout = pos (5 * second);
  leader_quorum_liveness_timeout = pos (300 * millisecond);
  catch_up_promote_threshold = pos 10;
}

-- `if v <= 0 { v = d }`
abbrev pub positive_or : ℤ → ℤ → ℤ
positive_or v d = if leb_ℤ v (pos 0) then d else v

unfoldable pub normalize : Config → Config
normalize c = record {
  heartbeat_interval = positive_or c.heartbeat_interval d.heartbeat_interval;
  min_election_timeout = positive_or c.min_election_timeout d.min_election_timeout;
  max_election_timeout = positive_or c.max_election_timeout d.max_election_timeout;
  rpc_timeout = positive_or c.rpc_timeout d.rpc_timeout;
  leader_quorum_liveness_timeout =
      positive_or c.leader_quorum_liveness_timeout d.leader_quorum_liveness_timeout;
  catch_up_promote_threshold =
      positive_or c.catch_up_promote_threshold d.catch_up_promote_threshold;
}
  where
    d : Config
    d = default_production_config
