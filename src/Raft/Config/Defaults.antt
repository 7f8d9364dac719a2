-- ===== src/Raft/Config/Defaults.antt =====
-- What `normalize` guarantees of a configuration, and what it does not.
use raft_thesis.Base.{arith, pos, ℕ, ℤ, ◌<ℤ◌, ◌<◌, ◌≡◌, ◌≤ℤ◌, ◌⊎◌}
use raft_thesis.Raft.Config.{Config, default_production_config, normalize, positive_or}

pub record IsPositive (c : Config) : Type 0 where
  pub heartbeat_interval : pos 0 <ℤ c.heartbeat_interval
  pub min_election_timeout : pos 0 <ℤ c.min_election_timeout
  pub max_election_timeout : pos 0 <ℤ c.max_election_timeout
  pub rpc_timeout : pos 0 <ℤ c.rpc_timeout
  pub leader_quorum_liveness_timeout : pos 0 <ℤ c.leader_quorum_liveness_timeout
  pub catch_up_promote_threshold : pos 0 <ℤ c.catch_up_promote_threshold

positive_or_positive : (v : ℤ) (n : ℕ) → 0 < n → pos 0 <ℤ positive_or v (pos n)
positive_or_positive v n h = ground arith

positive_or_id : (v d : ℤ) → pos 0 <ℤ v → positive_or v d ≡ v
positive_or_id v d h = ground arith

normalize-IsPositive : (c : Config) → IsPositive (normalize c)
unfolding normalize
normalize-IsPositive c = record {
  heartbeat_interval = positive_or_positive c.heartbeat_interval _ (omega arith);
  min_election_timeout = positive_or_positive c.min_election_timeout _ (omega arith);
  max_election_timeout = positive_or_positive c.max_election_timeout _ (omega arith);
  rpc_timeout = positive_or_positive c.rpc_timeout _ (omega arith);
  leader_quorum_liveness_timeout =
      positive_or_positive c.leader_quorum_liveness_timeout _ (omega arith);
  catch_up_promote_threshold = positive_or_positive c.catch_up_promote_threshold _ (omega arith);
}

normalize-fixed : (c : Config) → IsPositive c → normalize c ≡ c
unfolding normalize
normalize-fixed c p = rw (
  positive_or_id c.heartbeat_interval (default_production_config.heartbeat_interval)
      p.heartbeat_interval,
  positive_or_id c.min_election_timeout (default_production_config.min_election_timeout)
      p.min_election_timeout,
  positive_or_id c.max_election_timeout (default_production_config.max_election_timeout)
      p.max_election_timeout,
  positive_or_id c.rpc_timeout (default_production_config.rpc_timeout) p.rpc_timeout,
  positive_or_id c.leader_quorum_liveness_timeout
      (default_production_config.leader_quorum_liveness_timeout) p.leader_quorum_liveness_timeout,
  positive_or_id c.catch_up_promote_threshold (default_production_config.catch_up_promote_threshold)
      p.catch_up_promote_threshold,
)

-- A field that is given positive is kept, and any other is that of the production configuration.
abbrev pub Chosen : ℤ → ℤ → ℤ → Type 0
Chosen given default normal =
    ((normal ≡ given) × (pos 0 <ℤ given)) ⊎ ((normal ≡ default) × (given ≤ℤ pos 0))

positive_or-Chosen : (v d : ℤ) → Chosen v d (positive_or v d)
positive_or-Chosen v d = ground arith

pub record Defaulted (c n : Config) : Type 0 where
  pub heartbeat_interval :
      Chosen c.heartbeat_interval default_production_config.heartbeat_interval n.heartbeat_interval
  pub min_election_timeout :
      Chosen c.min_election_timeout default_production_config.min_election_timeout
        n.min_election_timeout
  pub max_election_timeout :
      Chosen c.max_election_timeout default_production_config.max_election_timeout
        n.max_election_timeout
  pub rpc_timeout : Chosen c.rpc_timeout default_production_config.rpc_timeout n.rpc_timeout
  pub leader_quorum_liveness_timeout :
      Chosen c.leader_quorum_liveness_timeout
        default_production_config.leader_quorum_liveness_timeout n.leader_quorum_liveness_timeout
  pub catch_up_promote_threshold :
      Chosen c.catch_up_promote_threshold default_production_config.catch_up_promote_threshold
        n.catch_up_promote_threshold

normalize-Defaulted : (c : Config) → Defaulted c (normalize c)
unfolding normalize
normalize-Defaulted c = record {
  heartbeat_interval = positive_or-Chosen c.heartbeat_interval _;
  min_election_timeout = positive_or-Chosen c.min_election_timeout _;
  max_election_timeout = positive_or-Chosen c.max_election_timeout _;
  rpc_timeout = positive_or-Chosen c.rpc_timeout _;
  leader_quorum_liveness_timeout = positive_or-Chosen c.leader_quorum_liveness_timeout _;
  catch_up_promote_threshold = positive_or-Chosen c.catch_up_promote_threshold _;
}

-- A normalized configuration keeps every field that was given positive and has the production value in
-- every other field; it is positive in every field, and normalizing twice is normalizing once.
pub normalize-normalize :
    (c : Config)
    → Defaulted c (normalize c) × IsPositive (normalize c) × (normalize (normalize c) ≡ normalize c)
normalize-normalize c = (
  normalize-Defaulted c,
  normalize-IsPositive c,
  normalize-fixed (normalize c) (normalize-IsPositive c),
)
