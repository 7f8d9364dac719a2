-- ===== src/Examples/Startup.antt =====
-- A node that starts in a cluster of two, and a configuration that cannot start.
use raft_thesis.Base.{[], arith, none, pos, some, ◌∷◌, ◌≡◌}
use raft_thesis.Examples.{sample_env}
use raft_thesis.Raft.Api.{new_raft}
use raft_thesis.Raft.Api.Startup.{Started, new_raft-Started, new_raft_panics}
use raft_thesis.Raft.Config.{Config, default_production_config, normalize}
use raft_thesis.Raft.Node.{Raft}

abbrev short_range : Config
short_range = record default_production_config {
  min_election_timeout = pos 400_000_000;
  max_election_timeout = pos 0;
}

new_raft-Started_example :
    (rf : Raft) × (new_raft sample_env
        (pos 1)
        ((pos 1, "a") ∷ (pos 2, "b") ∷ [])
        default_production_config
      ≡ some rf)
    × Started rf
unfolding normalize
new_raft-Started_example =
    new_raft-Started sample_env (pos 1) ((pos 1, "a") ∷ (pos 2, "b") ∷ []) default_production_config
      (omega arith)

new_raft_panics_example :
    new_raft sample_env (pos 1) ((pos 1, "a") ∷ (pos 2, "b") ∷ []) short_range ≡ none
unfolding normalize
new_raft_panics_example =
    new_raft_panics sample_env (pos 1) ((pos 1, "a") ∷ (pos 2, "b") ∷ []) short_range (omega arith)
