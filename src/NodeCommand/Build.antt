-- ===== src/NodeCommand/Build.antt =====
-- raft-consensus/cmd/node/build.go and main.go: a process opens its parts and closes them. The file, the
-- listener and the registration of the RPC service are parameters.
use raft_thesis.Base.{
  string_eq, Bool, List, Option, String, [], if◌then◌else◌, inl, inr, none, not, some, ◌++◌, ◌=?◌,
  ◌>>=◌, ◌∷◌, ◌⊎◌,
}
use raft_thesis.NodeCommand.{
  FlagError, Flags, NodeConfig, TextOps, build_initial_cluster, parse_flags,
}
use raft_thesis.Raft.Api.{new_raft}
use raft_thesis.Raft.Config.{Config, default_production_config}
use raft_thesis.Raft.Node.{Raft}
use raft_thesis.Raft.Types.{Env}
use raft_thesis.Storage.{
  DiskStore, FileOps, MemoryStore, RecordCodec, StoreError, new_disk_store, new_memory_store,
}

-- What the process does to its parts. Raft.Stop closes the node's channel and does not wait, so a node
-- that was told to stop may still be applying.
pub data Event : Type 0 where
  disk_opened disk_closed raft_started raft_told_to_stop : Event
  listen_opened listen_closed serve_started : Event

pub data BuildError : Type 0 where
  create_data_dir_failed : BuildError
  init_disk_failed : StoreError → BuildError
  unsupported_backend : String → BuildError
  listen_failed : BuildError

pub data Backing (F : Type 0) : Type 0 where
  in_memory : MemoryStore → Backing F
  on_disk : DiskStore F → Backing F

-- os.MkdirAll, rpc.RegisterName and net.Listen: whether they succeed.
pub record HostOps : Type 0 where
  pub mkdir_all : String → Bool
  pub register_name : Bool
  pub listen : String → Bool

pub record NodeRuntime (F : Type 0) : Type 0 where
  pub cfg : NodeConfig
  pub rf : Raft
  pub backing : Backing F

pub data Exit : Type 0 where
  bad_flags : FlagError → Exit
  not_built : BuildError → Exit
  shut_down : NodeConfig → Exit

abbrev pub close_backing : {F : Type 0} → Backing F → List Event
close_backing (in_memory s) = []
close_backing (on_disk s) = disk_closed ∷ []

abbrev pub open_backing : {F : Type 0} → Backing F → List Event
open_backing (in_memory s) = []
open_backing (on_disk s) = disk_opened ∷ []

unfoldable pub close_node : {F : Type 0} → NodeRuntime F → List Event
close_node runtime = listen_closed ∷ raft_told_to_stop ∷ close_backing runtime.backing

module _ {F : Type 0} (text : TextOps) (codec : RecordCodec) (files : FileOps F)
    (host : HostOps) where
  unfoldable pub setup_storage : NodeConfig → BuildError ⊎ Backing F
  setup_storage cfg =
      if cfg.storage =? "memory"
      then inr (in_memory new_memory_store)
      else if cfg.storage =? "disk"
      then (if not (host.mkdir_all cfg.data_dir)
          then inl create_data_dir_failed
          else elim (new_disk_store codec files (text.join cfg.data_dir (text.log_name cfg.id))) [
            | inl e ↦ inl (init_disk_failed e)
            | inr s ↦ inr (on_disk s)
          ])
      else inl (unsupported_backend cfg.storage)

  -- A failed registration panics.
  unfoldable pub setup_raft_transport : Env → NodeConfig → Config → Option Raft
  setup_raft_transport env cfg raft_config = do
    rf ← new_raft env cfg.id (build_initial_cluster text cfg.id cfg.addr cfg.bootstrap) raft_config
    if host.register_name then some rf else none

  unfoldable pub build_node : Env → NodeConfig → Option (List Event × (BuildError ⊎ NodeRuntime F))
  build_node env cfg = elim (setup_storage cfg) [
    | inl e ↦ some ([], inl e)
    | inr backing ↦ do
      rf ← setup_raft_transport env cfg default_production_config
      some (
          if host.listen cfg.addr
          then (
            open_backing backing ++ raft_started ∷ listen_opened ∷ [],
            inr (record { cfg = cfg; rf = rf; backing = backing }),
          )
          else (
            open_backing backing
                ++ raft_started ∷ (close_backing backing ++ raft_told_to_stop ∷ []),
            inl listen_failed,
          ))
  ]

  -- The start-up and the shutdown of `main`, as the parts that it opens, serves and closes. The wait for
  -- a signal, and what the node does until then, are not in it.
  unfoldable pub start_and_shut_down : Env → Flags → Option (List Event × Exit)
  start_and_shut_down env flags = elim (parse_flags text flags) [
    | inl e ↦ some ([], bad_flags e)
    | inr cfg ↦ do
      (events, built) ← build_node env cfg
      some (elim built [
        | inl e ↦ (events, not_built e)
        | inr runtime ↦ (events ++ serve_started ∷ close_node runtime, shut_down cfg)
      ])
  ]
