-- ===== src/NodeCommand/Shutdown.antt =====
-- raft-consensus/cmd/node: a process closes what it opened.
use raft_thesis.Base.{
  string_eq, Bool, Bool-cases, List, Map, String, [], ap, arith, false, if◌then◌else◌, inl, inr,
  not, refl, some, true, ◌&&◌, ◌++◌, ◌=?◌, ◌||◌, ◌∙◌, ◌∷◌, ◌≡◌, ◌≢◌, ◌⊎◌,
}
use raft_thesis.NodeCommand.{
  FlagError, Flags, NodeConfig, TextOps, build_initial_cluster, parse_flags,
}
use raft_thesis.NodeCommand.Build.{
  Backing, BuildError, Event, Exit, HostOps, NodeRuntime, bad_flags, build_node, close_backing,
  close_node, disk_closed, disk_opened, in_memory, listen_closed, listen_failed, listen_opened,
  not_built, on_disk, open_backing, raft_started, raft_told_to_stop, serve_started,
  setup_raft_transport, setup_storage, shut_down, start_and_shut_down, unsupported_backend,
}
use raft_thesis.Raft.Api.{new_raft}
use raft_thesis.Raft.Api.Startup.{Started, new_raft-Started}
use raft_thesis.Raft.Config.{default_production_config, normalize}
use raft_thesis.Raft.Node.{Raft}
use raft_thesis.Raft.Types.{Env, NodeId}
use raft_thesis.Storage.{FileOps, RecordCodec}

-- What is open; of the node, whether it was started and not told to stop.
pub record Held : Type 0 where
  pub disk : Bool
  pub raft : Bool
  pub listener : Bool

abbrev after : Event → Held → Held
after disk_opened h = record h { disk = true }
after disk_closed h = record h { disk = false }
after raft_started h = record h { raft = true }
after raft_told_to_stop h = record h { raft = false }
after listen_opened h = record h { listener = true }
after listen_closed h = record h { listener = false }
after serve_started h = h

abbrev pub held : List Event → Held → Held
held [] h = h
held (e ∷ es) h = held es (after e h)

abbrev pub nothing_held : Held
nothing_held = record { disk = false; raft = false; listener = false }

abbrev closes_disk : Event → Bool
closes_disk disk_opened = false
closes_disk disk_closed = true
closes_disk raft_started = false
closes_disk raft_told_to_stop = false
closes_disk listen_opened = false
closes_disk listen_closed = false
closes_disk serve_started = false

-- The disk is not closed before the node is told to stop.
abbrev pub guards_disk : List Event → Held → Bool
guards_disk [] h = true
guards_disk (e ∷ es) h = not (closes_disk e && h.raft) && guards_disk es (after e h)

default_new_raft :
    (env : Env) (id : NodeId) (cluster : Map NodeId String)
    → (rf : Raft) × (new_raft env id cluster default_production_config ≡ some rf) × Started rf
unfolding normalize
default_new_raft env id cluster =
    new_raft-Started env id cluster default_production_config (omega arith)

module _ {F : Type 0} (text : TextOps) (codec : RecordCodec) (files : FileOps F) (host : HostOps)
    (env : Env) (flags : Flags) where
  -- How a process ended.
  abbrev pub Ended : List Event → Exit → Type 0
  Ended events (bad_flags e) = (events ≡ []) × (parse_flags text flags ≡ inl e)
  Ended events (not_built e) =
      (held events nothing_held ≡ nothing_held) × ((s : String) → e ≢ unsupported_backend s)
  Ended events (shut_down cfg) =
      (held events nothing_held ≡ nothing_held)
      × (guards_disk events nothing_held ≡ true)
      × (parse_flags text flags ≡ inr cfg)

  parse_flags-storage :
      (cfg : NodeConfig)
      → parse_flags text flags ≡ inr cfg
      → (cfg.storage =? "memory" || cfg.storage =? "disk") ≡ true
  unfolding parse_flags
  parse_flags-storage cfg h = ground arith

  setup_storage-known :
      (cfg : NodeConfig) (s : String)
      → (cfg.storage =? "memory" || cfg.storage =? "disk") ≡ true
      → setup_storage text codec files host cfg ≢ inl (unsupported_backend s)
  unfolding setup_storage
  setup_storage-known cfg s known h = ground arith

  closed_run :
      (b : Backing F)
      → let events =
          (open_backing b ++ raft_started ∷ listen_opened ∷ [])
          ++ serve_started ∷ listen_closed ∷ raft_told_to_stop ∷ close_backing b in
        (held events nothing_held ≡ nothing_held) × (guards_disk events nothing_held ≡ true)
  closed_run (in_memory s) = (refl, refl)
  closed_run (on_disk s) = (refl, refl)

  closed_failure :
      (b : Backing F)
      → held
          (open_backing b ++ raft_started ∷ (close_backing b ++ raft_told_to_stop ∷ []))
          nothing_held
        ≡ nothing_held
  closed_failure (in_memory s) = refl
  closed_failure (on_disk s) = refl

  abbrev Outcome : Type 0
  Outcome =
      (events : List Event) × (exit : Exit) × (start_and_shut_down text codec files host env flags
        ≡ some (events, exit))
      × Ended events exit

  not_opened :
      (cfg : NodeConfig) (e : BuildError)
      → setup_storage text codec files host cfg ≡ inl e
      → build_node text codec files host env cfg ≡ some ([], inl e)
  unfolding build_node
  not_opened cfg e q = rw (build_node, q) refl

  transported :
      (cfg : NodeConfig) (rf : Raft)
      → host.register_name ≡ true
      → new_raft env cfg.id
          (build_initial_cluster text cfg.id cfg.addr cfg.bootstrap)
          default_production_config
        ≡ some rf
      → setup_raft_transport text codec files host env cfg default_production_config ≡ some rf
  unfolding setup_raft_transport
  transported cfg rf registered p = rw (setup_raft_transport, p, registered) refl

  -- What build_node leaves, by whether the listener opens.
  abbrev at_end : NodeConfig → Backing F → Raft → Bool → List Event × (BuildError ⊎ NodeRuntime F)
  at_end cfg b rf listening =
      if listening
      then (
        open_backing b ++ raft_started ∷ listen_opened ∷ [],
        inr (record { cfg = cfg; rf = rf; backing = b }),
      )
      else (
        open_backing b ++ raft_started ∷ (close_backing b ++ raft_told_to_stop ∷ []),
        inl listen_failed,
      )

  opened :
      (cfg : NodeConfig) (b : Backing F) (rf : Raft)
      → setup_storage text codec files host cfg ≡ inr b
      → setup_raft_transport text codec files host env cfg default_production_config ≡ some rf
      → build_node text codec files host env cfg ≡ some (at_end cfg b rf (host.listen cfg.addr))
  unfolding build_node
  opened cfg b rf q p = rw (build_node, q, p) refl

  finished :
      (cfg : NodeConfig) (events : List Event) (r : BuildError ⊎ NodeRuntime F)
      → parse_flags text flags ≡ inr cfg
      → build_node text codec files host env cfg ≡ some (events, r)
      → start_and_shut_down text codec files host env flags
        ≡ some (elim r [
          | inl e ↦ (events, not_built e)
          | inr runtime ↦ (events ++ serve_started ∷ close_node runtime, shut_down cfg)
        ])
  unfolding start_and_shut_down
  finished cfg events r parsed q = rw (start_and_shut_down, parsed, q) refl

  built :
      (cfg : NodeConfig)
      → host.register_name ≡ true
      → parse_flags text flags ≡ inr cfg
      → (b : BuildError ⊎ Backing F) → setup_storage text codec files host cfg ≡ b
      → Outcome
  unfolding start_and_shut_down build_node setup_raft_transport close_node
  built cfg registered parsed (inl e) q = (
    [],
    not_built e,
    rw (start_and_shut_down, parsed, not_opened cfg e q) refl,
    (refl, λ s z. setup_storage-known cfg s (parse_flags-storage cfg parsed) (q ∙ ap inl z)),
  )
  built cfg registered parsed (inr b) q =
      let cluster = build_initial_cluster text cfg.id cfg.addr cfg.bootstrap in
      let (rf, p, st) = default_new_raft env cfg.id cluster in
      let up = opened cfg b rf q (transported cfg rf registered p) in
      elim (Bool-cases (host.listen cfg.addr)) [
        | inl ok ↦ (
          (open_backing b ++ raft_started ∷ listen_opened ∷ [])
              ++ serve_started ∷ close_node (record { cfg = cfg; rf = rf; backing = b }),
          shut_down cfg,
          finished cfg _ _ parsed (up ∙ ap (λ (l : Bool). some (at_end cfg b rf l)) ok),
          ((closed_run b).0, (closed_run b).1, parsed),
        )
        | inr busy ↦ (
          open_backing b ++ raft_started ∷ (close_backing b ++ raft_told_to_stop ∷ []),
          not_built listen_failed,
          finished cfg _ _ parsed (up ∙ ap (λ (l : Bool). some (at_end cfg b rf l)) busy),
          (closed_failure b, λ s z. cc),
        )
      ]

  -- Unless the RPC service is registered twice, the start-up and the shutdown of the process do not panic,
  -- and whatever the flags are and whichever part fails to open, in the end the disk and the listener that
  -- were opened are closed, and a node that was started was told to stop. When the process shuts down, it
  -- closes the disk after it told the node to stop; it does not wait for the node. A storage that the
  -- flags accept is never refused as unsupported.
  pub start_and_shut_down-Ended :
      host.register_name ≡ true
      → (events : List Event) × (exit : Exit) × (start_and_shut_down text codec files host env flags
          ≡ some (events, exit))
        × Ended events exit
  unfolding start_and_shut_down
  start_and_shut_down-Ended registered = go (parse_flags text flags) refl
    where
      go : (r : FlagError ⊎ NodeConfig) → parse_flags text flags ≡ r → Outcome
      go (inl e) parsed = ([], bad_flags e, rw (start_and_shut_down, parsed) refl, (refl, parsed))
      go (inr cfg) parsed =
          built cfg registered parsed (setup_storage text codec files host cfg) refl
