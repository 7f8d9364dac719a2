-- ===== src/NodeCommand.antt =====
-- raft-consensus/cmd/node: the flags of config.go and the level of main.go. What the packages strings,
-- strconv, fmt and path/filepath do to a string is a parameter.
pub mod Build
pub mod Founding
pub mod Addresses
pub mod Shutdown
use raft_thesis.Base.{
  string_eq, int_eq, List, Map, Option, String, [], if◌then◌else◌, inl, inr, insert, keys, leb_ℤ,
  length, ltb, neg_part, negsuc, none, pos, pos_part, some, ℕ, ℤ, ◌%◌, ◌*◌, ◌+ℤ◌, ◌+◌, ◌-◌, ◌==◌,
  ◌=?◌, ◌||◌, ◌∷◌, ◌⊎◌,
}
use raft_thesis.Raft.Types.{NodeId}

-- strings.TrimSpace, strings.Split at a comma, strconv.Atoi without its error, the formats
-- "127.0.0.1:%d" and "node-%d.kvlog", and filepath.Join of a directory and a file.
pub record TextOps : Type 0 where
  pub trim_space : String → String
  pub split : String → List String
  pub atoi : String → Option ℤ
  pub loopback : ℤ → String
  pub log_name : NodeId → String
  pub join : String → String → String

-- The value of an int after its 64 bits.
unfoldable pub wrap : ℤ → ℤ
wrap n =
    let m = (pos_part n + neg_part n * 18446744073709551615) % 18446744073709551616 in
    if ltb m 9223372036854775808 then pos m else negsuc (18446744073709551615 - m)

abbrev pub default_peer_port_offset : ℕ
default_peer_port_offset = 8080

pub record NodeConfig : Type 0 where
  pub id : NodeId
  pub addr : String
  pub bootstrap : List NodeId
  pub log_level : String
  pub storage : String
  pub data_dir : String

pub data FlagError : Type 0 where
  id_required : FlagError
  invalid_peer_id : String → FlagError
  no_valid_ids : FlagError
  unsupported_storage : String → FlagError

-- What the package flag has read.
pub record Flags : Type 0 where
  pub id : ℤ
  pub addr : String
  pub bootstrap : String
  pub log_level : String
  pub storage : String
  pub data_dir : String

abbrev pub default_flags : Flags
default_flags = record {
  id = pos 0;
  addr = "";
  bootstrap = "";
  log_level = "info";
  storage = "memory";
  data_dir = "data";
}

-- One part between two commas.
pub data Part : Type 0 where
  blank : Part
  invalid_part : String → Part
  founder : NodeId → Part

pub data LogLevel : Type 0 where
  level_debug level_info level_warn level_error : LogLevel

unfoldable pub new_logger_level : String → LogLevel
new_logger_level level =
    if level =? "debug"
    then level_debug
    else if level =? "info"
    then level_info
    else if level =? "warn"
    then level_warn
    else if level =? "error"
    then level_error
    else level_info

module _ (ops : TextOps) where
  unfoldable pub default_rpc_addr : NodeId → String
  default_rpc_addr id = ops.loopback (wrap (pos default_peer_port_offset +ℤ id))

  unfoldable pub read_part : String → Part
  read_part part =
      let trimmed = ops.trim_space part in
      if trimmed =? "" then blank else elim (ops.atoi trimmed) [
        | none ↦ invalid_part trimmed
        | some n ↦ if leb_ℤ n (pos 0) then invalid_part trimmed else founder n
      ]

  unfoldable pub read_parts :
      List String → Map NodeId (Unit {0}) → FlagError ⊎ Map NodeId (Unit {0})
  read_parts [] seen = inr seen
  read_parts (part ∷ parts) seen = elim (read_part part) [
    | blank ↦ read_parts parts seen
    | invalid_part p ↦ inl (invalid_peer_id p)
    | founder n ↦ read_parts parts (insert n tt seen)
  ]

  unfoldable pub parse_bootstrap_ids : String → FlagError ⊎ List NodeId
  parse_bootstrap_ids s =
      let trimmed = ops.trim_space s in
      if trimmed =? "" then inr [] else elim (read_parts (ops.split trimmed) []) [
        | inl e ↦ inl e
        | inr seen ↦ if length seen == 0 then inl no_valid_ids else inr (keys seen)
      ]

  unfoldable pub parse_flags : Flags → FlagError ⊎ NodeConfig
  parse_flags flags =
      let trimmed = ops.trim_space flags.addr in
      let addr = if trimmed =? "" then default_rpc_addr flags.id else trimmed in
      if leb_ℤ flags.id (pos 0)
      then inl id_required
      else elim (parse_bootstrap_ids flags.bootstrap) [
        | inl e ↦ inl e
        | inr bootstrap ↦
            if flags.storage =? "memory" || flags.storage =? "disk"
            then inr (record {
              id = flags.id;
              addr = addr;
              bootstrap = bootstrap;
              log_level = flags.log_level;
              storage = flags.storage;
              data_dir = flags.data_dir;
            })
            else inl (unsupported_storage flags.storage)
      ]

  unfoldable pub add_founders :
      NodeId → String → List NodeId → Map NodeId String → Map NodeId String
  add_founders self self_addr [] m = m
  add_founders self self_addr (id ∷ ids) m =
      add_founders self self_addr ids
        (insert id (if id =? self then self_addr else default_rpc_addr id) m)

  unfoldable pub build_initial_cluster : NodeId → String → List NodeId → Map NodeId String
  build_initial_cluster self self_addr bootstrap = add_founders self self_addr bootstrap []
