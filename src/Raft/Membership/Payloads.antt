-- ===== src/Raft/Membership/Payloads.antt =====
-- raft-consensus/internal/raft/config_log.go: the payloads of the configuration entries. encoding/json
-- on the two payloads is a parameter.
use raft_thesis.Base.{List, Option, String, none, some, ℕ, ◌≡◌}
use raft_thesis.Raft.Types.{Command, Env, NodeId}

pub record ConfigAddPayload : Type 0 where
  pub id : NodeId
  pub addr : String

pub record ConfigRemovePayload : Type 0 where
  pub id : NodeId

-- json.Marshal and json.Unmarshal at the two payloads; an error is `none`.
pub record Codec : Type 0 where
  pub marshal_add : ConfigAddPayload → Option (List ℕ)
  pub marshal_remove : ConfigRemovePayload → Option (List ℕ)
  pub unmarshal_add : Command → Option ConfigAddPayload
  pub unmarshal_remove : Command → Option ConfigRemovePayload

unfoldable pub encode_config_add : Codec → NodeId → String → Option (List ℕ)
encode_config_add codec id addr = codec.marshal_add (record { id = id; addr = addr })

unfoldable pub encode_config_remove : Codec → NodeId → Option (List ℕ)
encode_config_remove codec id = codec.marshal_remove (record { id = id })

unfoldable pub decode_config_add : Codec → Command → Option (NodeId × String)
decode_config_add codec cmd = elim (codec.unmarshal_add cmd) [
  | none ↦ none
  | some p ↦ some (p.id, p.addr)
]

unfoldable pub decode_config_remove : Codec → Command → Option NodeId
decode_config_remove codec cmd = elim (codec.unmarshal_remove cmd) [
  | none ↦ none
  | some p ↦ some p.id
]

-- A node's surroundings whose configuration entries are encoded with these functions.
unfoldable pub with_codec : Codec → Env → Env
unfolding encode_config_add encode_config_remove decode_config_add decode_config_remove
with_codec codec env = record env {
  encode_config_add = encode_config_add codec;
  encode_config_remove = encode_config_remove codec;
  decode_config_add = decode_config_add codec;
  decode_config_remove = decode_config_remove codec;
}

-- What encoding/json documents of structs of exported fields: what Marshal returns, Unmarshal reads
-- back.
pub record IsFaithful (codec : Codec) : Type 0 where
  pub add :
      (p : ConfigAddPayload) (bytes : List ℕ)
      → codec.marshal_add p ≡ some bytes
      → codec.unmarshal_add (some bytes) ≡ some p
  pub remove :
      (p : ConfigRemovePayload) (bytes : List ℕ)
      → codec.marshal_remove p ≡ some bytes
      → codec.unmarshal_remove (some bytes) ≡ some p
