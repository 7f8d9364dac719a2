-- ===== src/Kv.antt =====
-- raft-consensus/internal/kv: op.go, machine.go and service.go. The JSON codec of commands and the store
-- are parameters; the node below the service is the one of Raft.
pub mod Machine
pub mod Replica
pub mod Http
use raft_thesis.Base.{
  string_eq, Bool, List, Option, String, if◌then◌else◌, inl, inr, none, not, some, ℕ, ◌=?◌, ◌⊎◌,
}
use raft_thesis.Raft.Api.{add_node, remove_node, submit}
use raft_thesis.Raft.Node.{Raft}
use raft_thesis.Raft.Types.{Action, Env, Error, LogIndex, NodeId, Term, not_leader}
use raft_thesis.Storage.{Store, StoreError, key_not_found}

-- OpType is a string, and PUT is its only constant.
abbrev pub op_put : String
op_put = "PUT"

pub record KvCommand : Type 0 where
  pub type : String
  pub key : String
  pub value : String

-- json.Marshal and json.Unmarshal of a command.
pub record CommandCodec : Type 0 where
  pub marshal : KvCommand → Option (List ℕ)
  pub unmarshal : List ℕ → Option KvCommand

pub data KvError : Type 0 where
  encode_command_failed decode_command_failed unknown_command_type empty_key : KvError
  kv_key_not_found : KvError
  in_store : StoreError → KvError
  in_raft : Error → KvError

unfoldable pub encode_put : CommandCodec → String → String → Option (List ℕ)
encode_put codec key value = codec.marshal (record { type = op_put; key = key; value = value })

unfoldable pub decode_command : CommandCodec → List ℕ → Option KvCommand
decode_command codec raw = codec.unmarshal raw

unfoldable pub validate_command : KvCommand → Option KvError
validate_command cmd =
    if not (cmd.type =? op_put)
    then some unknown_command_type
    else if cmd.key =? ""
    then some empty_key
    else none

module _ {S : Type 0} (codec : CommandCodec) (store : Store S) where
  unfoldable pub machine_apply : S → List ℕ → S × Option KvError
  machine_apply s command = elim (decode_command codec command) [
    | none ↦ (s, some decode_command_failed)
    | some cmd ↦ elim (validate_command cmd) [
      | some e ↦ (s, some e)
      | none ↦
          let (stored, failure) = store.put cmd.key cmd.value s in
          (stored, elim failure [ none ↦ none | some e ↦ some (in_store e) ])
    ]
  ]

  -- The error of the store is the machine's own if the key is missing.
  unfoldable pub machine_get : String → S → KvError ⊎ String
  machine_get key s = elim (store.get key s) [
    | inr value ↦ inr value
    | inl key_not_found ↦ inl kv_key_not_found
    | inl e ↦ inl (in_store e)
  ]

-- The first part of Put: the encoding failed, or the command goes to the node, whose answer is whether
-- it leads, with the index to wait for.
unfoldable pub service_put_begin :
    CommandCodec
    → String
    → String
    → Raft
    → KvError ⊎ (Raft × (Bool × LogIndex × Term) × List Action)
service_put_begin codec key value rf = elim (encode_put codec key value) [
  | none ↦ inl encode_command_failed
  | some cmd ↦ inr (submit (some cmd) rf)
]

-- Its end, from what SubmitAndWait gives.
unfoldable pub service_put_end : Bool → Option Error → Option KvError
service_put_end is_leader' failure =
    if not is_leader'
    then some (in_raft not_leader)
    else elim failure [ none ↦ none | some e ↦ some (in_raft e) ]

-- Get, from what ReadBarrier gives.
unfoldable pub service_get :
    {S : Type 0} → CommandCodec → Store S → Option Error → String → S → KvError ⊎ String
unfolding machine_get
service_get codec store (some e) key s = inl (in_raft e)
service_get codec store none key s = machine_get codec store key s

unfoldable pub add_cluster_node : Env → NodeId → String → Raft → Raft × Option Error × List Action
add_cluster_node env id addr rf = add_node env id addr rf

unfoldable pub remove_cluster_node :
    Env → NodeId → Raft → Raft × (Option Error × LogIndex) × List Action
remove_cluster_node env id rf = remove_node env id rf
