-- ===== src/Examples/Members.antt =====
-- A leader of three voters takes in node 4, and lets node 3 go.
use raft_thesis.Base.{
  Bool-cases, List, Option, String, [], arith, contains, if◌then◌else◌, inl, inr, insert, int_beq,
  keys, lookup, negsuc, none, pos, refl, some, string_eq, ℕ, ◌=?◌, ◌∷◌, ◌≡◌,
}
use raft_thesis.Examples.{sample_env, sample_node}
use raft_thesis.Raft.Api.{add_node, remove_node}
use raft_thesis.Raft.Api.Current.{InForce-IsCurrent, IsCurrent, last_roster}
use raft_thesis.Raft.Api.Members.{Changed, add_node-Changed, remove_node-Changed}
use raft_thesis.Raft.Membership.{
  any_entry, bootstrap_roster, has_pending_add_voter_or_remove, has_pending_membership_commit,
  replay, replay_entry, roster_at, voters_among,
}
use raft_thesis.Raft.Membership.Payloads.{
  Codec, ConfigAddPayload, ConfigRemovePayload, IsFaithful, encode_config_add, encode_config_remove,
  with_codec,
}
use raft_thesis.Raft.Node.{Raft, get_last_log_info, is_member, last_log_info}
use raft_thesis.Raft.Types.{NodeId, leader}

abbrev written : NodeId → String → Option (List ℕ)
written (pos n) addr = if addr =? "n4" then some (n ∷ []) else none
written (negsuc n) addr = none

abbrev number : NodeId → Option (List ℕ)
number (pos n) = some (n ∷ [])
number (negsuc n) = none

-- It encodes natural ids, and the one address "n4".
abbrev sample_codec : Codec
sample_codec = record {
  marshal_add = λ p. written p.id p.addr;
  marshal_remove = λ p. number p.id;
  unmarshal_add = λ cmd. elim cmd [ none ↦ none | some bytes ↦ read_add bytes ];
  unmarshal_remove = λ cmd. elim cmd [ none ↦ none | some bytes ↦ read_remove bytes ];
}
  where
    read_add : List ℕ → Option ConfigAddPayload
    read_add [] = none
    read_add (n ∷ rest) = some (record { id = pos n; addr = "n4" })

    read_remove : List ℕ → Option ConfigRemovePayload
    read_remove [] = none
    read_remove (n ∷ rest) = some (record { id = pos n })

sample_codec-IsFaithful : IsFaithful sample_codec
sample_codec-IsFaithful = record {
  add = λ p bytes h. add p.id p.addr bytes h;
  remove = λ p bytes h. remove p.id bytes h;
}
  where
    add :
        (id : NodeId) (addr : String) (bytes : List ℕ)
        → written id addr ≡ some bytes
        → sample_codec.unmarshal_add (some bytes) ≡ some (record { id = id; addr = addr })
    add (pos n) addr bytes h = elim (Bool-cases (addr =? "n4")) [
      | inl same ↦ ground (arith, string_eq.beq_iff addr "n4")
      | inr other ↦ absurd (ground arith)
    ]
    add (negsuc n) addr bytes h = absurd (ground arith)

    remove :
        (id : NodeId) (bytes : List ℕ)
        → number id ≡ some bytes
        → sample_codec.unmarshal_remove (some bytes) ≡ some (record { id = id })
    remove (pos n) bytes h = ground arith
    remove (negsuc n) bytes h = absurd (ground arith)

abbrev leading : Raft
leading = record sample_node {
  state = leader;
  active_members = pos 3 ∷ pos 2 ∷ pos 1 ∷ [];
  voter_members = pos 3 ∷ pos 2 ∷ pos 1 ∷ [];
  member_addrs = (pos 3, "n3") ∷ (pos 2, "n2") ∷ (pos 1, "n1") ∷ [];
}

leading-IsCurrent : IsCurrent (with_codec sample_codec sample_env) leading
unfolding last_roster roster_at get_last_log_info last_log_info bootstrap_roster replay replay_entry
    insert keys voters_among with_codec int_beq lookup
leading-IsCurrent =
    InForce-IsCurrent (with_codec sample_codec sample_env) leading
      (record { active_members = refl; voter_members = refl; member_addrs = refl }) (omega arith)

add_node-Changed_example :
    let after = (add_node (with_codec sample_codec sample_env) (pos 4) "n4" leading).0 in
    Changed (pos 4) (some "n4") leading after × IsCurrent (with_codec sample_codec sample_env) after
unfolding add_node with_codec encode_config_add has_pending_add_voter_or_remove any_entry is_member
    contains int_beq
add_node-Changed_example =
    add_node-Changed sample_codec sample_env (pos 4) "n4" leading sample_codec-IsFaithful
      leading-IsCurrent refl

remove_node-Changed_example :
    let after = (remove_node (with_codec sample_codec sample_env) (pos 3) leading).0 in
    Changed (pos 3) none leading after × IsCurrent (with_codec sample_codec sample_env) after
unfolding remove_node with_codec encode_config_remove has_pending_membership_commit any_entry
    is_member contains int_beq
remove_node-Changed_example =
    remove_node-Changed sample_codec sample_env (pos 3) leading sample_codec-IsFaithful
      leading-IsCurrent refl
