-- ===== src/Raft/Api/Members.antt =====
-- What AddNode and RemoveNode of raft.go do to the members, with membership.go and
-- config_log.go.
use raft_thesis.Base.{
  int_eq, List, Option, Option-cases, String, arith, false, if◌then◌else◌, inl, inr, lookup, none,
  refl, some, ℕ, ◌=?◌, ◌∙◌, ◌≡◌,
}
use raft_thesis.Raft.Api.{add_node, reconfigure, remove_node}
use raft_thesis.Raft.Api.Current.{IsCurrent, last_roster, reconfigure-IsCurrent, reconfigure-roster}
use raft_thesis.Raft.Membership.{replay_entry}
use raft_thesis.Raft.Membership.InForce.{add_learner-members, remove-members, votes_in}
use raft_thesis.Raft.Membership.Payloads.{
  Codec, IsFaithful, decode_config_add, decode_config_remove, encode_config_add,
  encode_config_remove, with_codec,
}
use raft_thesis.Raft.Node.{Raft, is_voter}
use raft_thesis.Raft.Types.{Command, EntryType, Env, NodeId, entry_add_learner, entry_remove_node}

-- A node that is not named keeps its address and its vote.
unfoldable pub Changed : NodeId → Option String → Raft → Raft → Type 0
Changed id addr before after =
    (j : NodeId)
    → (lookup j after.member_addrs ≡ (if id =? j then addr else lookup j before.member_addrs))
      × (is_voter after j ≡ (if id =? j then false else is_voter before j))

reconfigure-Changed :
    (env : Env) (type : EntryType) (cmd : Command) (rf : Raft) (id : NodeId) (addr : Option String)
    → IsCurrent env rf
    → ((j : NodeId)
        → let was = last_roster env rf in
          let r = replay_entry env type cmd was in
          (lookup j r.members ≡ (if id =? j then addr else lookup j was.members))
          × (votes_in r j ≡ (if id =? j then false else votes_in was j)))
    → Changed id addr rf (reconfigure env type cmd rf)
unfolding Changed
reconfigure-Changed env type cmd rf id addr current replayed j =
    let now = reconfigure-IsCurrent env type cmd rf current.founded in
    let roster = reconfigure-roster env type cmd rf current.founded in
    (
      now.addrs j ∙ rw (roster, current.addrs j) (replayed j).0,
      now.voters j ∙ rw (roster, current.voters j) (replayed j).1,
    )

add_node-accepted :
    (env : Env) (id : NodeId) (addr : String) (rf : Raft)
    → (add_node env id addr rf).1 ≡ none
    → (cmd : List ℕ) × (env.encode_config_add id addr ≡ some cmd)
      × ((add_node env id addr rf).0 ≡ reconfigure env entry_add_learner (some cmd) rf)
unfolding add_node
add_node-accepted env id addr rf accepted = elim (Option-cases (env.encode_config_add id addr)) [
  | inl failed ↦ absurd (ground arith)
  | inr (cmd, encoded) ↦ (cmd, encoded, ground arith)
]

remove_node-accepted :
    (env : Env) (id : NodeId) (rf : Raft)
    → (remove_node env id rf).1.0 ≡ none
    → (cmd : List ℕ) × (env.encode_config_remove id ≡ some cmd)
      × ((remove_node env id rf).0 ≡ reconfigure env entry_remove_node (some cmd) rf)
unfolding remove_node
remove_node-accepted env id rf accepted = elim (Option-cases (env.encode_config_remove id)) [
  | inl failed ↦ absurd (ground arith)
  | inr (cmd, encoded) ↦ (cmd, encoded, ground arith)
]

decode-encode_add :
    (codec : Codec) (id : NodeId) (addr : String) (cmd : List ℕ)
    → IsFaithful codec
    → encode_config_add codec id addr ≡ some cmd
    → decode_config_add codec (some cmd) ≡ some (id, addr)
unfolding encode_config_add decode_config_add
decode-encode_add codec id addr cmd faithful encoded =
    rw (decode_config_add, faithful.add (record { id = id; addr = addr }) cmd encoded) refl

decode-encode_remove :
    (codec : Codec) (id : NodeId) (cmd : List ℕ)
    → IsFaithful codec
    → encode_config_remove codec id ≡ some cmd
    → decode_config_remove codec (some cmd) ≡ some id
unfolding encode_config_remove decode_config_remove
decode-encode_remove codec id cmd faithful encoded =
    rw (decode_config_remove, faithful.remove (record { id = id }) cmd encoded) refl

-- AddNode with the encoding of config_log.go: on a node whose addresses and voters are those of
-- its log, a call that reports no error gives the new node its address and no vote, and leaves
-- the address and the vote of every other node as they were; its addresses and voters are again
-- those of its log. It holds of a codec that reads back what it wrote.
pub add_node-Changed :
    (codec : Codec) (outer : Env) (id : NodeId) (addr : String) (rf : Raft)
    → IsFaithful codec
    → IsCurrent (with_codec codec outer) rf
    → (add_node (with_codec codec outer) id addr rf).1 ≡ none
    → let after = (add_node (with_codec codec outer) id addr rf).0 in
      Changed id (some addr) rf after × IsCurrent (with_codec codec outer) after
unfolding with_codec replay_entry
add_node-Changed codec outer id addr rf faithful current accepted =
    let env = with_codec codec outer in
    let (cmd, encoded, after) = add_node-accepted env id addr rf accepted in
    let decoded = decode-encode_add codec id addr cmd faithful encoded in
    (
      rw after (
          reconfigure-Changed env entry_add_learner (some cmd) rf id (some addr) current
            (λ j. rw decoded (add_learner-members (last_roster env rf) id j addr))),
      rw after (reconfigure-IsCurrent env entry_add_learner (some cmd) rf current.founded),
    )

-- RemoveNode with the encoding of config_log.go: on a node whose addresses and voters are those
-- of its log, a call whose first section reports no error takes the address and the vote of the
-- node it names, and leaves those of every other node as they were; its addresses and voters are
-- again those of its log. It holds of a codec that reads back what it wrote.
pub remove_node-Changed :
    (codec : Codec) (outer : Env) (id : NodeId) (rf : Raft)
    → IsFaithful codec
    → IsCurrent (with_codec codec outer) rf
    → (remove_node (with_codec codec outer) id rf).1.0 ≡ none
    → let after = (remove_node (with_codec codec outer) id rf).0 in
      Changed id none rf after × IsCurrent (with_codec codec outer) after
unfolding with_codec replay_entry
remove_node-Changed codec outer id rf faithful current accepted =
    let env = with_codec codec outer in
    let (cmd, encoded, after) = remove_node-accepted env id rf accepted in
    let decoded = decode-encode_remove codec id cmd faithful encoded in
    (
      rw after (
          reconfigure-Changed env entry_remove_node (some cmd) rf id none current
            (λ j. rw decoded (remove-members (last_roster env rf) id j))),
      rw after (reconfigure-IsCurrent env entry_remove_node (some cmd) rf current.founded),
    )
