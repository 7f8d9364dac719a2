-- ===== src/NodeCommand/Addresses.antt =====
-- raft-consensus/cmd/node/config.go: the addresses of the founding members.
use raft_thesis.Base.{
  Bool-cases, List, Map, String, [], arith, contains, if◌then◌else◌, inl, inr, insert, int_eq,
  lookup, lookup-insert, none, refl, some, ◌=?◌, ◌∙◌, ◌∷◌, ◌≡◌,
}
use raft_thesis.NodeCommand.{TextOps, add_founders, build_initial_cluster, default_rpc_addr}
use raft_thesis.Raft.Types.{NodeId}

module _ (ops : TextOps) (self : NodeId) (self_addr : String) where
  abbrev pub founder_addr : NodeId → String
  founder_addr id = if id =? self then self_addr else default_rpc_addr ops id

  add_founders-lookup :
      (ids : List NodeId) (m : Map NodeId String) (j : NodeId)
      → lookup j (add_founders ops self self_addr ids m)
        ≡ (if contains j ids then some (founder_addr j) else lookup j m)
  unfolding add_founders contains
  add_founders-lookup [] m j = refl
  add_founders-lookup (id ∷ ids) m j =
      let more = add_founders-lookup ids (insert id (founder_addr id) m) j in
      let one = lookup-insert id j (founder_addr id) m in
      elim (Bool-cases (id =? j)) [
        | inl same ↦ let e = (int_eq.beq_iff id j).0 same in more ∙ rw (one, same) (again e)
        | inr differ ↦ more ∙ rw (one, differ) refl
      ]
    where
      again :
          id ≡ j
          → (if contains j ids then some (founder_addr j) else some (founder_addr id))
            ≡ some (founder_addr j)
      again e = rw e (ground arith)

  -- The founding configuration has an address for each founding id and for no other: the node's own
  -- address for itself, and the local port of the id for the others.
  pub build_initial_cluster-lookup :
      (ids : List NodeId) (j : NodeId)
      → lookup j (build_initial_cluster ops self self_addr ids)
        ≡ (if contains j ids then some (founder_addr j) else none)
  unfolding build_initial_cluster lookup
  build_initial_cluster-lookup ids j = add_founders-lookup ids [] j
