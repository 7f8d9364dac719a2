-- ===== src/Network/Switches.antt =====
-- raft-consensus/internal/network: the switches that simulate a partition. A fault-injecting client is
-- shared by pointer, so its flag stands in a map under a number.
use raft_thesis.Base.{
  nat_eq, =?_refl, Bool, List, Map, [], arith, contains, false, if◌then◌else◌, inl, inr, insert,
  lookup, lookup-insert, not, refl, some, true, ℕ, ◌++◌, ◌=?◌, ◌||◌, ◌∙◌, ◌∷◌, ◌≡◌, ◌⊎◌,
}
use raft_thesis.Network.{RpcError, network_partition}

pub record Partition : Type 0 where
  pub connected : Map ℕ Bool
  pub proxies : List ℕ
  pub enabled : Bool

-- NewFaultInjectingRPCClient: a client starts connected.
unfoldable pub new_proxy : ℕ → Partition → Partition
new_proxy p s = record s { connected = insert p true s.connected }

-- RequestVote and AppendEntries of the client and of the adapter: dropped, or what the inner call does.
unfoldable pub guarded {ℓ} : {A : Type ℓ} → Bool → A → RpcError ⊎ A
guarded open_way inner = if not open_way then inl network_partition else inr inner

unfoldable pub set_proxy : Bool → ℕ → Map ℕ Bool → Map ℕ Bool
set_proxy value p m = insert p value m

unfoldable pub set_outgoing : Bool → List ℕ → Map ℕ Bool → Map ℕ Bool
unfolding set_proxy
set_outgoing value [] m = m
set_outgoing value (p ∷ ps) m = set_outgoing value ps (set_proxy value p m)

unfoldable pub disconnect_outgoing : Partition → Partition
disconnect_outgoing s = record s { connected = set_outgoing false s.proxies s.connected }

unfoldable pub reconnect_outgoing : Partition → Partition
reconnect_outgoing s = record s { connected = set_outgoing true s.proxies s.connected }

unfoldable pub add_proxy : ℕ → Partition → Partition
add_proxy p s = record s { proxies = s.proxies ++ p ∷ [] }

unfoldable pub set_partitioned : Bool → Partition → Partition
unfolding disconnect_outgoing reconnect_outgoing
set_partitioned partitioned s =
    if partitioned
    then record (disconnect_outgoing s) { enabled = false }
    else record (reconnect_outgoing s) { enabled = true }

set_outgoing-lookup :
    (value : Bool) (ps : List ℕ) (m : Map ℕ Bool) (j : ℕ)
    → lookup j (set_outgoing value ps m) ≡ (if contains j ps then some value else lookup j m)
unfolding set_outgoing contains
set_outgoing-lookup value [] m j = refl
set_outgoing-lookup value (p ∷ ps) m j =
    ground (arith, set_outgoing-lookup value ps (insert p value m) j, lookup-insert p j value m)

-- The switch puts every registered client, and the node's own incoming side, on the same setting, and
-- touches no other client, whatever they were set to before.
pub set_partitioned-lookup :
    (partitioned : Bool) (s : Partition) (j : ℕ)
    → (lookup j (set_partitioned partitioned s).connected
        ≡ (if contains j s.proxies then some (not partitioned) else lookup j s.connected))
      × ((set_partitioned partitioned s).enabled ≡ not partitioned)
unfolding set_partitioned
set_partitioned-lookup true s j = (set_outgoing-lookup false s.proxies s.connected j, refl)
set_partitioned-lookup false s j = (set_outgoing-lookup true s.proxies s.connected j, refl)

contains-append : (p : ℕ) (ps : List ℕ) → contains p (ps ++ p ∷ []) ≡ true
unfolding contains
contains-append p [] = rw (=?_refl p) refl
contains-append p (q ∷ ps) = rw (contains-append p ps) (or_true (q =? p))
  where
    or_true : (b : Bool) → (b || true) ≡ true
    or_true true = refl
    or_true false = refl

-- A client that is made and registered while the node is partitioned is connected, so the partition does
-- not cover it; the next use of the switch does, and every other client is as if it had not joined.
pub add_proxy-connected :
    (p j : ℕ) (partitioned : Bool) (s : Partition)
    → let joined = add_proxy p (new_proxy p (set_partitioned true s)) in
      (lookup p joined.connected ≡ some true)
      × (lookup p (set_partitioned partitioned joined).connected ≡ some (not partitioned))
      × (joined.enabled ≡ false)
      × (lookup j joined.connected
          ≡ (if p =? j then some true else lookup j (set_partitioned true s).connected))
unfolding add_proxy new_proxy set_partitioned disconnect_outgoing reconnect_outgoing
add_proxy-connected p j partitioned s = (
  lookup-insert p p true _ ∙ rw (=?_refl p) refl,
  (set_partitioned-lookup partitioned (add_proxy p (new_proxy p (set_partitioned true s))) p).0
      ∙ rw (contains-append p s.proxies) refl,
  refl,
  lookup-insert p j true _,
)
