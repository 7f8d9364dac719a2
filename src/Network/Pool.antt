-- ===== src/Network/Pool.antt =====
-- raft-consensus/internal/network/rpc.go: the slots of the pool.
use raft_thesis.Base.{false, ℕ, ◌≡◌, ◌⊎◌}
use raft_thesis.Network.{RpcConn, RpcError, get_connection}
use raft_thesis.Raft.Types.{Time}

-- A slot that waits after a failure is not dialed, and keeps its state and its error.
pub record Waits (time : Time) (dial : RpcError ⊎ ℕ) (slot : RpcConn) : Type 0 where
  pub same : (get_connection time dial slot).0 ≡ slot
  pub idle : (get_connection time dial slot).2 ≡ false
