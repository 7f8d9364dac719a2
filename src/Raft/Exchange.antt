-- ===== src/Raft/Exchange.antt =====
-- raft-consensus/internal/raft/replication.go, sendAppendEntries as a whole: its sections and the call
-- between them, when the reply arrives and no other section of either node comes in between; and the
-- rounds that repeat it until the follower accepts.
pub mod Rounds
pub mod Accepted
pub mod Ends
use raft_thesis.Base.{Bool, Option, false, none, some, suc, true, zero, ℕ, ◌>>=◌}
use raft_thesis.Raft.Node.{Raft}
use raft_thesis.Raft.Replication.{clear_in_flight, handle_append_reply, prepare_append}
use raft_thesis.Raft.Service.{append_entries}
use raft_thesis.Raft.Types.{Env, NodeId}

-- The leader and the follower after the call, and what sendAppendEntries returns.
unfoldable pub send_append_entries_to :
    Env → Env → NodeId → Raft → Raft → Option (Raft × Raft × Bool)
send_append_entries_to env env' peer rf target = do
  (sent, asked) ← prepare_append peer rf
  elim asked [
    | none ↦ some (sent, target, false)
    | some args ↦ do
      (f, reply, acts) ← append_entries env' args target
      (l, ok, acts') ← handle_append_reply env peer args (some reply) sent
      some (clear_in_flight peer l, f, ok)
  ]

-- At most so many rounds, until one is accepted.
unfoldable pub replicate_to : ℕ → Env → Env → NodeId → Raft → Raft → Option (Raft × Raft × Bool)
replicate_to zero env env' peer rf target = some (rf, target, false)
replicate_to (suc rounds) env env' peer rf target = do
  (l, f, ok) ← send_append_entries_to env env' peer rf target
  elim ok [ true ↦ some (l, f, true) | false ↦ replicate_to rounds env env' peer l f ]
