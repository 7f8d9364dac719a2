-- ===== src/Raft/System/Encoding.antt =====
-- What an AppendEntries call encodes while the sender's log only grows.
use raft_thesis.Raft.Node.{Raft}
