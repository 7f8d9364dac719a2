-- ===== src/Raft.antt =====
-- The consensus core, raft-consensus/internal/raft.
pub mod Types
pub mod Config
pub mod Node
pub mod Transitions
pub mod Membership
pub mod Service
pub mod Election
pub mod Replication
pub mod Futures
pub mod Applier
pub mod ReadIndex
pub mod Run
pub mod Api
pub mod Exchange
pub mod Voting
pub mod System
