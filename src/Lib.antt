-- ===== src/Lib.antt =====
-- A model of the Raft consensus library and the key-value store over it in
-- raft-consensus/internal, and the theorems that make it correct.
--
-- The program. A node of raft-consensus/internal/raft keeps a log of commands that is replicated
-- over a cluster. Two tickers start elections and heartbeats (run.go); RequestVote and
-- AppendEntries of the other nodes arrive as calls (service.go); one goroutine for each peer
-- carries the calls that this node makes (election.go, replication.go); the applier hands
-- committed commands to a state machine (replication.go); clients submit commands, read through a
-- quorum and change the members (raft.go, readindex.go, membership.go). All of them share one
-- struct under one mutex. The key-value service of raft-consensus/internal/kv submits its
-- commands to a node and is its state machine, over a store of raft-consensus/internal/storage;
-- raft-consensus/internal/network carries the calls between nodes.
--
-- How it is modelled. A part of the code that holds the mutex from Lock to Unlock is a function
-- from the state to the state; what it starts without waiting (a call to a peer, a broadcast on
-- the condition) is a list of actions, and a call that it makes is split into the section before
-- the call and the section that takes its reply. An index out of range, and a call of rand.Int64N
-- with an argument that is not positive, panic in Go: they are `none` here, so a theorem that a
-- function returns also says that it does not panic. Terms and indexes are 64-bit: their sums are
-- reduced by `u64`. Durations are integers of nanoseconds. A map is an association list, and the
-- order of Go's iteration over a map is the order of that list; no theorem depends on it. A node,
-- an entry or a message is a record with the fields of the Go struct, its names in lower case
-- with underscores.
--
-- What is a parameter. `Env` of Raft/Types.antt holds what one section takes from outside: the
-- clock, the random number, the encoding of configuration entries, and the peer factory;
-- Raft/Membership/Payloads.antt fills the encoding with the functions of config_log.go, over
-- json.Marshal and json.Unmarshal of the two payloads. The applier takes the state machine as a
-- section parameter. The process of raft-consensus/cmd/node takes what it does to strings, files
-- and the listener.
--
-- The files.
-- - Base.antt and its children: Boolean tests and lists over the native numbers, signed integers,
--   maps.
-- - Raft/Types.antt, Raft/Config.antt: types.go, errors.go, config.go. Raft/Config/Defaults.antt
--   has the theorems on normalize.
-- - Raft/Node.antt: the struct Raft of raft.go, util.go, and what reads the state only.
--   Raft/Node/Core.antt has soundness, the invariant of a node: the applied index does not pass
--   the committed one, that is in the log, and the election timeouts are a positive range apart.
--   Raft/Node/Quorum.antt has the overlap of quorums.
-- - Raft/Membership.antt: rebuildVolatilePeers and the tests of membership.go.
--   Raft/Membership/Progress.antt has what becomes of the progress records,
--   Raft/Membership/InForce.antt what the members in force are, and Raft/Membership/Payloads.antt
--   config_log.go.
-- - Raft/Transitions.antt: becomeFollower, becomeCandidate, becomeLeader of state.go.
--   Raft/Transitions/Office.antt has what becomeLeader establishes.
-- - Raft/Service.antt: AppendEntries and RequestVote of service.go. Its children have the loop
--   over the entries (Merging, Agreement, Stability), the consistency check (Conflict), the
--   safety of AppendEntries (Append, Replicates) and of votes (Votes).
-- - Raft/Election.antt: startElection, its replies and shouldStartElection.
--   Raft/Election/Leadership.antt has who becomes leader, Raft/Election/Timing.antt when an
--   election starts.
-- - Raft/Replication.antt: sendAppendEntries and updateCommitIndex. Raft/Replication/Commit.antt
--   has what is committed, Raft/Replication/Backup.antt what a refusal does,
--   Raft/Replication/Success.antt that a success is handled.
-- - Raft/Exchange.antt: sendAppendEntries with its call, and rounds of it.
--   Raft/Exchange/Rounds.antt and Accepted.antt have one round, Raft/Exchange/Ends.antt that the
--   rounds end.
-- - Raft/Futures.antt: futures.go. Raft/Futures/Resolve.antt has what resolveFutures does to each
--   future.
-- - Raft/Applier.antt: applier of replication.go. Raft/Applier/Order.antt has the order of the
--   commands, Raft/Applier/Waiters.antt who is woken.
-- - Raft/ReadIndex.antt: readindex.go. Raft/ReadIndex/Quorum.antt has what the quorum round returns.
-- - Raft/Run.antt: run.go. Raft/Api.antt: NewRaft, Submit, AddNode, RemoveNode, LeaderHint of
--   raft.go and the catch-up promoter of membership.go. Raft/Api/Startup.antt has what a node
--   starts as, Raft/Api/Current.antt when its members are those of its log, Raft/Api/Members.antt
--   what AddNode and RemoveNode do to the members.
-- - Raft/Voting.antt and its children: all critical sections as a step relation on a node with
--   the record of its votes, and the invariant behind the votes of one term.
--   Raft/Voting/Cluster.antt has who voted for whom.
-- - Raft/System.antt and its children: a cluster with its calls, as a step relation on all the
--   nodes. A vote call is asked, answered and used once or lost; an AppendEntries call is
--   prepared, waits and is encoded, and may then arrive late, again or never. The entries of a
--   waiting call share the array of the sender's log (encode_append of Raft/Replication.antt);
--   the runs considered overwrite none of them, and Raft/System/Wire.antt has that what is
--   encoded is then what was prepared, and Raft/System/Encoding.antt that a log which only grows
--   overwrites nothing. Raft/System/Invariant.antt has what always holds, Carry, Solo and Receipt
--   what a section does to a log's terms, Local, Standing, Calls and Counting that each turn
--   keeps the invariant, Safety election safety. For the logs, Writing has the history of what
--   the leader of each term has written, Matching that all logs follow it, Shapes, Copies,
--   Founded and Sending what the sections do to a log, Quiet and Electing that each turn keeps
--   it, SameLogs Log Matching.
-- - Examples.antt and its children: the theorems at concrete nodes and messages.
-- - Storage.antt: store.go, memory.go and disk.go of raft-consensus/internal/storage; the file
--   and the JSON codec are parameters. Storage/Recovery.antt has what survives a loss of power
--   and a restart.
-- - Kv.antt: op.go, machine.go and service.go of raft-consensus/internal/kv. Kv/Machine.antt has
--   the machine over any store that keeps the contract, and that both stores do. Kv/Replica.antt
--   has the machine behind the applier. Kv/Http.antt has the answers of http.go,
--   Kv/Http/Answers.antt what their status says.
-- - Network.antt: rpc.go of raft-consensus/internal/network. Network/Pool.antt and
--   Network/Backoff.antt have when a slot dials; Network/Switches.antt has the switches of
--   fault_rpc_client.go, raft_rpc_server_adapter.go and bidirectional_partition.go.
-- - NodeCommand.antt: config.go and the level of main.go of raft-consensus/cmd/node;
--   NodeCommand/Build.antt has build.go and main. NodeCommand/Founding.antt and Addresses.antt
--   have which ids and addresses found a cluster, NodeCommand/Shutdown.antt what a process
--   closes.
--
-- Loops. The loops over the log are recursions on the index or on the number of rounds left,
-- which is the length of the range; none has a fuel that could run out. The rounds of
-- replicate_to in Raft/Exchange.antt are bounded by a number, and the next index of the peer is
-- enough of it. The loops of ReadIndex go over the list of what arrives.
--
-- What is not modelled: the log lines, the goroutines and tickers themselves, net/rpc, net/http
-- and encoding/json, the snapshots of fsm.go, which nothing uses, the load generator of
-- raft-consensus/cmd/bench, and the test cluster.
pub mod Base
pub mod Raft
pub mod Storage
pub mod Kv
pub mod Network
pub mod NodeCommand
mod Examples
