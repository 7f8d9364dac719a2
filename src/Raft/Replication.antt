-- ===== src/Raft/Replication.antt =====
-- raft-consensus/internal/raft/replication.go: replication from the leader's side. sendAppendEntries
-- holds the lock in three sections: it prepares the request, takes the reply, and clears the flag.
pub mod Commit
pub mod Backup
pub mod Success
use raft_thesis.Base.{
  int_eq, Bool, List, Map, Option, [], drop, false, get_elem?, get_or, if◌then◌else◌, insert, leb,
  length, lookup, ltb, none, not, some, suc, true, zero, ℕ, ◌&&◌, ◌+◌, ◌-◌, ◌==◌, ◌=?◌, ◌>>=◌, ◌∷◌,
}
use raft_thesis.Raft.Node.{Raft, get_last_log_info, is_voter, quorum_votes, term_at}
use raft_thesis.Raft.Transitions.{become_follower}
use raft_thesis.Raft.Types.{
  Action, AppendEntriesArgs, AppendEntriesReply, Env, LogEntry, LogIndex, NodeId, Peer, Term,
  is_leader, sub_u64, u64, wake_applier,
}

-- p != nil && p.Client != nil
abbrev pub has_client : Option Peer → Bool
has_client none = false
has_client (some p) = elim p.client [ none ↦ false | some c ↦ true ]

-- The first section: nothing to send, or the arguments of the call, with the entries that the slice of
-- the log shows at this moment; encode_append has what it shows when the call encodes them.
unfoldable pub prepare_append : NodeId → Raft → Option (Raft × Option AppendEntriesArgs)
prepare_append peer_id rf =
    if not (is_leader rf.state)
    then some (rf, none)
    else if not (has_client (lookup peer_id rf.peers))
    then some (rf, none)
    else if get_or (lookup peer_id rf.append_in_flight) false
    then some (rf, none)
    else (do
      let next_idx = get_or (lookup peer_id rf.next_index) 0
      let last_idx = (get_last_log_info rf).0
      let prev = sub_u64 next_idx 1
      prev_term ← term_at rf.log prev
      some (
        record rf { append_in_flight = insert peer_id true rf.append_in_flight },
        some (record {
          term = rf.current_term;
          leader_id = rf.id;
          prev_log_index = prev;
          prev_log_term = prev_term;
          entries = if leb next_idx last_idx then drop next_idx rf.log else [];
          leader_commit = rf.commit_index;
        }),
      ))

-- The entries are a slice of the log, which shares the log's array: at a position where the log has an
-- entry now, the slice has that entry; behind the log's end it has what it had.
unfoldable pub read_slice : LogIndex → List LogEntry → List LogEntry → List LogEntry
read_slice start log [] = []
read_slice start log (e ∷ es) = get_or (get_elem? log start) e ∷ read_slice (start + 1) log es

-- The call encodes the arguments after the lock is given back, when the node's log is `log`.
unfoldable pub encode_append : List LogEntry → AppendEntriesArgs → AppendEntriesArgs
unfolding read_slice
encode_append log args = record args {
  entries = read_slice (args.prev_log_index + 1) log args.entries;
}

-- The voters other than this node whose log is known to match up to n.
unfoldable pub matching_voters : NodeId → Map NodeId LogIndex → LogIndex → List NodeId → ℕ
matching_voters self known n [] = 0
matching_voters self known n (id ∷ ids) =
    let rest = matching_voters self known n ids in
    if id =? self then rest else if leb n (get_or (lookup id known) 0) then suc rest else rest

unfoldable pub match_count : Raft → LogIndex → ℕ
unfolding matching_voters
match_count rf n =
    (if is_voter rf rf.id then 1 else 0) + matching_voters rf.id rf.match_index n rf.voter_members

-- The loop of updateCommitIndex, with the rounds left, the index n and the commit index so far.
unfoldable pub commit_scan : Raft → ℕ → ℕ → LogIndex → LogIndex → Option LogIndex
commit_scan rf quorum zero n commit = some commit
commit_scan rf quorum (suc rounds) n commit = do
  term ← term_at rf.log n
  commit_scan rf quorum rounds (n + 1)
      (if term == rf.current_term && leb quorum (match_count rf n) then n else commit)

unfoldable pub update_commit_index : Raft → Option (Raft × List Action)
update_commit_index rf = do
  let start = u64 (rf.commit_index + 1)
  let last = (get_last_log_info rf).0
  commit ← commit_scan rf (quorum_votes rf) (last + 1 - start) start rf.commit_index
  let committed = record rf { commit_index = commit }
  some (committed, if ltb rf.last_applied commit then wake_applier ∷ [] else [])

-- From the end of the log back to index 1: one past the last entry of the term, if there is one.
unfoldable pub find_term_end : List LogEntry → Term → LogIndex → Option (Option LogIndex)
find_term_end log term zero = some none
find_term_end log term (suc i) =
    let back = find_term_end log term i in
    do
      here ← term_at log (suc i)
      if here == term then some (some (suc i + 1)) else if ltb here term then some none else back

unfoldable pub next_after_conflict : AppendEntriesReply → Raft → Option LogIndex
next_after_conflict reply rf = if reply.conflict_term == 0 then some reply.conflict_index else (do
  found ← find_term_end rf.log reply.conflict_term (get_last_log_info rf).0
  some (get_or found reply.conflict_index))

back_up : NodeId → AppendEntriesReply → Raft → Option Raft
back_up peer_id reply rf = do
  next ← next_after_conflict reply rf
  some (record rf { next_index = insert peer_id (if ltb next 1 then 1 else next) rf.next_index })

pub record_match : NodeId → LogIndex → Raft → Option (Raft × List Action)
record_match peer_id matched rf =
    if ltb (get_or (lookup peer_id rf.match_index) 0) matched
    then update_commit_index (record rf {
      match_index = insert peer_id matched rf.match_index;
      next_index = insert peer_id (u64 (matched + 1)) rf.next_index;
    })
    else some (rf, [])

-- The second section; `none` is an error or a timeout. The Boolean is what the function returns.
unfoldable pub handle_append_reply :
    Env
    → NodeId
    → AppendEntriesArgs
    → Option AppendEntriesReply
    → Raft
    → Option (Raft × Bool × List Action)
unfolding back_up record_match
handle_append_reply env peer_id args none rf = some (rf, false, [])
handle_append_reply env peer_id args (some reply) rf =
    if not (is_leader rf.state)
    then some (rf, false, [])
    else if ltb rf.current_term reply.term
    then (do down ← become_follower env reply.term rf; some (down, false, []))
    else if reply.success
    then (do
      matched ← record_match peer_id (u64 (args.prev_log_index + length args.entries)) rf
      some (
        record (matched.0) {
          last_heartbeat_ack = insert peer_id env.now (matched.0).last_heartbeat_ack;
        },
        true,
        matched.1,
      ))
    else (do backed ← back_up peer_id reply rf; some (backed, false, []))

-- The deferred third section.
unfoldable pub clear_in_flight : NodeId → Raft → Raft
clear_in_flight peer_id rf = record rf {
  append_in_flight = insert peer_id false rf.append_in_flight;
}
