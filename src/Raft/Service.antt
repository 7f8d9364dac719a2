-- ===== src/Raft/Service.antt =====
-- raft-consensus/internal/raft/service.go: the two RPC handlers. Each runs in one critical section and
-- fills a reply that the caller has zeroed.
pub mod Merging
pub mod Agreement
pub mod Stability
pub mod Conflict
pub mod Append
pub mod Replicates
pub mod Votes
use raft_thesis.Base.{
  int_eq, Bool, List, Option, [], false, if◌then◌else◌, leb, length, ltb, ltb_ℤ, min, none, not,
  some, sub_ℕ, suc, take, true, zero, ◌&&◌, ◌++◌, ◌+◌, ◌==◌, ◌=?◌, ◌>>=◌, ◌||◌, ◌∷◌,
}
use raft_thesis.Raft.Membership.{entry_type_changes_membership, rebuild_volatile_peers}
use raft_thesis.Raft.Node.{Raft, get_last_log_info, is_voter, reset_election_timer, term_at}
use raft_thesis.Raft.Transitions.{become_follower}
use raft_thesis.Raft.Types.{
  Action, AppendEntriesArgs, AppendEntriesReply, Env, LogEntry, LogIndex, RequestVoteArgs,
  RequestVoteReply, Term, no_node, u64, wake_applier,
}

abbrev pub answer : Term → Bool → AppendEntriesReply
answer term success = record {
  term = term;
  success = success;
  conflict_index = 0;
  conflict_term = 0;
}

abbrev pub refusal : Term → LogIndex → Term → AppendEntriesReply
refusal term index conflict = record {
  term = term;
  success = false;
  conflict_index = index;
  conflict_term = conflict;
}

-- Back to the first index, from 1 on, of the run of entries with the term at the index.
unfoldable pub conflict_start : List LogEntry → Term → LogIndex → Option LogIndex
conflict_start log term zero = some zero
conflict_start log term (suc zero) = some (suc zero)
conflict_start log term (suc (suc n)) =
    let back = conflict_start log term (suc n) in
    do before ← term_at log (suc n); if before == term then back else some (suc (suc n))

-- The log, and needVolatileRebuild, in the loop over the new entries.
pub record Merge : Type 0 where
  pub log : List LogEntry
  pub rebuild : Bool

unfoldable pub merge_entry : LogIndex → LogEntry → Merge → Option Merge
merge_entry index entry m =
    let changes = entry_type_changes_membership entry.type in
    if ltb index (length m.log)
    then (do
      term ← term_at m.log index
      if term == entry.term
          then some (record m { rebuild = changes || m.rebuild })
          else some (record { log = take index m.log ++ entry ∷ []; rebuild = true }))
    else some (record { log = m.log ++ entry ∷ []; rebuild = changes || m.rebuild })

unfoldable pub merge_entries : LogIndex → List LogEntry → Merge → Option Merge
merge_entries index [] m = some m
merge_entries index (entry ∷ entries) m = do
  next ← merge_entry index entry m
  merge_entries (u64 (index + 1)) entries next

unfoldable pub store_entries : Env → AppendEntriesArgs → Raft → Option Raft
store_entries env args rf = do
  merged ←
      merge_entries (u64 (args.prev_log_index + 1)) args.entries
        (record { log = rf.log; rebuild = false })
  let stored = record rf { log = merged.log }
  some (
      if merged.rebuild
      then rebuild_volatile_peers env (get_last_log_info stored).0 stored
      else stored)

unfoldable pub follow_commit : AppendEntriesArgs → Raft → Raft × List Action
follow_commit args rf =
    if ltb rf.commit_index args.leader_commit
    then (
      record rf {
        commit_index = min args.leader_commit (u64 (args.prev_log_index + length args.entries));
      },
      wake_applier ∷ [],
    )
    else (rf, [])

-- The consistency check at prev_log_index: a refusal, or nothing against the entries.
unfoldable pub check_consistency : AppendEntriesArgs → Raft → Option (Option AppendEntriesReply)
check_consistency args rf =
    let last = (get_last_log_info rf).0 in
    if ltb last args.prev_log_index
    then some (some (refusal rf.current_term (u64 (last + 1)) 0))
    else (do
      term ← term_at rf.log args.prev_log_index
      if term == args.prev_log_term then some none else (do
        start ← conflict_start rf.log term args.prev_log_index
        some (some (refusal rf.current_term start term))))

unfoldable pub accept_entries :
    Env → AppendEntriesArgs → Raft → Option (Raft × AppendEntriesReply × List Action)
accept_entries env args rf = do
  refused ← check_consistency args rf
  elim refused [
    | some reply ↦ some (rf, reply, [])
    | none ↦ do
      stored ← store_entries env args rf
      let (done, actions) = follow_commit args stored
      some (done, answer rf.current_term true, actions)
  ]

-- becomeFollower, if the term is newer.
unfoldable pub catch_up_term : Env → Term → Raft → Option Raft
catch_up_term env term rf =
    if ltb rf.current_term term then become_follower env term rf else some rf

unfoldable pub append_entries :
    Env → AppendEntriesArgs → Raft → Option (Raft × AppendEntriesReply × List Action)
unfolding accept_entries
append_entries env args rf =
    if ltb args.term rf.current_term then some (rf, answer rf.current_term false, []) else (do
      touched ← reset_election_timer env rf
      current ← catch_up_term env args.term touched
      accept_entries env args (record current { hint_leader_id = args.leader_id }))

abbrev pub vote : Term → Bool → RequestVoteReply
vote term granted = record { term = term; vote_granted = granted }

-- The CheckQuorum guard: a leader other than the candidate was heard of within the minimum timeout.
unfoldable pub leader_in_contact : Env → RequestVoteArgs → Raft → Bool
leader_in_contact env args rf =
    ltb rf.current_term args.term
    && not (rf.hint_leader_id =? no_node)
    && not (rf.hint_leader_id =? args.candidate_id)
    && ltb_ℤ (sub_ℕ env.now rf.last_activity) rf.cfg.min_election_timeout

unfoldable pub is_log_up_to_date : RequestVoteArgs → LogIndex × Term → Bool
is_log_up_to_date args (last_index, last_term) =
    ltb last_term args.last_log_term
    || (args.last_log_term == last_term && leb last_index args.last_log_index)

unfoldable pub decide_vote : Env → RequestVoteArgs → Raft → Option (Raft × RequestVoteReply)
decide_vote env args rf =
    if not (is_voter rf rf.id)
    then some (rf, vote rf.current_term false)
    else if not (rf.voted_for =? no_node) && not (rf.voted_for =? args.candidate_id)
    then some (rf, vote rf.current_term false)
    else if is_log_up_to_date args (get_last_log_info rf)
    then (do
      voted ← reset_election_timer env (record rf { voted_for = args.candidate_id })
      some (voted, vote rf.current_term true))
    else some (rf, vote rf.current_term false)

unfoldable pub request_vote : Env → RequestVoteArgs → Raft → Option (Raft × RequestVoteReply)
request_vote env args rf =
    if ltb args.term rf.current_term
    then some (rf, vote rf.current_term false)
    else if leader_in_contact env args rf
    then some (rf, vote rf.current_term false)
    else (do current ← catch_up_term env args.term rf; decide_vote env args current)
