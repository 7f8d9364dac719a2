-- ===== src/Raft/Futures.antt =====
-- raft-consensus/internal/raft/futures.go: the futures that wait for an index to be applied. A future
-- is found by its index; a waiter keeps its future in the map until it leaves.
pub mod Resolve
use raft_thesis.Base.{
  nat_eq, Bool, List, Map, Option, [], delete, false, if◌then◌else◌, insert, int_beq, leb, lookup,
  ltb, none, pos, some, true, ◌++◌, ◌+ℤ◌, ◌-ℤ◌, ◌||◌, ◌∷◌,
}
use raft_thesis.Raft.Node.{Raft}
use raft_thesis.Raft.Types.{Error, IndexFuture, LogIndex, context_done}

abbrev fresh_future : IndexFuture
fresh_future = record { resolved = false; err = none; waiters = pos 0 }

-- getFuture: the future of an index, and the map that holds it.
unfoldable pub get_future :
    LogIndex → Map LogIndex IndexFuture → IndexFuture × Map LogIndex IndexFuture
get_future index futures = elim (lookup index futures) [
  | some f ↦ (f, futures)
  | none ↦ (fresh_future, insert index fresh_future futures)
]

-- One round of the loop of resolveFutures.
unfoldable pub resolve_one : LogIndex → LogIndex × IndexFuture → List (LogIndex × IndexFuture)
resolve_one up_to (idx, f) =
    if ltb up_to idx || f.resolved
    then (idx, f) ∷ []
    else if int_beq f.waiters (pos 0)
    then []
    else (idx, record f { resolved = true }) ∷ []

unfoldable pub resolve_futures : LogIndex → Map LogIndex IndexFuture → Map LogIndex IndexFuture
unfolding resolve_one
resolve_futures up_to [] = []
resolve_futures up_to (f ∷ rest) = resolve_one up_to f ++ resolve_futures up_to rest

-- The first section of waitForApplied: done at once, or one more waiter on the future.
unfoldable pub wait_begin : LogIndex → Raft → Raft × Bool
wait_begin index rf =
    if leb index rf.last_applied
    then (rf, true)
    else (let (f, futures) = get_future index rf.apply_futures in
        (
          record rf {
            apply_futures = insert index (record f { waiters = f.waiters +ℤ pos 1 }) futures;
          },
          false,
        ))

-- Its result once the channel is closed or the context is done; `none` while it blocks.
unfoldable pub wait_result : Bool → LogIndex → Raft → Option (Option Error)
wait_result ended index rf =
    if ended then some (some context_done) else elim (lookup index rf.apply_futures) [
      | none ↦ none
      | some f ↦ if f.resolved then some f.err else none
    ]

-- Its deferred last section.
unfoldable pub wait_end : LogIndex → Raft → Raft
wait_end index rf = elim (lookup index rf.apply_futures) [
  | none ↦ rf
  | some f ↦
      let left = f.waiters -ℤ pos 1 in
      record rf {
        apply_futures =
            if int_beq left (pos 0)
            then delete index rf.apply_futures
            else insert index (record f { waiters = left }) rf.apply_futures;
      }
]
