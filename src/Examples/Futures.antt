-- ===== src/Examples/Futures.antt =====
-- A waiter for index 3 while the applier publishes index 4; nobody waits for index 2.
use raft_thesis.Base.{
  nat_eq, Map, [], arith, false, int_beq, lookup, none, pos, refl, some, ℕ, ◌∷◌, ◌≡◌,
}
use raft_thesis.Examples.{sample_node}
use raft_thesis.Raft.Applier.{finish_batch}
use raft_thesis.Raft.Applier.Waiters.{finish_batch-wait_result}
use raft_thesis.Raft.Futures.{resolve_futures, wait_result}
use raft_thesis.Raft.Futures.Resolve.{after_resolve, resolve_futures-lookup}
use raft_thesis.Raft.Types.{IndexFuture, LogIndex, apply_failed}

abbrev waiting : Map LogIndex IndexFuture
waiting =
    (2, record { resolved = false; err = none; waiters = pos 0 })
    ∷ (3, record { resolved = false; err = some (apply_failed 7); waiters = pos 2 })
    ∷ []

finish_batch-wait_result_example :
    wait_result false 3 (
      finish_batch {S = ℕ} none 4
        (record sample_node { last_applied = 1; apply_futures = waiting }))
    ≡ some (some (apply_failed 7))
unfolding lookup int_beq
finish_batch-wait_result_example =
    finish_batch-wait_result {S = ℕ} none 3 4
      (record sample_node { last_applied = 1; apply_futures = waiting })
      (record { resolved = false; err = some (apply_failed 7); waiters = pos 2 }) (refl, (refl, tt))
      refl refl (omega arith) (omega arith)

resolve_futures-lookup_example :
    lookup 2 (resolve_futures 4 waiting)
    ≡ elim (lookup 2 waiting) [ none ↦ none | some f ↦ after_resolve 4 2 f ]
unfolding lookup
resolve_futures-lookup_example = resolve_futures-lookup 4 2 waiting (refl, (refl, tt))
