-- ===== src/Raft/Applier/Waiters.antt =====
-- raft-consensus/internal/raft: the applier and the futures together.
use raft_thesis.Base.{
  nat_eq, Bool-cases, List, Option, false, inl, inr, int_beq, le→ltb_false, lookup, lt→ltb, pos,
  refl, some, true, ℕ, ◌<◌, ◌∙◌, ◌≡◌, ◌≤◌,
}
use raft_thesis.Raft.Applier.{finish_batch}
use raft_thesis.Raft.Futures.{resolve_futures, wait_result}
use raft_thesis.Raft.Futures.Resolve.{AreDistinct, after_resolve, resolve_futures-lookup}
use raft_thesis.Raft.Node.{Raft}
use raft_thesis.Raft.Types.{Error, IndexFuture, LogIndex}

released :
    (index commit : LogIndex) (f : IndexFuture)
    → int_beq f.waiters (pos 0) ≡ false
    → index ≤ commit
    → (g : IndexFuture) × (after_resolve commit index f ≡ some g)
      × (g.resolved ≡ true)
      × (g.err ≡ f.err)
released index commit f waits within =
    let past = le→ltb_false commit index within in
    elim (Bool-cases f.resolved) [
      | inl done ↦ (f, rw (past, done) refl, done, refl)
      | inr open_yet ↦ (record f { resolved = true }, rw (past, open_yet, waits) refl, refl, refl)
    ]

-- A waiter for an index that a round of the applier publishes, whose future is in a map without a key
-- twice, gets the error that the future holds.
pub finish_batch-wait_result {ℓ} :
    {S : Type ℓ} (fsm : Option (S → List ℕ → S × Option Error)) (index commit : LogIndex)
    (rf : Raft) (f : IndexFuture)
    → AreDistinct rf.apply_futures
    → lookup index rf.apply_futures ≡ some f
    → int_beq f.waiters (pos 0) ≡ false
    → rf.last_applied < commit
    → index ≤ commit
    → wait_result false index (finish_batch fsm commit rf) ≡ some f.err
unfolding wait_result finish_batch
finish_batch-wait_result fsm index commit rf f d at waits behind within =
    let (g, p, closed, same) = released index commit f waits within in
    let found : lookup index (resolve_futures commit rf.apply_futures) ≡ some g =
      resolve_futures-lookup commit index rf.apply_futures d ∙ rw at p in
    rw (lt→ltb rf.last_applied commit behind, found, closed, same) refl
