-- ===== src/Raft/Applier.antt =====
-- raft-consensus/internal/raft/replication.go, applier: committed entries go to the state machine in
-- order. The state machine is a parameter: its state, and what Apply does to it.
pub mod Order
pub mod Waiters
use raft_thesis.Base.{
  nat_eq, List, Map, Option, [], drop, if◌then◌else◌, insert, leb, length, ltb, none, some, take, ℕ,
  ◌+◌, ◌-◌, ◌>>=◌, ◌∷◌,
}
use raft_thesis.Raft.Futures.{get_future, resolve_futures}
use raft_thesis.Raft.Membership.{entry_type_changes_membership}
use raft_thesis.Raft.Node.{Raft}
use raft_thesis.Raft.Types.{Command, Error, IndexFuture, LogEntry, LogIndex}

-- The batch that the first section takes, from behind last_applied up to the commit index. `some []`
-- is the wait; a slice past the log is a fault.
unfoldable pub take_batch : Raft → Option (List LogEntry)
take_batch rf =
    if leb rf.commit_index rf.last_applied
    then some []
    else if leb (length rf.log) rf.commit_index
    then none
    else some (take (rf.commit_index - rf.last_applied) (drop (rf.last_applied + 1) rf.log))

abbrev fail_future : LogIndex → Option Error → Map LogIndex IndexFuture → Map LogIndex IndexFuture
fail_future index none futures = futures
fail_future index (some e) futures =
    let (f, got) = get_future index futures in insert index (record f { err = some e }) got

-- The machine and the futures while a batch is applied.
pub record Applying {ℓ} (S : Type ℓ) : Type ℓ where
  pub machine : S
  pub futures : Map LogIndex IndexFuture

module _ {ℓ} {S : Type ℓ} (fsm : Option (S → List ℕ → S × Option Error)) where
  apply_command : LogIndex → Command → Applying S → Applying S
  unfolding get_future
  apply_command index none a = a
  apply_command index (some cmd) a = elim fsm [
    | none ↦ a
    | some run ↦
        let (next, failure) = run a.machine cmd in
        record { machine = next; futures = fail_future index failure a.futures }
  ]

  -- One round of the loop over the batch: a configuration entry is skipped.
  unfoldable pub apply_entry : LogIndex → LogEntry → Applying S → Applying S
  unfolding apply_command
  apply_entry index entry a =
      if entry_type_changes_membership entry.type then a else apply_command index entry.command a

  unfoldable pub apply_batch : LogIndex → List LogEntry → Applying S → Applying S
  apply_batch index [] a = a
  apply_batch index (entry ∷ entries) a =
      apply_batch (index + 1) entries (apply_entry index entry a)

  -- The last section: publish the batch and resolve the futures up to it.
  unfoldable pub finish_batch : LogIndex → Raft → Raft
  finish_batch commit rf =
      if ltb rf.last_applied commit
      then record rf {
        last_applied = commit;
        apply_futures = resolve_futures commit rf.apply_futures;
      }
      else rf

  -- One round of the applier with nothing in between its sections.
  unfoldable pub applier_round : Raft → S → Option (Raft × S)
  applier_round rf machine = do
    entries ← take_batch rf
    let applied =
        apply_batch (rf.last_applied + 1) entries
          (record { machine = machine; futures = rf.apply_futures })
    some (
      finish_batch rf.commit_index (record rf { apply_futures = applied.futures }),
      applied.machine,
    )
