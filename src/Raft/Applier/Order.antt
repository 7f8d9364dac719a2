-- ===== src/Raft/Applier/Order.antt =====
-- The applier applies each committed command exactly once, in the order of the log.
use raft_thesis.Base.{
  Bool-cases, List, Option, Option-cases, [], ap, append-nil, arith, dec_lt, drop, drop-suc,
  if◌then◌else◌, inl, inr, none, refl, some, sym, take, take-add, ℕ, ◌++◌, ◌+◌, ◌-◌, ◌∙◌, ◌∷◌, ◌≡◌,
  ◌≤◌,
}
use raft_thesis.Raft.Applier.{
  Applying, applier_round, apply_batch, apply_entry, finish_batch, take_batch,
}
use raft_thesis.Raft.Membership.{entry_type_changes_membership}
use raft_thesis.Raft.Node.{Raft}
use raft_thesis.Raft.Node.Core.{IsSound}
use raft_thesis.Raft.Types.{Error, LogEntry, LogIndex}

-- The commands of the entries, in order: configuration entries and no-ops have none.
abbrev pub commands : List LogEntry → List (List ℕ)
commands [] = []
commands (e ∷ es) =
    let rest = commands es in
    if entry_type_changes_membership e.type
    then rest
    else elim e.command [ none ↦ rest | some cmd ↦ cmd ∷ rest ]

module _ {ℓ} {S : Type ℓ} (run : S → List ℕ → S × Option Error) where
  -- The state machine alone, over a list of commands.
  abbrev pub run_all : S → List (List ℕ) → S
  run_all s [] = s
  run_all s (cmd ∷ cmds) = run_all (run s cmd).0 cmds

  run_all-append :
      (s : S) (xs ys : List (List ℕ)) → run_all s (xs ++ ys) ≡ run_all (run_all s xs) ys
  run_all-append s [] ys = refl
  run_all-append s (x ∷ xs) ys = run_all-append (run s x).0 xs ys

  commands-append : (xs ys : List LogEntry) → commands (xs ++ ys) ≡ commands xs ++ commands ys
  commands-append [] ys = refl
  commands-append (x ∷ xs) ys = ground (arith, commands-append xs ys)

  apply_entry-machine :
      (index : LogIndex) (e : LogEntry) (es : List LogEntry) (a : Applying S)
      → run_all (apply_entry (some run) index e a).machine (commands es)
        ≡ run_all a.machine (commands (e ∷ es))
  unfolding apply_entry
  apply_entry-machine index e es a = elim (Bool-cases (entry_type_changes_membership e.type)) [
    | inl skip ↦ rw skip
    | inr normal ↦
        rw normal (elim (Option-cases e.command) [ inl nil' ↦ rw nil' | inr (cmd, p) ↦ rw p ])
  ]

  -- A batch runs the machine over its commands.
  pub apply_batch-machine :
      (index : LogIndex) (es : List LogEntry) (a : Applying S)
      → (apply_batch (some run) index es a).machine ≡ run_all a.machine (commands es)
  unfolding apply_batch
  apply_batch-machine index [] a = refl
  apply_batch-machine index (e ∷ es) a =
      apply_batch-machine (index + 1) es (apply_entry (some run) index e a)
      ∙ apply_entry-machine index e es a

  -- The machine has run the commands of the entries 1 to last_applied, from its initial state.
  abbrev pub IsCurrent : S → Raft → S → Type ℓ
  IsCurrent s0 rf s = s ≡ run_all s0 (commands (take rf.last_applied (drop 1 rf.log)))

  -- One round of the applier on a sound node.
  pub record Applied (s0 : S) (rf f : Raft) (s : S) : Type ℓ where
    pub current : IsCurrent s0 f s
    pub done : f.last_applied ≡ rf.commit_index
    pub log : f.log ≡ rf.log

  finish_batch-fields :
      (commit : LogIndex) (rf : Raft)
      → rf.last_applied ≤ commit
      → ((finish_batch (some run) commit rf).last_applied ≡ commit)
        × ((finish_batch (some run) commit rf).log ≡ rf.log)
  unfolding finish_batch
  finish_batch-fields commit rf h = ground arith

  take_batch-some :
      (rf : Raft)
      → IsSound rf
      → (es : List LogEntry) × (take_batch rf ≡ some es)
        × (take rf.last_applied (drop 1 rf.log) ++ es ≡ take rf.commit_index (drop 1 rf.log))
  unfolding take_batch
  take_batch-some rf s = elim (dec_lt rf.last_applied rf.commit_index) [
    | no idle ↦
        let e : rf.last_applied ≡ rf.commit_index = omega (arith, s.applied) in
        ([], ground arith, rw e (append-nil _))
    | yes work ↦
        let n = rf.commit_index - rf.last_applied in
        let e : rf.last_applied + n ≡ rf.commit_index = omega arith in
        (
          take n (drop (rf.last_applied + 1) rf.log),
          ground (arith, s.committed),
          rw (drop-suc rf.last_applied rf.log)
              (take-add rf.last_applied n (drop 1 rf.log) ∙ ap (λ k. take k (drop 1 rf.log)) e),
        )
  ]

  -- On a sound node, with a machine that is current, one round of the applier returns; it applies the
  -- commands between the old last_applied and the commit index, each once and in order, so that the
  -- machine is current again, and last_applied is the commit index.
  pub applier_round-Applied :
      (s0 : S) (rf : Raft) (s : S)
      → IsSound rf
      → IsCurrent s0 rf s
      → (f : Raft) × (t : S) × (applier_round (some run) rf s ≡ some (f, t)) × Applied s0 rf f t
  unfolding applier_round
  applier_round-Applied s0 rf s sound current =
      let (es, p, whole) = take_batch-some rf sound in
      let before : Applying S = record { machine = s; futures = rf.apply_futures } in
      let after = apply_batch (some run) (rf.last_applied + 1) es before in
      let rf' = record rf { apply_futures = after.futures } in
      let (done, log) = finish_batch-fields rf.commit_index rf' sound.applied in
      (
        finish_batch (some run) rf.commit_index rf',
        after.machine,
        rw p,
        record {
          current =
              apply_batch-machine (rf.last_applied + 1) es before
              ∙ ap (λ m. run_all m (commands es)) current
              ∙ sym (
                  run_all-append s0 (commands (take rf.last_applied (drop 1 rf.log))) (commands es))
              ∙ ap (run_all s0) (sym (commands-append (take rf.last_applied (drop 1 rf.log)) es))
              ∙ ap (λ l. run_all s0 (commands l)) whole
              ∙ rw (done, log);
          done = done;
          log = log;
        },
      )
