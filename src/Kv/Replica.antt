-- ===== src/Kv/Replica.antt =====
-- A replica: the applier of raft-consensus/internal/raft over the key-value machine with a memory store.
-- Seen from outside it is the committed commands, of which the last one that puts a key counts.
use raft_thesis.Base.{
  string_eq, Bool, List, Option, String, [], ap, arith, drop, false, if◌then◌else◌, inl, inr,
  lookup, none, not, refl, some, sym, take, true, ℕ, ◌&&◌, ◌=?◌, ◌∙◌, ◌∷◌, ◌≡◌, ◌≢◌, ◌⊎◌,
}
use raft_thesis.Kv.{
  CommandCodec, KvCommand, KvError, kv_key_not_found, machine_apply, machine_get, op_put,
  validate_command,
}
use raft_thesis.Kv.Machine.{
  Applies, invalid, machine_apply-Applies, machine_get_after, memory_store, memory_store-IsLawful,
  stored, undecoded, unstored,
}
use raft_thesis.Raft.Applier.{applier_round}
use raft_thesis.Raft.Applier.Order.{IsCurrent, applier_round-Applied, commands, run_all}
use raft_thesis.Raft.Node.{Raft}
use raft_thesis.Raft.Node.Core.{IsSound}
use raft_thesis.Raft.Types.{Error}
use raft_thesis.Storage.{MemoryStore, StoreError, memory_get, memory_put, new_memory_store}

module _ (codec : CommandCodec) where
  -- What a command puts at a key.
  abbrev pub put_of : String → List ℕ → Option String
  put_of key raw = elim (codec.unmarshal raw) [
    | none ↦ none
    | some c ↦ if c.type =? op_put && not (c.key =? "") && c.key =? key then some c.value else none
  ]

  abbrev or_else : Option String → Option String → Option String
  or_else none o = o
  or_else (some v) o = some v

  -- The last command that puts the key.
  abbrev pub last_write : String → List (List ℕ) → Option String
  last_write key [] = none
  last_write key (raw ∷ raws) = or_else (last_write key raws) (put_of key raw)

  abbrev pub answer_of : Option String → KvError ⊎ String → KvError ⊎ String
  answer_of none o = o
  answer_of (some v) o = inr v

  put_of-valid :
      (key : String) (raw : List ℕ) (c : KvCommand)
      → codec.unmarshal raw ≡ some c
      → validate_command c ≡ none
      → put_of key raw ≡ (if c.key =? key then some c.value else none)
  unfolding validate_command
  put_of-valid key raw c at good = rw (put_of, at) (ground (arith, good))

  put_of-invalid :
      (key : String) (raw : List ℕ) (c : KvCommand) (e : KvError)
      → codec.unmarshal raw ≡ some c
      → validate_command c ≡ some e
      → put_of key raw ≡ none
  unfolding validate_command
  put_of-invalid key raw c e at bad = rw (put_of, at) (ground (arith, bad))

  answer_of-if :
      (b : Bool) (v : String) (o : KvError ⊎ String)
      → (if b then inr v else o) ≡ answer_of (if b then some v else none) o
  answer_of-if true v o = refl
  answer_of-if false v o = refl

  memory_put_stores :
      (key value : String) (s t : MemoryStore) (e : StoreError)
      → memory_put key value s ≢ (t, some e)
  unfolding memory_put
  memory_put_stores key value s t e h = cc

  -- One command.
  apply-get :
      (key : String) (s t : MemoryStore) (raw : List ℕ) (o : Option KvError)
      → Applies codec memory_store s raw t o
      → machine_get codec memory_store key t
        ≡ answer_of (put_of key raw) (machine_get codec memory_store key s)
  apply-get key s _ raw _ (undecoded torn) =
      let nothing : put_of key raw ≡ none = rw (put_of, torn) refl in
      ap (λ w. answer_of w (machine_get codec memory_store key s)) (sym nothing)
  apply-get key s _ raw _ (invalid c e at bad) =
      ap (λ w. answer_of w (machine_get codec memory_store key s))
        (sym (put_of-invalid key raw c e at bad))
  apply-get key s t raw _ (stored c _ at good done') =
      machine_get_after codec memory_store key c.key c.value s t
        (memory_store-IsLawful.get_put c.key key c.value s t done')
      ∙ answer_of-if (c.key =? key) c.value (machine_get codec memory_store key s)
      ∙ ap (λ w. answer_of w (machine_get codec memory_store key s))
          (sym (put_of-valid key raw c at good))
  apply-get key s t raw _ (unstored c _ e at good failed) =
      absurd (memory_put_stores c.key c.value s t e failed)

  answer_of-or_else :
      (a b : Option String) (o : KvError ⊎ String)
      → answer_of a (answer_of b o) ≡ answer_of (or_else a b) o
  answer_of-or_else none b o = refl
  answer_of-or_else (some v) b o = refl

  module _ (to_error : KvError → Error) where
    -- Machine.Apply as the applier calls it.
    abbrev pub memory_machine : MemoryStore → List ℕ → MemoryStore × Option Error
    memory_machine s raw =
        let (t, failure) = machine_apply codec memory_store s raw in
        (t, elim failure [ none ↦ none | some e ↦ some (to_error e) ])

    run_all-get :
        (key : String) (s : MemoryStore) (raws : List (List ℕ))
        → machine_get codec memory_store key (run_all memory_machine s raws)
          ≡ answer_of (last_write key raws) (machine_get codec memory_store key s)
    run_all-get key s [] = refl
    run_all-get key s (raw ∷ raws) =
        let t = (machine_apply codec memory_store s raw).0 in
        run_all-get key t raws
        ∙ ap (answer_of (last_write key raws))
            (apply-get key s t raw _ (machine_apply-Applies codec memory_store s raw))
        ∙ answer_of-or_else (last_write key raws) (put_of key raw)
            (machine_get codec memory_store key s)

    new_memory_store-get :
        (key : String) → machine_get codec memory_store key new_memory_store ≡ inl kv_key_not_found
    unfolding machine_get memory_get new_memory_store lookup
    new_memory_store-get key = refl

    -- A replica that runs the key-value machine over a memory store, from a sound node whose machine is
    -- current: after a round of the applier, which returns, Get of any key answers the value of the last
    -- committed command that puts the key, or that there is none. So the log, the applier, the machine
    -- and the store together are a register for each key.
    pub applier_round-last_write :
        (rf : Raft) (s : MemoryStore)
        → IsSound rf
        → IsCurrent memory_machine new_memory_store rf s
        → (f : Raft) × (t : MemoryStore) × (applier_round (some memory_machine) rf s ≡ some (f, t))
          × ((key : String)
              → machine_get codec memory_store key t
                ≡ answer_of
                    (last_write key (commands (take rf.commit_index (drop 1 rf.log))))
                    (inl kv_key_not_found))
    applier_round-last_write rf s sound current =
        let (f, t, p, a) =
          applier_round-Applied memory_machine new_memory_store rf s sound current in
        (
          f,
          t,
          p,
          λ key.
              ap (machine_get codec memory_store key) (a.current ∙ whole f a.done a.log)
              ∙ run_all-get key new_memory_store (commands (take rf.commit_index (drop 1 rf.log)))
              ∙ ap (answer_of (last_write key (commands (take rf.commit_index (drop 1 rf.log)))))
                  (new_memory_store-get key),
        )
      where
        whole :
            (f : Raft)
            → f.last_applied ≡ rf.commit_index
            → f.log ≡ rf.log
            → run_all memory_machine new_memory_store
                (commands (take f.last_applied (drop 1 f.log)))
              ≡ run_all memory_machine new_memory_store
                  (commands (take rf.commit_index (drop 1 rf.log)))
        whole f e l = rw (e, l) refl
