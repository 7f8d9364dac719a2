-- ===== src/Kv/Machine.antt =====
-- raft-consensus/internal/kv/machine.go over any store that answers what was put, and the two stores of
-- raft-consensus/internal/storage, which both do.
use raft_thesis.Base.{
  Bool-cases, List, Option, Option-cases, String, ap, arith, if◌then◌else◌, inl, inr, insert, none,
  refl, some, string_eq, sym, ℕ, ◌=?◌, ◌≡◌, ◌≢◌, ◌⊎◌,
}
use raft_thesis.Kv.{
  CommandCodec, KvCommand, KvError, decode_command, decode_command_failed, encode_put, in_store,
  machine_apply, machine_get, op_put, validate_command,
}
use raft_thesis.Storage.{
  DiskStore, FileOps, MemoryStore, RecordCodec, Store, StoreError, disk_get, disk_put, memory_get,
  memory_put,
}
use raft_thesis.Storage.Recovery.{get_data-insert}

-- The contract of a store: a Put without an error changes what is got at its key and nothing else.
pub record IsLawful {S : Type 0} (store : Store S) : Type 0 where
  pub get_put :
      (key j : String) (value : String) (s t : S)
      → store.put key value s ≡ (t, none)
      → store.get j t ≡ (if key =? j then inr value else store.get j s)

abbrev pub memory_store : Store MemoryStore
memory_store = record { put = memory_put; get = memory_get }

pub memory_store-IsLawful : IsLawful memory_store
unfolding memory_put memory_get
memory_store-IsLawful = record {
  get_put = λ key j value s t h.
      rw (sym (ap (λ (r : MemoryStore × Option StoreError). (r.0).values) h))
        (get_data-insert key j value s.values);
}

disk_put-values :
    {F : Type 0} (codec : RecordCodec) (ops : FileOps F) (key value : String) (s t : DiskStore F)
    → disk_put codec ops key value s ≡ (t, none)
    → t.values ≡ insert key value s.values
unfolding disk_put
disk_put-values codec ops key value s t h = ground arith

abbrev pub disk_store : {F : Type 0} → RecordCodec → FileOps F → Store (DiskStore F)
disk_store codec ops = record { put = disk_put codec ops; get = disk_get codec ops }

pub disk_store-IsLawful :
    {F : Type 0} (codec : RecordCodec) (ops : FileOps F) → IsLawful (disk_store codec ops)
unfolding disk_get
disk_store-IsLawful codec ops = record {
  get_put = λ key j value s t h.
      rw (disk_put-values codec ops key value s t h) (get_data-insert key j value s.values);
}

validate_command-cases :
    (c : KvCommand) (e : KvError) → validate_command c ≡ some e → (c.type ≢ op_put) ⊎ (c.key ≡ "")
unfolding validate_command
validate_command-cases c e bad =
    ground (arith, string_eq.beq_iff c.type op_put, string_eq.beq_iff c.key "")

validate_command-good :
    (c : KvCommand) → validate_command c ≡ none → (c.type ≡ op_put) × (c.key ≢ "")
unfolding validate_command
validate_command-good c good =
    ground (arith, string_eq.beq_iff c.type op_put, string_eq.beq_iff c.key "")

module _ {S : Type 0} (codec : CommandCodec) (store : Store S) where
  -- What Apply does to the store: nothing, with the reason; or the Put of the command.
  pub data Applies (s : S) (p : List ℕ) : S → Option KvError → Type 0 where
    undecoded : codec.unmarshal p ≡ none → Applies s p s (some decode_command_failed)
    invalid :
        (c : KvCommand) (e : KvError)
        → codec.unmarshal p ≡ some c
        → validate_command c ≡ some e
        → Applies s p s (some e)
    stored :
        (c : KvCommand) (t : S)
        → codec.unmarshal p ≡ some c
        → validate_command c ≡ none
        → store.put c.key c.value s ≡ (t, none)
        → Applies s p t none
    unstored :
        (c : KvCommand) (t : S) (e : StoreError)
        → codec.unmarshal p ≡ some c
        → validate_command c ≡ none
        → store.put c.key c.value s ≡ (t, some e)
        → Applies s p t (some (in_store e))

  pub machine_get_after :
      (j key : String) (value : String) (s t : S)
      → store.get j t ≡ (if key =? j then inr value else store.get j s)
      → machine_get codec store j t ≡ (if key =? j then inr value else machine_get codec store j s)
  unfolding machine_get
  machine_get_after j key value s t h = elim (Bool-cases (key =? j)) [
    | inl same ↦ rw (machine_get, h, same) refl
    | inr other ↦ rw (machine_get, h, other) refl
  ]

  apply_put :
      (key value : String) (s t : S) (p : List ℕ)
      → codec.unmarshal p ≡ some (record { type = op_put; key = key; value = value })
      → machine_apply codec store s p ≡ (t, none)
      → store.put key value s ≡ (t, none)
  unfolding machine_apply decode_command
  apply_put key value s t p decoded h = ground arith

  -- Over a store that keeps its contract, and a codec that decodes what it encoded: when the command that
  -- EncodePut made is applied without an error, Get gives its value at its key, and what it gave before
  -- at every other key.
  pub machine_get-encode_put :
      (key value : String) (s t : S) (p : List ℕ)
      → IsLawful store
      → ((c : KvCommand) (q : List ℕ) → codec.marshal c ≡ some q → codec.unmarshal q ≡ some c)
      → encode_put codec key value ≡ some p
      → machine_apply codec store s p ≡ (t, none)
      → (j : String)
      → machine_get codec store j t ≡ (if key =? j then inr value else machine_get codec store j s)
  unfolding encode_put
  machine_get-encode_put key value s t p lawful round_trip encoded applied j =
      machine_get_after j key value s t (
        lawful.get_put key j value s t (apply_put key value s t p (round_trip _ p encoded) applied))

  pub machine_apply-Applies :
      (s : S) (p : List ℕ)
      → Applies s p (machine_apply codec store s p).0 (machine_apply codec store s p).1
  unfolding machine_apply decode_command
  machine_apply-Applies s p = elim (Option-cases (codec.unmarshal p)) [
    | inl torn ↦ rw (machine_apply, torn) (undecoded torn)
    | inr (c, at) ↦ elim (Option-cases (validate_command c)) [
      | inr (e, bad) ↦ rw (machine_apply, at, bad) (invalid c e at bad)
      | inl good ↦ elim (Option-cases (store.put c.key c.value s).1) [
        | inl fine ↦ rw (machine_apply, at, good, fine) (stored c _ at good (ground arith))
        | inr (e, failed) ↦
            rw (machine_apply, at, good, failed) (unstored c _ e at good (ground arith))
      ]
    ]
  ]

  -- Why a command is refused.
  abbrev pub Refused : S → List ℕ → KvError → Type 0
  Refused s p e =
      (codec.unmarshal p ≡ none)
      ⊎ ((c : KvCommand) × (codec.unmarshal p ≡ some c) × (c.type ≢ op_put))
      ⊎ ((c : KvCommand) × (codec.unmarshal p ≡ some c) × (c.key ≡ ""))
      ⊎ ((c : KvCommand) × (f : StoreError) × (codec.unmarshal p ≡ some c)
          × ((store.put c.key c.value s).1 ≡ some f)
          × (e ≡ in_store f))

  -- What the keys have after Apply of the bytes `p`.
  pub data Effect (s t : S) (p : List ℕ) : Option KvError → Type 0 where
    unchanged :
        (e : KvError)
        → Refused s p e
        → ((j : String) → store.get j t ≡ store.get j s)
        → Effect s t p (some e)
    changed :
        (c : KvCommand)
        → codec.unmarshal p ≡ some c
        → c.type ≡ op_put
        → c.key ≢ ""
        → ((j : String) → store.get j t ≡ (if c.key =? j then inr c.value else store.get j s))
        → Effect s t p none

  -- Over a store that keeps its contract and in which a Put that fails changes nothing: Apply of any bytes
  -- either reports an error and changes no key, and then the bytes do not decode, or are no Put, or name
  -- the empty key, or the store failed; or it reports none, and then the bytes are a Put of a key that is
  -- not empty, which has the value of the Put, and every other key is as before.
  pub machine_apply-Effect :
      (s : S) (p : List ℕ)
      → IsLawful store
      → ((key value j : String) (s t : S) (e : StoreError)
          → store.put key value s ≡ (t, some e)
          → store.get j t ≡ store.get j s)
      → Effect s (machine_apply codec store s p).0 p (machine_apply codec store s p).1
  machine_apply-Effect s p lawful fails = effect _ _ (machine_apply-Applies s p)
    where
      effect : (t : S) (o : Option KvError) → Applies s p t o → Effect s t p o
      effect _ _ (undecoded torn) = unchanged _ (inl torn) (λ j. refl)
      effect _ _ (invalid c e at bad) = elim (validate_command-cases c e bad) [
        | inl wrong ↦ unchanged e (inr (inl (c, at, wrong))) (λ j. refl)
        | inr empty ↦ unchanged e (inr (inr (inl (c, at, empty)))) (λ j. refl)
      ]
      effect _ _ (stored c t at good put') =
          changed c at (validate_command-good c good).0 (validate_command-good c good).1
            (λ j. lawful.get_put c.key j c.value s t put')
      effect _ _ (unstored c t e at good put') =
          unchanged (in_store e)
            (inr (inr (inr (c, e, at, ap (λ (r : S × Option StoreError). r.1) put', refl))))
            (λ j. fails c.key c.value j s t e put')
