-- ===== src/Storage.antt =====
-- raft-consensus/internal/storage: the two stores behind the key-value machine. The file, and the JSON
-- codec of its records, are parameters.
pub mod Recovery
use raft_thesis.Base.{
  string_eq, Bool, List, Map, Option, String, [], if◌then◌else◌, inl, inr, insert, lookup, none,
  not, some, ℕ, ◌++◌, ◌=?◌, ◌>>=◌, ◌∷◌, ◌⊎◌,
}

pub data StoreError : Type 0 where
  key_not_found path_is_empty open_failed seek_failed decode_record_failed : StoreError
  scan_failed encode_record_failed write_record_failed sync_record_failed : StoreError
  close_failed : StoreError

-- storage.Store over a type of states; a panic has no place in it.
pub record Store (S : Type 0) : Type 0 where
  pub put : String → String → S → S × Option StoreError
  pub get : String → S → StoreError ⊎ String

abbrev pub get_data : String → Map String String → StoreError ⊎ String
get_data key values = elim (lookup key values) [ none ↦ inl key_not_found | some v ↦ inr v ]

-- memory.go
pub record MemoryStore : Type 0 where
  pub values : Map String String

unfoldable pub new_memory_store : MemoryStore
new_memory_store = record { values = [] }

unfoldable pub memory_put : String → String → MemoryStore → MemoryStore × Option StoreError
memory_put key value s = (record s { values = insert key value s.values }, none)

unfoldable pub memory_get : String → MemoryStore → StoreError ⊎ String
memory_get key s = get_data key s.values

-- disk.go
pub record DiskRecord : Type 0 where
  pub key : String
  pub value : String

-- json.Marshal and json.Unmarshal of a record.
pub record RecordCodec : Type 0 where
  pub marshal : DiskRecord → Option (List ℕ)
  pub unmarshal : List ℕ → Option DiskRecord

-- os.File and bufio.Scanner: a write and a sync may fail and still change the file; a scan from the
-- start has the lines it found and whether it ended without an error.
pub record FileOps (F : Type 0) : Type 0 where
  pub open_file : String → Option F
  pub seek : F → Option F
  pub scan : F → List (List ℕ) × Bool
  pub write : List ℕ → F → F × Bool
  pub sync : F → F × Bool
  pub close : F → Bool

pub record DiskStore (F : Type 0) : Type 0 where
  pub path : String
  pub values : Map String String
  pub file : Option F

module _ {F : Type 0} (codec : RecordCodec) (ops : FileOps F) where
  -- The loop over the lines.
  unfoldable pub load_lines : List (List ℕ) → Map String String → Option (Map String String)
  load_lines [] values = some values
  load_lines (line ∷ lines) values = do
    rec ← codec.unmarshal line
    load_lines lines (insert rec.key rec.value values)

  unfoldable pub restore : F → DiskStore F → StoreError ⊎ DiskStore F
  restore file s = elim (ops.seek file) [
    | none ↦ inl seek_failed
    | some at_start ↦ elim (load_lines (ops.scan at_start).0 s.values) [
      | none ↦ inl decode_record_failed
      | some values ↦
          if not (ops.scan at_start).1 then inl scan_failed else elim (ops.seek at_start) [
            | none ↦ inl seek_failed
            | some at_end ↦ inr (record s { values = values; file = some at_end })
          ]
    ]
  ]

  unfoldable pub new_disk_store : String → StoreError ⊎ DiskStore F
  new_disk_store path = if path =? "" then inl path_is_empty else elim (ops.open_file path) [
    | none ↦ inl open_failed
    | some file ↦ restore file (record { path = path; values = []; file = some file })
  ]

  -- A write to a closed store is a write to a nil file, which fails.
  unfoldable pub disk_put : String → String → DiskStore F → DiskStore F × Option StoreError
  disk_put key value s = elim (codec.marshal (record { key = key; value = value })) [
    | none ↦ (s, some encode_record_failed)
    | some payload ↦ elim s.file [
      | none ↦ (s, some write_record_failed)
      | some file ↦
          let (written, complete) = ops.write (payload ++ 10 ∷ []) file in
          let (synced, durable) = ops.sync written in
          if not complete
          then (record s { file = some written }, some write_record_failed)
          else if not durable
          then (record s { file = some synced }, some sync_record_failed)
          else (record s { file = some synced; values = insert key value s.values }, none)
    ]
  ]

  unfoldable pub disk_get : String → DiskStore F → StoreError ⊎ String
  disk_get key s = get_data key s.values

  unfoldable pub disk_close : DiskStore F → DiskStore F × Option StoreError
  disk_close s = elim s.file [
    | none ↦ (s, none)
    | some file ↦ (record s { file = none }, if ops.close file then none else some close_failed)
  ]
