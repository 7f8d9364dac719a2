-- ===== src/Storage/Recovery.antt =====
-- raft-consensus/internal/storage/disk.go: what a disk store has after it was closed and opened again.
use raft_thesis.Base.{
  string_eq, nat_eq, >>=-eq-some, Bool, List, Map, String, [], ap, arith, contains, false,
  if◌then◌else◌, inr, insert, length, lookup-insert, none, refl, some, some_inj, sym, true, ℕ, ◌++◌,
  ◌<◌, ◌=?◌, ◌∙◌, ◌∷◌, ◌≡◌,
}
use raft_thesis.Storage.{
  DiskRecord, DiskStore, FileOps, RecordCodec, disk_get, disk_put, get_data, load_lines,
  new_disk_store, restore,
}

pub get_data-insert :
    (key j : String) (value : String) (m : Map String String)
    → get_data j (insert key value m) ≡ (if key =? j then inr value else get_data j m)
get_data-insert key j value m = ground (arith, lookup-insert key j value m)

module _ {F : Type 0} (codec : RecordCodec) (ops : FileOps F) (ends_line : F → Bool)
    (crash : F → F) where
  -- What the store relies on: the codec round-trips and writes one line without a carriage return; a
  -- complete write of a short such line to a file that is empty or ends with a newline adds that line; a
  -- sync that succeeds changes nothing of what a scan finds and makes it outlast a loss of power; and a
  -- seek, which a file has, changes nothing. `ends_line` says whether a file is empty or ends with a
  -- newline, and `crash` what is left of a file after a loss of power.
  pub record IsReliable : Type 0 where
    pub round_trip :
        (r : DiskRecord) (p : List ℕ) → codec.marshal r ≡ some p → codec.unmarshal p ≡ some r
    pub one_line :
        (r : DiskRecord) (p : List ℕ)
        → codec.marshal r ≡ some p
        → (contains 10 p ≡ false) × (contains 13 p ≡ false)
    pub appends :
        (p : List ℕ) (f g : F) (ls : List (List ℕ))
        → ends_line f ≡ true
        → contains 10 p ≡ false
        → contains 13 p ≡ false
        → length p < 65536
        → ops.write (p ++ 10 ∷ []) f ≡ (g, true)
        → ops.scan f ≡ (ls, true)
        → (ops.scan g ≡ (ls ++ p ∷ [], true)) × (ends_line g ≡ true)
    pub synced :
        (f g : F)
        → ops.sync f ≡ (g, true)
        → (ops.scan g ≡ ops.scan f)
          × (ends_line g ≡ ends_line f)
          × (ops.scan (crash g) ≡ ops.scan g)
    pub seeks : (f : F) → (g : F) × (ops.seek f ≡ some g)
    pub seek_keeps : (f g : F) → ops.seek f ≡ some g → ops.scan g ≡ ops.scan f

  -- The file has the records that the map came from.
  pub record IsRecoverable (s : DiskStore F) : Type 0 where
    pub handle : F
    pub opened : s.file ≡ some handle
    pub whole : ends_line handle ≡ true
    pub lines : List (List ℕ)
    pub scanned : ops.scan handle ≡ (lines, true)
    pub loaded : load_lines codec ops lines [] ≡ some s.values

  load_lines-append :
      (ls : List (List ℕ)) (p : List ℕ) (r : DiskRecord) (m n : Map String String)
      → load_lines codec ops ls m ≡ some n
      → codec.unmarshal p ≡ some r
      → load_lines codec ops (ls ++ p ∷ []) m ≡ some (insert r.key r.value n)
  unfolding load_lines
  load_lines-append [] p r m n h q = rw (q, some_inj h) refl
  load_lines-append (l ∷ ls) p r m n h q =
      let (a, at, rest) = >>=-eq-some (codec.unmarshal l) _ h in
      rw at (load_lines-append ls p r (insert a.key a.value m) n rest q)

  disk_put-inv :
      (key value : String) (s t : DiskStore F) (p : List ℕ) (file : F)
      → codec.marshal (record { key = key; value = value }) ≡ some p
      → s.file ≡ some file
      → disk_put codec ops key value s ≡ (t, none)
      → (ops.write (p ++ 10 ∷ []) file ≡ ((ops.write (p ++ 10 ∷ []) file).0, true))
        × (ops.sync (ops.write (p ++ 10 ∷ []) file).0
            ≡ ((ops.sync (ops.write (p ++ 10 ∷ []) file).0).0, true))
        × (t.file ≡ some (ops.sync (ops.write (p ++ 10 ∷ []) file).0).0)
        × (t.values ≡ insert key value s.values)
  unfolding disk_put
  disk_put-inv key value s t p file encoded e h = ground arith

  disk_put-IsRecoverable :
      (key value : String) (s t : DiskStore F) (p : List ℕ)
      → IsReliable
      → IsRecoverable s
      → codec.marshal (record { key = key; value = value }) ≡ some p
      → length p < 65536
      → disk_put codec ops key value s ≡ (t, none)
      → (after : IsRecoverable t) × (t.values ≡ insert key value s.values)
        × (ops.scan (crash after.handle) ≡ ops.scan after.handle)
  disk_put-IsRecoverable key value s t p ok before encoded short h =
      let rec : DiskRecord = record { key = key; value = value } in
      let (complete, durable, handle, values) =
        disk_put-inv key value s t p before.handle encoded before.opened h in
      let f = (ops.write (p ++ 10 ∷ []) before.handle).0 in
      let added =
        ok.appends p before.handle f before.lines before.whole (ok.one_line rec p encoded).0
          (ok.one_line rec p encoded).1 short complete before.scanned in
      let (scans, ends, outlasts) = ok.synced f (ops.sync f).0 durable in
      (
        record {
          handle = (ops.sync f).0;
          opened = handle;
          whole = ends ∙ added.1;
          lines = before.lines ++ p ∷ [];
          scanned = scans ∙ added.0;
          loaded =
              load_lines-append before.lines p rec [] s.values before.loaded
                (ok.round_trip rec p encoded)
              ∙ ap some (sym values);
        },
        values,
        outlasts,
      )

  restore-values :
      (s t : DiskStore F) (file : F)
      → IsReliable
      → (before : IsRecoverable s) → ops.scan file ≡ ops.scan before.handle
      → t.values ≡ []
      → (u : DiskStore F) × (restore codec ops file t ≡ inr u) × (u.values ≡ s.values)
  unfolding restore
  restore-values s t file ok before same empty =
      let (at, p) = ok.seeks file in
      let (end, q) = ok.seeks at in
      let found : ops.scan at ≡ (before.lines, true) =
        ok.seek_keeps file at p ∙ same ∙ before.scanned in
      (
        record t { values = s.values; file = some end },
        rw (restore, p, found, empty, before.loaded, q) (rw found refl),
        refl,
      )

  -- Take a store whose file ends with a whole line and has the records of its map, and a Put that reports
  -- no error, whose record is shorter than the scanner's limit. After a loss of power, a store that is
  -- opened on a file with the lines that were left opens without an error and has the new value at the key
  -- and the old values elsewhere.
  pub disk_put-survives :
      (key value path : String) (s t : DiskStore F) (p : List ℕ) (file synced : F)
      → IsReliable
      → IsRecoverable s
      → codec.marshal (record { key = key; value = value }) ≡ some p
      → length p < 65536
      → disk_put codec ops key value s ≡ (t, none)
      → t.file ≡ some synced
      → (path =? "") ≡ false
      → ops.open_file path ≡ some file
      → ops.scan file ≡ ops.scan (crash synced)
      → (u : DiskStore F) × (new_disk_store codec ops path ≡ inr u)
        × ((j : String)
            → disk_get codec ops j u ≡ (if key =? j then inr value else disk_get codec ops j s))
  unfolding new_disk_store disk_get
  disk_put-survives key value path s t p file synced ok before encoded short h e named opened same =
      let (after, values, outlasts) =
        disk_put-IsRecoverable key value s t p ok before encoded short h in
      let at : synced ≡ after.handle = some_inj (sym e ∙ after.opened) in
      let (u, r, kept) =
        restore-values t (record { path = path; values = []; file = some file }) file ok after
          (same ∙ ap (λ x. ops.scan (crash x)) at ∙ outlasts) refl in
      (u, rw (named, opened) r, λ j. rw (kept, values) (get_data-insert key j value s.values))
