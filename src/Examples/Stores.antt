-- ===== src/Examples/Stores.antt =====
-- The stores, the key-value machine and the network at concrete states.
use raft_thesis.Base.{
  nat_eq, Bool, Bool-cases, List, Option, String, [], ap, arith, contains, false, if◌then◌else◌,
  inl, inr, insert, lookup, min, none, not, refl, some, some_inj, string_eq, sym, true, ℕ, ◌&&◌,
  ◌*◌, ◌++◌, ◌==◌, ◌=?◌, ◌^◌, ◌∙◌, ◌∷◌, ◌≡◌,
}
use raft_thesis.Kv.{
  CommandCodec, KvCommand, decode_command, encode_put, machine_apply, machine_get, validate_command,
}
use raft_thesis.Kv.Machine.{
  Effect, machine_apply-Effect, machine_get-encode_put, memory_store, memory_store-IsLawful,
}
use raft_thesis.Network.{RpcConn, initial_dial_backoff, max_dial_backoff, next_dial_backoff}
use raft_thesis.Network.Backoff.{next_dial_backoff-doubles}
use raft_thesis.Network.Switches.{
  Partition, add_proxy, add_proxy-connected, new_proxy, set_partitioned, set_partitioned-lookup,
}
use raft_thesis.Storage.{
  DiskRecord, DiskStore, FileOps, MemoryStore, RecordCodec, StoreError, disk_get, disk_put,
  load_lines, memory_get, memory_put, new_disk_store,
}
use raft_thesis.Storage.Recovery.{IsRecoverable, IsReliable, disk_put-survives}

-- A codec that knows one record, and a file that is the list of its lines.
one_record : DiskRecord
one_record = record { key = "a"; value = "1" }

marshal_one : DiskRecord → Option (List ℕ)
marshal_one r = if r.key =? "a" && r.value =? "1" then some (1 ∷ []) else none

unmarshal_one : List ℕ → Option DiskRecord
unmarshal_one p = some one_record

abbrev one_codec : RecordCodec
one_codec = record { marshal = marshal_one; unmarshal = unmarshal_one }

strip : List ℕ → List ℕ
strip [] = []
strip (b ∷ []) = []
strip (b ∷ c ∷ bs) = b ∷ strip (c ∷ bs)

strip-newline : (p : List ℕ) → strip (p ++ 10 ∷ []) ≡ p
unfolding strip
strip-newline [] = refl
strip-newline (b ∷ []) = refl
strip-newline (b ∷ c ∷ p) = ap (λ (l : List ℕ). b ∷ l) (strip-newline (c ∷ p))

-- The lines of a file, and those that a loss of power leaves.
record LineFile : Type 0 where
  lines : List (List ℕ)
  on_disk : List (List ℕ)

abbrev line_file : FileOps LineFile
line_file = record {
  open_file = λ path. some (record { lines = (1 ∷ []) ∷ []; on_disk = (1 ∷ []) ∷ [] });
  seek = λ f. some f;
  scan = λ f. (f.lines, true);
  write = λ bytes f. (record f { lines = f.lines ++ strip bytes ∷ [] }, true);
  sync = λ f. (record f { on_disk = f.lines }, true);
  close = λ f. true;
}

-- A file of lines always ends with a whole one.
abbrev always_whole : LineFile → Bool
always_whole f = true

abbrev power_loss : LineFile → LineFile
power_loss f = record f { lines = f.on_disk }

one_codec-round :
    (r : DiskRecord) (p : List ℕ) → marshal_one r ≡ some p → (one_record ≡ r) × (p ≡ 1 ∷ [])
unfolding marshal_one one_record
one_codec-round r p h = elim (Bool-cases (r.key =? "a")) [
  | inr other ↦ ground (arith, other, h)
  | inl k ↦ elim (Bool-cases (r.value =? "1")) [
    | inr other ↦ ground (arith, k, other, h)
    | inl v ↦ (
      ground (arith, (string_eq.beq_iff r.key "a").0 k, (string_eq.beq_iff r.value "1").0 v),
      sym (some_inj (rw (k, v) at h)),
    )
  ]
]

line_file-IsReliable : IsReliable one_codec line_file always_whole power_loss
unfolding unmarshal_one contains
line_file-IsReliable = record {
  round_trip = λ r p h. ap some (one_codec-round r p h).0;
  one_line = λ r p h. (rw (one_codec-round r p h).1 refl, rw (one_codec-round r p h).1 refl);
  appends = λ p f g ls whole_file line no_return short complete whole.
      let e = ap (λ (r : LineFile × Bool). (r.0).lines) complete in
      let w = ap (λ (r : List (List ℕ) × Bool). r.0) whole in
      (ap (λ (x : List (List ℕ)). (x, true)) (sym e ∙ rw (w, strip-newline p) refl), refl);
  synced = λ f g h. let e = ap (λ (r : LineFile × Bool). r.0) h in (rw⁻¹ e refl, refl, rw⁻¹ e refl);
  seeks = λ f. (f, refl);
  seek_keeps = λ f g h. ap (λ (x : LineFile). (x.lines, true)) (sym (some_inj h));
}

opened_store : DiskStore LineFile
opened_store = record {
  path = "db";
  values = [];
  file = some (record { lines = []; on_disk = [] });
}

filled_store : DiskStore LineFile
filled_store = record {
  path = "db";
  values = ("a", "1") ∷ [];
  file = some (record { lines = (1 ∷ []) ∷ []; on_disk = (1 ∷ []) ∷ [] });
}

opened_store-IsRecoverable : IsRecoverable one_codec line_file always_whole power_loss opened_store
unfolding opened_store load_lines
opened_store-IsRecoverable = record {
  handle = record { lines = []; on_disk = [] };
  whole = refl;
  opened = refl;
  lines = [];
  scanned = refl;
  loaded = refl;
}

disk_put-survives_example :
    (u : DiskStore LineFile) × (new_disk_store one_codec line_file "db" ≡ inr u)
    × ((j : String)
        → disk_get one_codec line_file j u
          ≡ (if "a" =? j then inr "1" else disk_get one_codec line_file j opened_store))
unfolding opened_store filled_store marshal_one one_record disk_put strip insert
disk_put-survives_example =
    disk_put-survives one_codec line_file always_whole power_loss "a" "1" "db" opened_store
      filled_store (1 ∷ []) (record { lines = (1 ∷ []) ∷ []; on_disk = (1 ∷ []) ∷ [] })
      (record { lines = (1 ∷ []) ∷ []; on_disk = (1 ∷ []) ∷ [] }) line_file-IsReliable
      opened_store-IsRecoverable refl (omega arith) refl refl refl refl refl

put_one : KvCommand
put_one = record { type = "PUT"; key = "a"; value = "1" }

marshal_put : KvCommand → Option (List ℕ)
marshal_put c =
    if (c.type =? "PUT") && (c.key =? "a") && (c.value =? "1") then some (1 ∷ []) else none

unmarshal_put : List ℕ → Option KvCommand
unmarshal_put p = some put_one

abbrev put_codec : CommandCodec
put_codec = record { marshal = marshal_put; unmarshal = unmarshal_put }

put_codec-round : (c : KvCommand) (q : List ℕ) → marshal_put c ≡ some q → unmarshal_put q ≡ some c
unfolding marshal_put unmarshal_put put_one
put_codec-round c q h = elim (Bool-cases (c.type =? "PUT")) [
  | inr other ↦ ground (arith, other, h)
  | inl t ↦ elim (Bool-cases (c.key =? "a")) [
    | inr other ↦ ground (arith, t, other, h)
    | inl k ↦ elim (Bool-cases (c.value =? "1")) [
      | inr other ↦ ground (arith, t, k, other, h)
      | inl v ↦ ground (
        arith,
        (string_eq.beq_iff c.type "PUT").0 t,
        (string_eq.beq_iff c.key "a").0 k,
        (string_eq.beq_iff c.value "1").0 v,
      )
    ]
  ]
]

empty_values : MemoryStore
empty_values = record { values = [] }

machine_get-encode_put_example :
    machine_get put_codec memory_store "a" (record { values = ("a", "1") ∷ [] }) ≡ inr "1"
unfolding marshal_put unmarshal_put put_one encode_put machine_apply decode_command validate_command
    memory_put empty_values insert
machine_get-encode_put_example =
    machine_get-encode_put put_codec memory_store "a" "1" empty_values
      (record { values = ("a", "1") ∷ [] }) (1 ∷ []) memory_store-IsLawful put_codec-round refl refl
      "a"

memory_put-kept :
    (key value j : String) (s t : MemoryStore) (e : StoreError)
    → memory_put key value s ≡ (t, some e)
    → memory_get j t ≡ memory_get j s
unfolding memory_put
memory_put-kept key value j s t e h = cc

machine_apply-Effect_example :
    Effect put_codec memory_store empty_values
      (machine_apply put_codec memory_store empty_values (1 ∷ [])).0
      (1 ∷ [])
      (machine_apply put_codec memory_store empty_values (1 ∷ [])).1
machine_apply-Effect_example =
    machine_apply-Effect put_codec memory_store empty_values (1 ∷ []) memory_store-IsLawful
      memory_put-kept

-- A slot with an established connection.
old_conn : RpcConn
old_conn = record { client = some 5; dial_failures = 0; retry_after = 0; last_dial_err = none }

next_dial_backoff-doubles_example :
    next_dial_backoff 4 ≡ min (initial_dial_backoff * 2 ^ 3) max_dial_backoff
next_dial_backoff-doubles_example = next_dial_backoff-doubles 3

two_proxies : Partition
two_proxies = record {
  connected = (1, true) ∷ (2, true) ∷ (3, true) ∷ [];
  proxies = 1 ∷ 2 ∷ [];
  enabled = true;
}

set_partitioned-lookup_example :
    (lookup 2 (set_partitioned true two_proxies).connected ≡ (
      if contains 2 two_proxies.proxies then some (not true) else lookup 2 two_proxies.connected))
    × ((set_partitioned true two_proxies).enabled ≡ not true)
set_partitioned-lookup_example = set_partitioned-lookup true two_proxies 2

add_proxy-connected_example :
    let joined = add_proxy 3 (new_proxy 3 (set_partitioned true two_proxies)) in
    (lookup 3 joined.connected ≡ some true)
    × (lookup 3 (set_partitioned true joined).connected ≡ some (not true))
    × (joined.enabled ≡ false)
    × (lookup 2 joined.connected
        ≡ (if 3 == 2 then some true else lookup 2 (set_partitioned true two_proxies).connected))
add_proxy-connected_example = add_proxy-connected 3 2 true two_proxies
