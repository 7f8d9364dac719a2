-- ===== src/NodeCommand/Founding.antt =====
-- raft-consensus/cmd/node/config.go: which ids are founding members.
use mathlib.Core.Path.{subst}
use raft_thesis.Base.{
  Bool, Bool-cases, List, Map, Option, String, [], arith, contains, false, false≢true,
  if◌then◌else◌, inl, inr, insert, int_eq, keys, leb_ℤ, length, nat_ne, none, pos, refl, some,
  string_eq, suc, sym, true, ℤ, ◌<ℤ◌, ◌==◌, ◌=?◌, ◌||◌, ◌∙◌, ◌∷◌, ◌≡◌, ◌≢◌, ◌⊎◌,
}
use raft_thesis.NodeCommand.{
  FlagError, Part, TextOps, blank, founder, id_required, invalid_part, invalid_peer_id,
  no_valid_ids, parse_bootstrap_ids, read_part, read_parts, unsupported_storage,
}
use raft_thesis.Raft.Types.{NodeId}

-- No id twice.
abbrev pub Distinct : List NodeId → Type 0
Distinct [] = Unit {0}
Distinct (id ∷ ids) = (contains id ids ≡ false) × Distinct ids

contains-keys-insert :
    (k j : NodeId) (m : Map NodeId (Unit {0}))
    → contains j (keys (insert k tt m)) ≡ (k =? j || contains j (keys m))
unfolding contains keys insert
contains-keys-insert k j [] = refl
contains-keys-insert k j ((i, w) ∷ m) =
    ground (
      arith,
      int_eq.beq_iff i k,
      int_eq.beq_iff i j,
      int_eq.beq_iff k j,
      contains-keys-insert k j m,
    )

keys-insert-Distinct :
    (k : NodeId) (m : Map NodeId (Unit {0})) → Distinct (keys m) → Distinct (keys (insert k tt m))
unfolding contains keys insert
keys-insert-Distinct k [] d = (refl, tt)
keys-insert-Distinct k ((i, w) ∷ m) (new', rest) = elim (Bool-cases (i =? k)) [
  | inl same ↦ rw same (new', rest)
  | inr differ ↦
      rw differ (contains-keys-insert k i m ∙ apart differ, keys-insert-Distinct k m rest)
]
  where
    apart : (i =? k) ≡ false → (k =? i || contains i (keys m)) ≡ false
    apart differ = ground (arith, int_eq.beq_iff i k, int_eq.beq_iff k i, new')

abbrev founds : NodeId → Part → Bool
founds n blank = false
founds n (invalid_part p) = false
founds n (founder m) = m =? n

abbrev refuses : Part → Option String → Option String
refuses blank rest = rest
refuses (invalid_part p) rest = some p
refuses (founder m) rest = rest

module _ (ops : TextOps) where
  -- Whether a part is the id.
  abbrev asked : NodeId → List String → Bool
  asked n [] = false
  asked n (part ∷ parts) = founds n (read_part ops part) || asked n parts

  -- The first part that is neither blank nor a positive integer.
  abbrev first_invalid : List String → Option String
  first_invalid [] = none
  first_invalid (part ∷ parts) = refuses (read_part ops part) (first_invalid parts)

  abbrev parts_of : String → List String
  parts_of s = if ops.trim_space s =? "" then [] else ops.split (ops.trim_space s)

  -- What a result says of the parts: with an id list, that they are the ids of the parts, once each and
  -- positive; with an error, which part is wrong, or that there is none.
  abbrev pub Founders : String → FlagError ⊎ List NodeId → Type 0
  Founders s (inr ids) =
      (first_invalid (parts_of s) ≡ none)
      × Distinct ids
      × ((n : NodeId) → contains n ids ≡ asked n (parts_of s))
      × ((n : NodeId) → contains n ids ≡ true → pos 0 <ℤ n)
      × (ids ≡ [] → ops.trim_space s ≡ "")
  Founders s (inl id_required) = ⊥
  Founders s (inl (invalid_peer_id p)) = first_invalid (parts_of s) ≡ some p
  Founders s (inl no_valid_ids) =
      (ops.trim_space s ≢ "")
      × (first_invalid (parts_of s) ≡ none)
      × ((n : NodeId) → asked n (parts_of s) ≡ false)
  Founders s (inl (unsupported_storage b)) = ⊥

  -- What the loop over the parts leaves.
  abbrev Reads : List String → Map NodeId (Unit {0}) → FlagError ⊎ Map NodeId (Unit {0}) → Type 0
  Reads parts seen (inr all) =
      (first_invalid parts ≡ none)
      × (Distinct (keys seen) → Distinct (keys all))
      × ((n : NodeId) → contains n (keys all) ≡ (asked n parts || contains n (keys seen)))
  Reads parts seen (inl id_required) = ⊥
  Reads parts seen (inl (invalid_peer_id p)) = first_invalid parts ≡ some p
  Reads parts seen (inl no_valid_ids) = ⊥
  Reads parts seen (inl (unsupported_storage b)) = ⊥

  Reads-founder :
      (m : NodeId) (part : String) (parts : List String) (seen : Map NodeId (Unit {0}))
      (r : FlagError ⊎ Map NodeId (Unit {0}))
      → read_part ops part ≡ founder m
      → Reads parts (insert m tt seen) r
      → Reads (part ∷ parts) seen r
  Reads-founder m part parts seen (inr all) e (fine, distinct, same) = (
    rw e fine,
    λ d. distinct (keys-insert-Distinct m seen d),
    λ n. same n ∙ rw (e, contains-keys-insert m n seen) (swap (asked n parts) (m =? n) _),
  )
    where
      swap : (a b c : Bool) → (a || (b || c)) ≡ ((b || a) || c)
      swap a b c = ground arith
  Reads-founder m part parts seen (inl id_required) e h = h
  Reads-founder m part parts seen (inl (invalid_peer_id p)) e h = rw e h
  Reads-founder m part parts seen (inl no_valid_ids) e h = h
  Reads-founder m part parts seen (inl (unsupported_storage b)) e h = h

  Reads-blank :
      (part : String) (parts : List String) (seen : Map NodeId (Unit {0}))
      (r : FlagError ⊎ Map NodeId (Unit {0}))
      → read_part ops part ≡ blank
      → Reads parts seen r
      → Reads (part ∷ parts) seen r
  Reads-blank part parts seen (inr all) e (fine, distinct, same) =
      (rw e fine, distinct, λ n. rw e (same n))
  Reads-blank part parts seen (inl id_required) e h = h
  Reads-blank part parts seen (inl (invalid_peer_id p)) e h = rw e h
  Reads-blank part parts seen (inl no_valid_ids) e h = h
  Reads-blank part parts seen (inl (unsupported_storage b)) e h = h

  read_parts-Reads :
      (parts : List String) (seen : Map NodeId (Unit {0}))
      → Reads parts seen (read_parts ops parts seen)
  unfolding read_parts
  read_parts-Reads [] seen = (refl, λ d. d, λ n. refl)
  read_parts-Reads (part ∷ parts) seen =
      go (read_part ops part) refl (read_parts-Reads parts seen)
        (λ n. read_parts-Reads parts (insert n tt seen))
    where
      go :
          (p : Part)
          → read_part ops part ≡ p
          → Reads parts seen (read_parts ops parts seen)
          → ((n : NodeId)
              → Reads parts (insert n tt seen) (read_parts ops parts (insert n tt seen)))
          → Reads (part ∷ parts) seen (elim p [
            | blank ↦ read_parts ops parts seen
            | invalid_part q ↦ inl (invalid_peer_id q)
            | founder n ↦ read_parts ops parts (insert n tt seen)
          ])
      go blank e h k = Reads-blank part parts seen _ e h
      go (invalid_part q) e h k = rw e refl
      go (founder n) e h k = Reads-founder n part parts seen _ e (k n)

  read_part-founder :
      (part : String) (n : NodeId) → founds n (read_part ops part) ≡ true → pos 0 <ℤ n
  unfolding read_part
  read_part-founder part n h =
      go (ops.trim_space part =? "") (ops.atoi (ops.trim_space part)) (ops.trim_space part) h
    where
      go :
          (b : Bool) (o : Option ℤ) (trimmed : String)
          → founds n (
              if b then blank else elim o [
                | none ↦ invalid_part trimmed
                | some m ↦ if leb_ℤ m (pos 0) then invalid_part trimmed else founder m
              ])
            ≡ true
          → pos 0 <ℤ n
      go true o t q = absurd (false≢true q)
      go false none t q = absurd (false≢true q)
      go false (some m) t q = elim (Bool-cases (leb_ℤ m (pos 0))) [
        | inl low ↦ absurd (false≢true (rw low at q))
        | inr high ↦
            let e = (int_eq.beq_iff m n).0 (rw high at q) in rw (← e) (ground (arith, high))
      ]

  asked-positive : (n : NodeId) (parts : List String) → asked n parts ≡ true → pos 0 <ℤ n
  asked-positive n [] h = absurd (false≢true h)
  asked-positive n (part ∷ parts) h = elim (Bool-cases (founds n (read_part ops part))) [
    | inl here' ↦ read_part-founder part n here'
    | inr there ↦ asked-positive n parts (rw there at h)
  ]

  or_false : (b : Bool) → (b || false) ≡ b
  or_false b = ground arith

  Founders-read :
      (s : String) (r : FlagError ⊎ Map NodeId (Unit {0}))
      → ops.trim_space s =? "" ≡ false
      → Reads (parts_of s) [] r
      → Founders s (elim r [
        | inl e ↦ inl e
        | inr seen ↦ if length seen == 0 then inl no_valid_ids else inr (keys seen)
      ])
  unfolding contains keys
  Founders-read s (inr []) wrote (fine, distinct, same) = (
    (λ e. false≢true (sym wrote ∙ (string_eq.beq_iff (ops.trim_space s) "").1 e)),
    fine,
    λ n. sym (same n ∙ or_false (asked n (parts_of s))),
  )
  Founders-read s (inr ((k, u) ∷ seen)) wrote (fine, distinct, same) =
      rw (nat_ne (suc (length seen)) 0 (λ e. omega (arith, e))) (
        fine,
        distinct tt,
        λ n. same n ∙ or_false (asked n (parts_of s)),
        λ n h. asked-positive n (parts_of s) (sym (same n ∙ or_false (asked n (parts_of s))) ∙ h),
        λ e. cc,
      )
  Founders-read s (inl id_required) wrote h = h
  Founders-read s (inl (invalid_peer_id p)) wrote h = h
  Founders-read s (inl no_valid_ids) wrote h = absurd h
  Founders-read s (inl (unsupported_storage b)) wrote h = h

  -- On every string: a list of ids that is returned has exactly the ids of the parts, positive and none
  -- twice, no part is wrong, and it is empty only for a blank string. An error for a part names the first
  -- part that is neither blank nor a positive integer; the other error is that every part is blank.
  pub parse_bootstrap_ids-Founders : (s : String) → Founders s (parse_bootstrap_ids ops s)
  unfolding parse_bootstrap_ids contains
  parse_bootstrap_ids-Founders s = elim (Bool-cases (ops.trim_space s =? "")) [
    | inl nothing ↦
        let no_parts : parts_of s ≡ [] = rw nothing refl in
        subst (Founders s) (sym (unparsed nothing)) (
          rw no_parts refl,
          tt,
          λ n. rw no_parts refl,
          λ n h. absurd (false≢true h),
          λ e. (string_eq.beq_iff (ops.trim_space s) "").0 nothing,
        )
    | inr wrote ↦
        let trimmed = ops.split (ops.trim_space s) in
        subst (Founders s) (sym (parsed wrote)) (
          Founders-read s (read_parts ops trimmed []) wrote
            (rw wrote (read_parts-Reads trimmed [])))
  ]
    where
      unparsed : (ops.trim_space s =? "") ≡ true → parse_bootstrap_ids ops s ≡ inr []
      unparsed nothing = rw nothing refl

      parsed :
          (ops.trim_space s =? "") ≡ false
          → parse_bootstrap_ids ops s ≡ (elim (read_parts ops (ops.split (ops.trim_space s)) []) [
            | inl e ↦ inl e
            | inr seen ↦ if length seen == 0 then inl no_valid_ids else inr (keys seen)
          ])
      parsed wrote = rw wrote refl
