-- ===== src/Raft/Service/Stability.antt =====
-- When the loop of AppendEntries over the new entries leaves the log alone: committed entries, late and
-- repeated messages.
use raft_thesis.Base.{
  List, [], ap, arith, dec_lt, length, length-append, length-take, refl, some, sym, take,
  take-append_left, take-take, ◌+◌, ◌<◌, ◌∙◌, ◌∷◌, ◌≡◌, ◌≤◌,
}
use raft_thesis.Raft.Node.{term_at}
use raft_thesis.Raft.Node.Core.{u64_small}
use raft_thesis.Raft.Node.Log.{term_at-lt, term_at-take}
use raft_thesis.Raft.Service.{Merge, merge_entries}
use raft_thesis.Raft.Service.Agreement.{merge_entry_grows}
use raft_thesis.Raft.Service.Merging.{
  MergeCase, entry_appended, entry_cut, entry_kept, merge_entry-cases, merge_entry_same,
}
use raft_thesis.Raft.Types.{LogEntry, LogIndex, Term}

-- Where the log already has entries below the bound, their terms are those of the message.
abbrev pub NoConflictBelow : LogIndex → List LogEntry → LogIndex → List LogEntry → Type 0
NoConflictBelow k log i [] = Unit {0}
NoConflictBelow k log i (e ∷ es) =
    ((t : Term) → i < k → term_at log i ≡ some t → t ≡ e.term) × NoConflictBelow k log (i + 1) es

-- The terms of the entries are those of the log from the index on.
abbrev pub HasTerms : List LogEntry → LogIndex → List LogEntry → Type 0
HasTerms log i [] = Unit {0}
HasTerms log i (e ∷ es) = (term_at log i ≡ some e.term) × HasTerms log (i + 1) es

-- NoConflictBelow reads no more than the terms below the bound.
NoConflictBelow-same :
    (k : LogIndex) (log other : List LogEntry) (i : LogIndex) (es : List LogEntry)
    → take k other ≡ take k log
    → NoConflictBelow k log i es
    → NoConflictBelow k other i es
NoConflictBelow-same k log other i [] same h = tt
NoConflictBelow-same k log other i (e ∷ es) same (h, rest) = (
  λ t below at. h t below (shared t below at),
  NoConflictBelow-same k log other (i + 1) es same rest,
)
  where
    shared : (t : Term) → i < k → term_at other i ≡ some t → term_at log i ≡ some t
    shared t below at =
        sym (term_at-take k i log below)
        ∙ ap (λ l. term_at l i) (sym same)
        ∙ term_at-take k i other below
        ∙ at

-- A round that conflicts with nothing below the bound keeps the log up to the bound.
merge_entry_keeps :
    (k i : LogIndex) (e : LogEntry) (m n : Merge)
    → k ≤ length m.log
    → ((t : Term) → i < k → term_at m.log i ≡ some t → t ≡ e.term)
    → MergeCase i e m n
    → (k ≤ length n.log) × (take k n.log ≡ take k m.log)
merge_entry_keeps k i e m n h agree (entry_kept same term) = rw same (h, refl)
merge_entry_keeps k i e m n h agree (entry_appended p end) =
    rw p (omega (arith, length-append m.log (e ∷ [])), take-append_left k m.log (e ∷ []) h)
merge_entry_keeps k i e m n h agree (entry_cut t term other p) = elim (dec_lt i k) [
  | yes below ↦ absurd (other (agree t below term))
  | no beyond ↦
      let within : k ≤ length (take i m.log) =
        omega (arith, length-take i m.log, term_at-lt m.log i term) in
      rw p (
        omega (arith, length-append (take i m.log) (e ∷ [])),
        take-append_left k (take i m.log) (e ∷ []) within ∙ take-take k i m.log (omega arith),
      )
]

-- The loop keeps the log up to the bound, if it conflicts with nothing below.
pub merge_entries_keep :
    (k i : LogIndex) (es : List LogEntry) (m : Merge)
    → i ≤ length m.log
    → i + length es < 18446744073709551616
    → k ≤ length m.log
    → NoConflictBelow k m.log i es
    → (n : Merge) × (merge_entries i es m ≡ some n)
      × (i + length es ≤ length n.log)
      × (k ≤ length n.log)
      × (take k n.log ≡ take k m.log)
unfolding merge_entries
merge_entries_keep k i [] m h b below s = (m, refl, omega arith, below, refl)
merge_entries_keep k i (e ∷ es) m h b below (s, rest) =
    let (n, p, c) = merge_entry-cases i e m h in
    let (grown, _, _) = merge_entry_grows i e m n h c in
    let (below', same) = merge_entry_keeps k i e m n below s c in
    let (n', p', grown', below'', same') =
      merge_entries_keep k (i + 1) es n (omega arith) (omega arith) below'
        (NoConflictBelow-same k m.log n.log (i + 1) es same rest) in
    (n', rw (p, u64_small (i + 1) (omega arith)) p', omega arith, below'', same' ∙ same)

-- What the log holds already is not stored again.
pub merge_entries_known :
    (i : LogIndex) (es : List LogEntry) (m : Merge)
    → i + length es < 18446744073709551616
    → HasTerms m.log i es
    → (n : Merge) × (merge_entries i es m ≡ some n) × (n.log ≡ m.log)
unfolding merge_entries
merge_entries_known i [] m b h = (m, refl, refl)
merge_entries_known i (e ∷ es) m b (at, rest) =
    let (r, p) = merge_entry_same i e m at in
    let (n, p', same) =
      merge_entries_known (i + 1) es (record { log = m.log; rebuild = r }) (omega arith) rest in
    (n, rw (p, u64_small (i + 1) (omega arith)) p', same)

-- After the loop the log has the terms of the entries, and what stood before them.
pub merge_entries_stored :
    (i : LogIndex) (es : List LogEntry) (m : Merge)
    → i ≤ length m.log
    → i + length es < 18446744073709551616
    → (n : Merge) × (merge_entries i es m ≡ some n)
      × (i + length es ≤ length n.log)
      × (take i n.log ≡ take i m.log)
      × HasTerms n.log i es
unfolding merge_entries
merge_entries_stored i [] m h b = (m, refl, omega arith, refl, tt)
merge_entries_stored i (e ∷ es) m h b =
    let (n, p, c) = merge_entry-cases i e m h in
    let (grown, before, at) = merge_entry_grows i e m n h c in
    let (n', p', grown', before', rest) =
      merge_entries_stored (i + 1) es n (omega arith) (omega arith) in
    (
      n',
      rw (p, u64_small (i + 1) (omega arith)) p',
      omega arith,
      sym (take-take i (i + 1) n'.log (omega arith))
          ∙ ap (take i) before'
          ∙ take-take i (i + 1) n.log (omega arith)
          ∙ before,
      (
        sym (term_at-take (i + 1) i n'.log (omega arith))
            ∙ ap (λ l. term_at l i) before'
            ∙ term_at-take (i + 1) i n.log (omega arith)
            ∙ at,
        rest,
      ),
    )
