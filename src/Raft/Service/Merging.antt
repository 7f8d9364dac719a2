-- ===== src/Raft/Service/Merging.antt =====
-- The loop of AppendEntries over the new entries: it never faults, and makes the follower's log agree
-- with the leader's as far as the entries go.
use raft_thesis.Base.{
  Bool, List, [], ap, arith, dec_lt, get_elem?, length, length-take, le→ltb_false, lt→ltb,
  nat_eq_iff, refl, some, suc, take, take-take, true, ℕ, ℕ_discrete, ◌++◌, ◌+◌, ◌||◌, ◌∙◌, ◌∷◌, ◌≡◌,
  ◌≢◌, ◌≤◌,
}
use raft_thesis.Raft.Membership.{entry_type_changes_membership}
use raft_thesis.Raft.Node.{term_at}
use raft_thesis.Raft.Node.Log.{term_at-lt, term_at-some}
use raft_thesis.Raft.Service.{Merge, merge_entry}
use raft_thesis.Raft.Types.{LogEntry, LogIndex, Term}

-- The entries are those of a log from an index on.
abbrev pub Slice : List LogEntry → LogIndex → List LogEntry → Type 0
Slice log i [] = Unit {0}
Slice log i (e ∷ es) = (get_elem? log i ≡ some e) × Slice log (i + 1) es

-- Raft's Log Matching: logs with the same term at an index agree up to that index.
abbrev pub LogMatching : List LogEntry → List LogEntry → Type 0
LogMatching f l =
    (j : LogIndex) (t : Term)
    → term_at f j ≡ some t
    → term_at l j ≡ some t
    → take (suc j) f ≡ take (suc j) l

-- A prefix of a log matches it.
pub LogMatching-take : (k : ℕ) (l : List LogEntry) → LogMatching (take k l) l
LogMatching-take k l j t hf hl = take-take (suc j) k l short
  where
    short : suc j ≤ k
    short = omega (arith, term_at-lt (take k l) j hf, length-take k l)

-- An entry beyond the log is appended.
merge_entry_beyond :
    (i : LogIndex) (e : LogEntry) (m : Merge)
    → length m.log ≤ i
    → (b : Bool) × (merge_entry i e m ≡ some (record { log = m.log ++ e ∷ []; rebuild = b }))
unfolding merge_entry
merge_entry_beyond i e m h =
    (entry_type_changes_membership e.type || m.rebuild, rw (le→ltb_false i (length m.log) h))

-- An entry whose term is in the log leaves the log as it is.
pub merge_entry_same :
    (i : LogIndex) (e : LogEntry) (m : Merge)
    → term_at m.log i ≡ some e.term
    → (b : Bool) × (merge_entry i e m ≡ some (record { log = m.log; rebuild = b }))
unfolding merge_entry
merge_entry_same i e m h = (
  entry_type_changes_membership e.type || m.rebuild,
  rw (lt→ltb i (length m.log) (term_at-lt m.log i h), h, (nat_eq_iff e.term e.term).1 refl),
)

-- An entry with another term cuts the log.
merge_entry_conflict :
    (i : LogIndex) (e : LogEntry) (m : Merge) (t : Term)
    → term_at m.log i ≡ some t
    → t ≢ e.term
    → merge_entry i e m ≡ some (record { log = take i m.log ++ e ∷ []; rebuild = true })
unfolding merge_entry
merge_entry_conflict i e m t h d =
    rw (lt→ltb i (length m.log) (term_at-lt m.log i h), h) (ground arith)

-- The three cases of one round.
pub data MergeCase (i : LogIndex) (e : LogEntry) (m n : Merge) : Type 0 where
  entry_kept : n.log ≡ m.log → term_at m.log i ≡ some e.term → MergeCase i e m n
  entry_appended : n.log ≡ m.log ++ e ∷ [] → i ≡ length m.log → MergeCase i e m n
  entry_cut :
      (t : Term)
      → term_at m.log i ≡ some t
      → t ≢ e.term
      → n.log ≡ take i m.log ++ e ∷ []
      → MergeCase i e m n

-- At an index within the log or at its end, a round takes one of the cases.
pub merge_entry-cases :
    (i : LogIndex) (e : LogEntry) (m : Merge)
    → i ≤ length m.log
    → (n : Merge) × (merge_entry i e m ≡ some n) × MergeCase i e m n
merge_entry-cases i e m h = elim (dec_lt i (length m.log)) [
  | no far ↦
      let (b, p) = merge_entry_beyond i e m (omega arith) in
      (record { log = m.log ++ e ∷ []; rebuild = b }, p, entry_appended refl (omega arith))
  | yes near ↦
      let (t, r) = term_at-some m.log i near in
      elim (ℕ_discrete t e.term) [
        | yes same ↦
            let (b, p) = merge_entry_same i e m (r ∙ ap some same) in
            (record { log = m.log; rebuild = b }, p, entry_kept refl (r ∙ ap some same))
        | no other ↦ (
          record { log = take i m.log ++ e ∷ []; rebuild = true },
          merge_entry_conflict i e m t r other,
          entry_cut t r other refl,
        )
      ]
]
