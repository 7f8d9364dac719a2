-- ===== src/Raft/Service/Agreement.antt =====
-- What the loop of AppendEntries over the new entries does to the whole log: it ends, it makes the log
-- agree with the leader's, and it leaves alone what does not conflict.
use raft_thesis.Base.{
  List, [], ap, arith, get_elem?, length, length-append, length-take, refl, some, suc, sym, take,
  take-append_left, take-suc, take-take, take_all, ◌++◌, ◌+◌, ◌<◌, ◌∙◌, ◌∷◌, ◌≡◌, ◌≤◌,
}
use raft_thesis.Raft.Node.{term_at}
use raft_thesis.Raft.Node.Core.{u64_small}
use raft_thesis.Raft.Node.Log.{term_at-append_end, term_at-get_elem?, term_at-lt}
use raft_thesis.Raft.Service.{Merge, merge_entries}
use raft_thesis.Raft.Service.Merging.{
  LogMatching, LogMatching-take, MergeCase, Slice, entry_appended, entry_cut, entry_kept,
  merge_entry-cases,
}
use raft_thesis.Raft.Types.{LogEntry, LogIndex}

-- The prefix of a log by one round, against the leader's log.
pub merge_entry-agrees :
    (i : LogIndex) (e : LogEntry) (m n : Merge) (l : List LogEntry)
    → i ≤ length m.log
    → take i m.log ≡ take i l
    → get_elem? l i ≡ some e
    → LogMatching m.log l
    → MergeCase i e m n
    → (take (suc i) n.log ≡ take (suc i) l) × LogMatching n.log l
merge_entry-agrees i e m n l h agree at match (entry_kept same term) =
    (ap (take (suc i)) same ∙ match i e.term term (term_at-get_elem? l i at), rw same match)
merge_entry-agrees i e m n l h agree at match (entry_appended p end) =
    (rw whole (take-take (suc i) (suc i) l (omega arith)), rw whole (LogMatching-take (suc i) l))
  where
    whole : n.log ≡ take (suc i) l
    whole =
        p
        ∙ ap (λ r. r ++ e ∷ []) (sym (take_all i m.log (omega arith)) ∙ agree)
        ∙ sym (take-suc l i at)
merge_entry-agrees i e m n l h agree at match (entry_cut t term other p) =
    (rw whole (take-take (suc i) (suc i) l (omega arith)), rw whole (LogMatching-take (suc i) l))
  where
    whole : n.log ≡ take (suc i) l
    whole = p ∙ ap (λ r. r ++ e ∷ []) agree ∙ sym (take-suc l i at)

-- A round leaves what stands before the index, and the log reaches past the index.
pub merge_entry_grows :
    (i : LogIndex) (e : LogEntry) (m n : Merge)
    → i ≤ length m.log
    → MergeCase i e m n
    → (suc i ≤ length n.log) × (take i n.log ≡ take i m.log) × (term_at n.log i ≡ some e.term)
merge_entry_grows i e m n h (entry_kept same term) = rw same (term_at-lt m.log i term, refl, term)
merge_entry_grows i e m n h (entry_appended p end) = rw p (
  omega (arith, length-append m.log (e ∷ [])),
  take-append_left i m.log (e ∷ []) h,
  term_at-append_end m.log [] e i end,
)
merge_entry_grows i e m n h (entry_cut t term other p) = rw p (
  omega (arith, length-append (take i m.log) (e ∷ []), length-take i m.log),
  take-append_left i (take i m.log) (e ∷ []) (omega (arith, length-take i m.log))
      ∙ take-take i i m.log (omega arith),
  term_at-append_end (take i m.log) [] e i (omega (arith, length-take i m.log)),
)

-- The loop ends without a fault, and makes the log agree with the leader's as far as the entries go.
pub merge_entries-agrees :
    (i : LogIndex) (es : List LogEntry) (m : Merge) (l : List LogEntry)
    → i ≤ length m.log
    → i + length es < 18446744073709551616
    → take i m.log ≡ take i l
    → Slice l i es
    → LogMatching m.log l
    → (n : Merge) × (merge_entries i es m ≡ some n)
      × (i + length es ≤ length n.log)
      × (take (i + length es) n.log ≡ take (i + length es) l)
      × LogMatching n.log l
unfolding merge_entries
merge_entries-agrees i [] m l h b agree s match =
    let z : i + 0 ≡ i = omega arith in (m, refl, omega arith, rw z agree, match)
merge_entries-agrees i (e ∷ es) m l h b agree (at, s) match =
    let (n, p, c) = merge_entry-cases i e m h in
    let (grown, _, _) = merge_entry_grows i e m n h c in
    let (agree', match') = merge_entry-agrees i e m n l h agree at match c in
    let one : i + 1 ≡ suc i = omega arith in
    let (n', p', grown', agree'', match'') =
      merge_entries-agrees (i + 1) es n l (omega arith) (omega arith) (rw one agree') s match' in
    let eq : i + suc (length es) ≡ i + 1 + length es = omega arith in
    (n', rw (p, u64_small (i + 1) (omega arith)) p', omega arith, rw eq agree'', match'')
