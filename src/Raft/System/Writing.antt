-- ===== src/Raft/System/Writing.antt =====
-- The log that the leader of each term has written so far, and the logs that follow it.
use raft_thesis.Base.{
  Bool-cases, List, [], ap, arith, dec_lt, get_elem?, get_elem?-lt, get_elem?-take, if◌then◌else◌,
  inl, inr, length, length-take, nat_eq_iff, nat_ne, refl, some, suc, sym, take, take-append_left,
  take-take, ℕ, ◌++◌, ◌+◌, ◌<◌, ◌==◌, ◌∙◌, ◌∷◌, ◌≡◌, ◌≢◌, ◌≤◌,
}
use raft_thesis.Raft.Node.{term_at}
use raft_thesis.Raft.Node.Log.{term_at-append_left, term_at-lt, term_at-take}
use raft_thesis.Raft.Service.Merging.{Slice}
use raft_thesis.Raft.Service.Replicates.{CutFrom}
use raft_thesis.Raft.Types.{AppendEntriesArgs, LogEntry, LogIndex, Term}

abbrev pub History : Type 0
History = Term → List LogEntry

-- A log is, up to each of its entries, the log of the leader of the entry's term.
abbrev pub Follows : History → List LogEntry → Type 0
Follows h l = (k : LogIndex) (t : Term) → term_at l k ≡ some t → take (suc k) l ≡ take (suc k) (h t)

-- Leaders only append.
abbrev pub Extends : History → History → Type 0
Extends h h' = (t : Term) (k : LogIndex) → k ≤ length (h t) → take k (h' t) ≡ take k (h t)

pub write : Term → List LogEntry → History → History
write t l h u = if u == t then l else h u

take-length-le : (k : ℕ) (l m : List LogEntry) → k ≤ length l → take k l ≡ take k m → k ≤ length m
take-length-le k l m h e = omega (arith, length-take k l, length-take k m, ap length e)

pub Follows-length :
    (h : History) (l : List LogEntry) (k : LogIndex) (t : Term)
    → Follows h l
    → term_at l k ≡ some t
    → suc k ≤ length (h t)
Follows-length h l k t f at =
    take-length-le (suc k) l (h t) (omega (arith, term_at-lt l k at)) (f k t at)

pub Follows-Extends :
    (h h' : History) (l : List LogEntry) → Extends h h' → Follows h l → Follows h' l
Follows-Extends h h' l e f k t at = f k t at ∙ sym (e t (suc k) (Follows-length h l k t f at))

-- A prefix follows too.
pub Follows-take : (h : History) (n : ℕ) (l : List LogEntry) → Follows h l → Follows h (take n l)
Follows-take h n l f k t at =
    let short : k < n = omega (arith, term_at-lt (take n l) k at, length-take n l) in
    take-take (suc k) n l short ∙ f k t (sym (term_at-take n k l short) ∙ at)

-- What a log has to the end that it shares with another, that one has.
pub term_at-prefix :
    (n k : ℕ) (l m : List LogEntry) → k < n → take n l ≡ take n m → term_at l k ≡ term_at m k
term_at-prefix n k l m h e =
    sym (term_at-take n k l h) ∙ ap (λ x. term_at x k) e ∙ term_at-take n k m h

get_elem?-prefix :
    (n k : ℕ) (l m : List LogEntry) → k < n → take n l ≡ take n m → get_elem? l k ≡ get_elem? m k
get_elem?-prefix n k l m h e =
    sym (get_elem?-take n k l h) ∙ ap (λ x. get_elem? x k) e ∙ get_elem?-take n k m h

Slice-prefix :
    (n i : ℕ) (l m es : List LogEntry)
    → i + length es ≤ n
    → take n l ≡ take n m
    → Slice l i es
    → Slice m i es
Slice-prefix n i l m [] h e s = tt
Slice-prefix n i l m (x ∷ xs) h e (at, rest) = (
  sym (get_elem?-prefix n i l m (omega arith) e) ∙ at,
  Slice-prefix n (i + 1) l m xs (omega arith) e rest,
)

Slice-length :
    (l : List LogEntry) (i : LogIndex) (es : List LogEntry)
    → i ≤ length l
    → Slice l i es
    → i + length es ≤ length l
Slice-length l i [] h s = omega arith
Slice-length l i (x ∷ xs) h (at, rest) =
    omega (arith, Slice-length l (i + 1) xs (omega (arith, get_elem?-lt l i at)) rest)

pub CutFrom-length :
    (l : List LogEntry) (args : AppendEntriesArgs)
    → CutFrom l args
    → args.prev_log_index + 1 + length args.entries ≤ length l
CutFrom-length l args c =
    Slice-length l (args.prev_log_index + 1) args.entries
      (omega (arith, term_at-lt l args.prev_log_index c.previous)) c.slice

pub CutFrom-Extends :
    (h h' : History) (args : AppendEntriesArgs)
    → Extends h h'
    → CutFrom (h args.term) args
    → CutFrom (h' args.term) args
CutFrom-Extends h h' args e c =
    let n = args.prev_log_index + 1 + length args.entries in
    let same = sym (e args.term n (CutFrom-length (h args.term) args c)) in
    record {
      small = c.small;
      previous =
          sym (term_at-prefix n args.prev_log_index (h args.term) (h' args.term) (omega arith) same)
          ∙ c.previous;
      slice =
          Slice-prefix n (args.prev_log_index + 1) (h args.term) (h' args.term) args.entries
            (omega arith) same c.slice;
    }

-- The history with a longer log for one term.
pub write-Extends :
    (h : History) (t : Term) (l : List LogEntry)
    → take (length (h t)) l ≡ h t
    → Extends h (write t l h)
unfolding write
write-Extends h t l e u k low = elim (Bool-cases (u == t)) [
  | inl same ↦
      let at : u ≡ t = (nat_eq_iff u t).0 same in
      rw same
        (longer (omega (arith, low, ap (λ v. length (h v)) at)) ∙ ap (λ v. take k (h v)) (sym at))
  | inr differ ↦ rw differ refl
]
  where
    longer : k ≤ length (h t) → take k l ≡ take k (h t)
    longer low' = sym (take-take k (length (h t)) l low') ∙ ap (take k) e

pub write-at : (h : History) (t : Term) (l : List LogEntry) → write t l h t ≡ l
unfolding write
write-at h t l = rw ((nat_eq_iff t t).1 refl) refl

pub write-other : (h : History) (t u : Term) (l : List LogEntry) → u ≢ t → write t l h u ≡ h u
unfolding write
write-other h t u l d = rw (nat_ne u t d) refl

-- The log of the leader of a term follows the history, when what it adds has that term.
pub Follows-write :
    (h : History) (t : Term) (old new' : List LogEntry)
    → Follows h old
    → take (length (h t)) (old ++ new') ≡ h t
    → ((k : LogIndex) (u : Term) → length old ≤ k → term_at (old ++ new') k ≡ some u → u ≡ t)
    → Follows (write t (old ++ new') h) (old ++ new')
Follows-write h t old new' f e added' k u at = elim (dec_lt k (length old)) [
  | no new'' ↦
      let now' = added' k u (omega arith) at in
      ap (take (suc k)) (sym (ap (write t (old ++ new') h) now' ∙ write-at h t (old ++ new')))
  | yes within ↦
      let at' = sym (term_at-append_left old new' k within) ∙ at in
      take-append_left (suc k) old new' within
      ∙ Follows-Extends h (write t (old ++ new') h) old (write-Extends h t (old ++ new') e) f k u
          at'
]
