-- ===== src/Raft/Node/Log.antt =====
-- Facts on the log's terms and its last entry.
use raft_thesis.Base.{
  List, [], ap, arith, get_elem?, length, refl, some, suc, take, zero, ℕ, ◌++◌, ◌+◌, ◌<◌, ◌∷◌, ◌≡◌,
}
use raft_thesis.Raft.Node.{last_log_info, term_at}
use raft_thesis.Raft.Types.{LogEntry, LogIndex, Term}

pub term_at-get_elem? :
    (log : List LogEntry) (i : LogIndex) {e : LogEntry}
    → get_elem? log i ≡ some e
    → term_at log i ≡ some e.term
unfolding term_at
term_at-get_elem? [] i h = cc
term_at-get_elem? (e ∷ es) zero h = cc
term_at-get_elem? (e ∷ es) (suc i) h = term_at-get_elem? es i h

-- Inside the log the read returns.
pub term_at-some :
    (log : List LogEntry) (i : LogIndex) → i < length log → (t : Term) × (term_at log i ≡ some t)
unfolding term_at
term_at-some [] i h = elim h [ ]
term_at-some (e ∷ es) zero h = (e.term, refl)
term_at-some (e ∷ es) (suc i) h = term_at-some es i (omega arith)

-- A read that returns is inside the log.
pub term_at-lt :
    (log : List LogEntry) (i : LogIndex) {t : Term} → term_at log i ≡ some t → i < length log
unfolding term_at
term_at-lt [] i h = cc
term_at-lt (e ∷ es) zero h = omega arith
term_at-lt (e ∷ es) (suc i) h = omega (arith, term_at-lt es i h)

pub term_at-take : (n i : ℕ) (log : List LogEntry) → i < n → term_at (take n log) i ≡ term_at log i
unfolding term_at
term_at-take zero i log h = elim h [ ]
term_at-take (suc n) i [] h = refl
term_at-take (suc n) zero (e ∷ es) h = refl
term_at-take (suc n) (suc i) (e ∷ es) h = term_at-take n i es (omega arith)

pub term_at-append_left :
    (xs ys : List LogEntry) (i : ℕ) → i < length xs → term_at (xs ++ ys) i ≡ term_at xs i
unfolding term_at
term_at-append_left [] ys i h = elim h [ ]
term_at-append_left (e ∷ es) ys zero h = refl
term_at-append_left (e ∷ es) ys (suc i) h = term_at-append_left es ys i (omega arith)

pub term_at-append_end :
    (xs ys : List LogEntry) (e : LogEntry) (i : ℕ)
    → i ≡ length xs
    → term_at (xs ++ e ∷ ys) i ≡ some e.term
unfolding term_at
term_at-append_end [] ys e zero h = refl
term_at-append_end [] ys e (suc i) h = absurd (omega arith)
term_at-append_end (x ∷ xs) ys e zero h = absurd (omega arith)
term_at-append_end (x ∷ xs) ys e (suc i) h = term_at-append_end xs ys e i (omega arith)

-- The last index is one below the length.
pub last_log_info-length :
    (log : List LogEntry) → 0 < length log → (last_log_info log).0 + 1 ≡ length log
unfolding last_log_info
last_log_info-length [] h = absurd (omega arith)
last_log_info-length (e ∷ []) h = omega arith
last_log_info-length (e ∷ f ∷ es) h = omega (arith, last_log_info-length (f ∷ es) (omega arith))

-- The last term is that of the entry at the last index.
pub last_log_info-term_at :
    (log : List LogEntry)
    → 0 < length log
    → term_at log (last_log_info log).0 ≡ some (last_log_info log).1
unfolding last_log_info term_at
last_log_info-term_at [] h = absurd (omega arith)
last_log_info-term_at (e ∷ []) h = refl
last_log_info-term_at (e ∷ f ∷ es) h =
    rw (term_at-suc (e ∷ f ∷ es) (last_log_info (f ∷ es)).0)
      (last_log_info-term_at (f ∷ es) (omega arith))
  where
    term_at-suc : (l : List LogEntry) (i : ℕ) → term_at l (i + 1) ≡ term_at l (suc i)
    term_at-suc l i = ap (λ n. term_at l n) (omega arith)

pub last_log_info-append :
    (log : List LogEntry) (e : LogEntry) → last_log_info (log ++ e ∷ []) ≡ (length log, e.term)
unfolding last_log_info
last_log_info-append [] e = refl
last_log_info-append (x ∷ []) e = ground arith
last_log_info-append (x ∷ y ∷ es) e = ground (arith, last_log_info-append (y ∷ es) e)
