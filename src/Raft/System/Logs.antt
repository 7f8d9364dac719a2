-- ===== src/Raft/System/Logs.antt =====
-- No entry of a log is newer than a term.
use raft_thesis.Base.{
  int_eq, >>=-eq-some, List, Map, String, [], arith, drop, get_or, inl, inr, lookup, none, some,
  some_inj, suc, take, zero, ℕ, ◌++◌, ◌+◌, ◌∷◌, ◌≡◌, ◌≤◌, ◌⊎◌,
}
use raft_thesis.Raft.Node.{last_log_info}
use raft_thesis.Raft.Service.{Merge, merge_entries, merge_entry}
use raft_thesis.Raft.Transitions.{founding_entries}
use raft_thesis.Raft.Types.{Env, LogEntry, LogIndex, NodeId, Term, entry_add_voter, u64}

abbrev pub Below : Term → List LogEntry → Type 0
Below t [] = Unit {0}
Below t (e ∷ es) = (e.term ≤ t) × Below t es

pub Below-mono : (s t : Term) (l : List LogEntry) → s ≤ t → Below s l → Below t l
Below-mono s t [] h b = tt
Below-mono s t (e ∷ es) h (x, b) = (omega arith, Below-mono s t es h b)

pub Below-append : (t : Term) (l m : List LogEntry) → Below t l → Below t m → Below t (l ++ m)
Below-append t [] m b c = c
Below-append t (e ∷ es) m (x, b) c = (x, Below-append t es m b c)

pub Below-take : (t : Term) (n : ℕ) (l : List LogEntry) → Below t l → Below t (take n l)
Below-take t zero l b = tt
Below-take t (suc n) [] b = tt
Below-take t (suc n) (e ∷ es) (x, b) = (x, Below-take t n es b)

pub Below-drop : (t : Term) (n : ℕ) (l : List LogEntry) → Below t l → Below t (drop n l)
Below-drop t zero l b = b
Below-drop t (suc n) [] b = tt
Below-drop t (suc n) (e ∷ es) (x, b) = Below-drop t n es b

-- The last term of a log, which is 0 for an empty one.
pub last_log_info-Below : (t : Term) (l : List LogEntry) → Below t l → (last_log_info l).1 ≤ t
unfolding last_log_info
last_log_info-Below t [] b = omega arith
last_log_info-Below t (e ∷ []) (x, b) = x
last_log_info-Below t (e ∷ f ∷ es) (x, b) = last_log_info-Below t (f ∷ es) b

merge_entry-log :
    (i : LogIndex) (e : LogEntry) (m n : Merge)
    → merge_entry i e m ≡ some n
    → (n.log ≡ m.log) ⊎ (n.log ≡ m.log ++ e ∷ []) ⊎ (n.log ≡ take i m.log ++ e ∷ [])
unfolding merge_entry
merge_entry-log i e m n p = ground arith

merge_entry-Below :
    (t : Term) (i : LogIndex) (e : LogEntry) (m n : Merge)
    → merge_entry i e m ≡ some n
    → e.term ≤ t
    → Below t m.log
    → Below t n.log
merge_entry-Below t i e m n p h b = elim (merge_entry-log i e m n p) [
  | inl same ↦ rw same b
  | inr (inl longer) ↦ rw longer (Below-append t m.log (e ∷ []) b (h, tt))
  | inr (inr shorter) ↦
      rw shorter (Below-append t (take i m.log) (e ∷ []) (Below-take t i m.log b) (h, tt))
]

pub merge_entries-Below :
    (t : Term) (i : LogIndex) (es : List LogEntry) (m n : Merge)
    → merge_entries i es m ≡ some n
    → Below t es
    → Below t m.log
    → Below t n.log
unfolding merge_entries
merge_entries-Below t i [] m n p h b = rw (← some_inj p) b
merge_entries-Below t i (e ∷ es) m n p (h, hs) b =
    let (k, q, r) = >>=-eq-some (merge_entry i e m) _ p in
    merge_entries-Below t (u64 (i + 1)) es k n r hs (merge_entry-Below t i e m k q h b)

pub founding_entries-Below :
    (env : Env) (t : Term) (cluster : Map NodeId String) (ids : List NodeId)
    → Below t (founding_entries env t cluster ids)
unfolding founding_entries
founding_entries-Below env t cluster [] = tt
founding_entries-Below env t cluster (id ∷ ids) =
    let rest = founding_entries-Below env t cluster ids in
    elim (env.encode_config_add id (get_or (lookup id cluster) ""))
      as (λ o. Below t (elim o [
        | none ↦ founding_entries env t cluster ids
        | some cmd ↦
            record { type = entry_add_voter; term = t; command = some cmd }
            ∷ founding_entries env t cluster ids
      ])) [ none ↦ rest | some cmd ↦ (omega arith, rest) ]
