-- ===== src/Raft/Service/Conflict.antt =====
-- The consistency check of AppendEntries: it never faults on a log with an entry, and a refusal names
-- the start of the conflicting term.
use raft_thesis.Base.{
  List, Option, ap, arith, dec_le, dec_lt, length, le→ltb_false, lt→ltb, nat_eq_iff, nat_ne, none,
  refl, some, some_inj, suc, sym, zero, ℕ_discrete, ◌-◌, ◌<◌, ◌∙◌, ◌≡◌, ◌≢◌, ◌≤◌,
}
use raft_thesis.Raft.Node.{Raft, get_last_log_info, last_log_info, term_at}
use raft_thesis.Raft.Node.Log.{last_log_info-length, term_at-lt, term_at-some}
use raft_thesis.Raft.Service.{check_consistency, conflict_start, refusal}
use raft_thesis.Raft.Types.{AppendEntriesArgs, AppendEntriesReply, LogEntry, LogIndex, Term, u64}

-- The run of entries of a term that ends at an index starts at `s`.
pub record RunStart (log : List LogEntry) (t : Term) (i s : LogIndex) : Type 0 where
  pub before : s ≤ i
  pub positive : 0 < i → 0 < s
  pub same : (j : LogIndex) → s ≤ j → j ≤ i → term_at log j ≡ some t
  pub first : 1 < s → (u : Term) → term_at log (s - 1) ≡ some u → u ≢ t

RunStart-zero : (log : List LogEntry) (t : Term) → term_at log 0 ≡ some t → RunStart log t 0 0
RunStart-zero log t h = record {
  before = omega arith;
  positive = λ p. p;
  same = λ j low high. let z : j ≡ 0 = omega arith in rw z h;
  first = λ p. absurd (omega arith);
}

RunStart-here :
    (log : List LogEntry) (t : Term) (i : LogIndex)
    → term_at log (suc i) ≡ some t
    → (0 < i → (u : Term) → term_at log i ≡ some u → u ≢ t)
    → RunStart log t (suc i) (suc i)
RunStart-here log t i h d = record {
  before = omega arith;
  positive = λ p. omega arith;
  same = λ j low high. let z : j ≡ suc i = omega arith in rw z h;
  first = λ p u at.
      let z : suc i - 1 ≡ i = omega arith in d (omega arith) u (ap (term_at log) (sym z) ∙ at);
}

RunStart-back :
    (log : List LogEntry) (t : Term) (i s : LogIndex)
    → term_at log (suc i) ≡ some t
    → 0 < i
    → RunStart log t i s
    → RunStart log t (suc i) s
RunStart-back log t i s h p r = record {
  before = omega (arith, r.before);
  positive = λ q. r.positive p;
  same = λ j low high. elim (dec_le j i) [
    | yes near ↦ r.same j low near
    | no far ↦ let z : j ≡ suc i = omega arith in rw z h
  ];
  first = r.first;
}

-- The loop back from the conflict ends at the start of the run.
pub conflict_start-RunStart :
    (log : List LogEntry) (t : Term) (i : LogIndex)
    → term_at log i ≡ some t
    → (s : LogIndex) × (conflict_start log t i ≡ some s) × RunStart log t i s
unfolding conflict_start
conflict_start-RunStart log t zero h = (0, refl, RunStart-zero log t h)
conflict_start-RunStart log t (suc zero) h =
    (1, refl, RunStart-here log t 0 h (λ p. absurd (omega arith)))
conflict_start-RunStart log t (suc (suc n)) h =
    let (u, at) = term_at-some log (suc n) (omega (arith, term_at-lt log (suc (suc n)) h)) in
    elim (ℕ_discrete u t) [
      | yes same ↦
          let (s, p, r) = conflict_start-RunStart log t (suc n) (at ∙ ap some same) in
          (s, rw (at, (nat_eq_iff u t).1 same) p, RunStart-back log t (suc n) s h (omega arith) r)
      | no other ↦ (
        suc (suc n),
        rw at (ground arith),
        RunStart-here log t (suc n) h λ p v at'. λ e. other (some_inj (sym at ∙ at') ∙ e),
      )
    ]

-- What the check can find.
pub data Consistency (args : AppendEntriesArgs) (rf : Raft)
    : Option AppendEntriesReply → Type 0 where
  matches : term_at rf.log args.prev_log_index ≡ some args.prev_log_term → Consistency args rf none
  missing :
      length rf.log ≤ args.prev_log_index
      → Consistency args rf (some (refusal rf.current_term (u64 (length rf.log)) 0))
  differs :
      (t : Term) (s : LogIndex)
      → term_at rf.log args.prev_log_index ≡ some t
      → t ≢ args.prev_log_term
      → RunStart rf.log t args.prev_log_index s
      → Consistency args rf (some (refusal rf.current_term s t))

-- On a log with an entry the consistency check returns, and it accepts exactly a message whose previous
-- entry is in the log with its term. If the log is too short, it asks for the index behind its end,
-- without a term; if the term there differs, it names that term and the first index of its run.
pub check_consistency-Consistency :
    (args : AppendEntriesArgs) (rf : Raft)
    → 0 < length rf.log
    → (r : Option AppendEntriesReply) × (check_consistency args rf ≡ some r) × Consistency args rf r
unfolding check_consistency get_last_log_info
check_consistency-Consistency args rf h =
    let len = last_log_info-length rf.log h in
    elim (dec_lt (last_log_info rf.log).0 args.prev_log_index) [
      | yes far ↦ (
        some (refusal rf.current_term (u64 (length rf.log)) 0),
        rw (lt→ltb _ _ far, len),
        missing (omega arith),
      )
      | no near ↦
          let (t, at) = term_at-some rf.log args.prev_log_index (omega arith) in
          elim (ℕ_discrete t args.prev_log_term) [
            | yes same ↦ (
              none,
              rw (
                le→ltb_false (last_log_info rf.log).0 args.prev_log_index (omega arith),
                at,
                (nat_eq_iff t args.prev_log_term).1 same,
              ),
              matches (at ∙ ap some same),
            )
            | no other ↦
                let (s, p, r) = conflict_start-RunStart rf.log t args.prev_log_index at in
                (
                  some (refusal rf.current_term s t),
                  rw (
                    le→ltb_false (last_log_info rf.log).0 args.prev_log_index (omega arith),
                    at,
                    nat_ne t args.prev_log_term other,
                    p,
                  ),
                  differs t s at other r,
                )
          ]
    ]
