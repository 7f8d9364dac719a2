-- ===== src/Raft/System/Founded.antt =====
-- A new leader only adds entries of its own term.
use raft_thesis.Base.{
  int_eq, Bool-cases, List, Map, String, [], ap, append-nil, append_assoc, arith, false, get_or,
  inl, inr, length, lookup, none, not, refl, some, some_inj, suc, sym, zero, ◌&&◌, ◌++◌, ◌==◌, ◌∙◌,
  ◌∷◌, ◌≡◌, ◌≤◌,
}
use raft_thesis.Raft.Node.{Raft, get_last_log_info, term_at}
use raft_thesis.Raft.Transitions.{
  append_founding, become_leader, founding_entries, no_op, sorted_bootstrap_ids, take_office,
}
use raft_thesis.Raft.Transitions.Office.{begin_term-log}
use raft_thesis.Raft.Types.{
  Env, LogEntry, LogIndex, NodeId, Term, entry_add_voter, is_leader, leader,
}

-- All entries have a term.
abbrev pub AllOf : Term → List LogEntry → Type 0
AllOf t [] = Unit {0}
AllOf t (e ∷ es) = (e.term ≡ t) × AllOf t es

AllOf-append : (t : Term) (l m : List LogEntry) → AllOf t l → AllOf t m → AllOf t (l ++ m)
AllOf-append t [] m a b = b
AllOf-append t (e ∷ es) m (x, a) b = (x, AllOf-append t es m a b)

-- The entries behind a prefix.
pub AllOf-term_at :
    (t : Term) (old new' : List LogEntry) (k : LogIndex) (u : Term)
    → AllOf t new'
    → length old ≤ k
    → term_at (old ++ new') k ≡ some u
    → u ≡ t
unfolding term_at
AllOf-term_at t [] [] k u a h at = cc
AllOf-term_at t [] (e ∷ es) zero u (x, a) h at = sym (some_inj at) ∙ x
AllOf-term_at t [] (e ∷ es) (suc k) u (x, a) h at = AllOf-term_at t [] es k u a (omega arith) at
AllOf-term_at t (o ∷ os) new' zero u a h at = absurd (omega arith)
AllOf-term_at t (o ∷ os) new' (suc k) u a h at = AllOf-term_at t os new' k u a (omega arith) at

founding_entries-AllOf :
    (env : Env) (t : Term) (cluster : Map NodeId String) (ids : List NodeId)
    → AllOf t (founding_entries env t cluster ids)
unfolding founding_entries
founding_entries-AllOf env t cluster [] = tt
founding_entries-AllOf env t cluster (id ∷ ids) =
    let rest = founding_entries-AllOf env t cluster ids in
    elim (env.encode_config_add id (get_or (lookup id cluster) ""))
      as (λ o. AllOf t (elim o [
        | none ↦ founding_entries env t cluster ids
        | some cmd ↦
            record { type = entry_add_voter; term = t; command = some cmd }
            ∷ founding_entries env t cluster ids
      ])) [ none ↦ rest | some cmd ↦ (refl, rest) ]

append_founding-added :
    (env : Env) (rf : Raft)
    → (es : List LogEntry) × ((append_founding env rf).log ≡ rf.log ++ es)
      × AllOf rf.current_term es
      × ((append_founding env rf).current_term ≡ rf.current_term)
unfolding append_founding
append_founding-added env rf =
    elim (Bool-cases ((get_last_log_info rf).0 == 0 && not (length rf.bootstrap_cluster == 0))) [
      | inl founding ↦ (
        founding_entries env rf.current_term rf.bootstrap_cluster
            (sorted_bootstrap_ids rf.bootstrap_cluster),
        rw founding refl,
        founding_entries-AllOf env rf.current_term rf.bootstrap_cluster
            (sorted_bootstrap_ids rf.bootstrap_cluster),
        rw founding refl,
      )
      | inr plain ↦ ([], rw plain (sym (append-nil rf.log)), tt, rw plain refl)
    ]

pub become_leader-added :
    (env : Env) (rf : Raft)
    → is_leader rf.state ≡ false
    → (es : List LogEntry) × ((become_leader env rf).0.log ≡ rf.log ++ es)
      × AllOf rf.current_term es
unfolding become_leader take_office
become_leader-added env rf idle =
    let led = record rf { state = leader; hint_leader_id = rf.id } in
    let (es, log, all, term) = append_founding-added env led in
    let end = no_op (append_founding env led).current_term ∷ [] in
    (
      es ++ end,
      rw idle (
          begin_term-log env (append_founding env led)
          ∙ ap (λ l. l ++ end) log
          ∙ append_assoc rf.log es end),
      AllOf-append rf.current_term es end all (term, tt),
    )
