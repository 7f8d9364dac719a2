-- ===== src/Raft/Replication/Commit.antt =====
-- updateCommitIndex: the leader commits the last entry of its own term that a quorum holds.
use raft_thesis.Base.{
  Bool, Bool-cases, [], arith, false, if◌then◌else◌, inl, inr, leb, length, ltb, refl, some,
  some_inj, suc, sym, true, zero, ℕ, ℕ_discrete, ◌&&◌, ◌+◌, ◌-◌, ◌<◌, ◌==◌, ◌∙◌, ◌∷◌, ◌≡◌, ◌≤◌, ◌⊎◌,
}
use raft_thesis.Raft.Node.{Raft, get_last_log_info, quorum_votes, term_at}
use raft_thesis.Raft.Node.Core.{IsSound, u64_small}
use raft_thesis.Raft.Node.Log.{last_log_info-length, term_at-some}
use raft_thesis.Raft.Replication.{commit_scan, match_count, update_commit_index}
use raft_thesis.Raft.Types.{LogIndex, Term, wake_applier}

-- An entry of the current term that a quorum is known to hold.
abbrev pub Committable : Raft → ℕ → LogIndex → Type 0
Committable rf quorum j = (term_at rf.log j ≡ some rf.current_term) × (quorum ≤ match_count rf j)

-- What a scan from `n` over `rounds` indexes ends with.
pub record Scanned (rf : Raft) (quorum rounds : ℕ) (n c r : LogIndex) : Type 0 where
  pub chosen : (r ≡ c) ⊎ ((n ≤ r) × (r < n + rounds) × (Committable rf quorum r))
  pub highest : (j : LogIndex) → n ≤ j → j < n + rounds → Committable rf quorum j → j ≤ r

Scanned-none : (rf : Raft) (quorum : ℕ) (n c : LogIndex) → Scanned rf quorum 0 n c c
Scanned-none rf quorum n c = record {
  chosen = inl refl;
  highest = λ j low high _. absurd (omega arith);
}

Scanned-pass :
    (rf : Raft) (quorum rounds : ℕ) (n c r : LogIndex)
    → ¬ Committable rf quorum n
    → Scanned rf quorum rounds (n + 1) c r
    → Scanned rf quorum (suc rounds) n c r
Scanned-pass rf quorum rounds n c r not_n s = record {
  chosen = elim s.chosen [
    | inl same ↦ inl same
    | inr (low, high, ok) ↦ inr (omega arith, omega arith, ok)
  ];
  highest = λ j low high ok. elim (ℕ_discrete j n) [
    | yes here ↦ absurd (not_n (rw here at ok))
    | no past ↦ s.highest j (omega arith) (omega arith) ok
  ];
}

Scanned-take :
    (rf : Raft) (quorum rounds : ℕ) (n c r : LogIndex)
    → Committable rf quorum n
    → Scanned rf quorum rounds (n + 1) n r
    → Scanned rf quorum (suc rounds) n c r
Scanned-take rf quorum rounds n c r ok_n s = record {
  chosen = elim s.chosen [
    | inl same ↦ inr (omega arith, omega arith, rw same ok_n)
    | inr (low, high, ok) ↦ inr (omega arith, omega arith, ok)
  ];
  highest = λ j low high ok. elim (ℕ_discrete j n) [
    | yes here ↦ elim s.chosen [ inl same ↦ omega arith | inr (low', _, _) ↦ omega arith ]
    | no past ↦ s.highest j (omega arith) (omega arith) ok
  ];
}

-- The test of the loop, and what it says.
takes : Raft → ℕ → LogIndex → Term → Bool
takes rf quorum n t = t == rf.current_term && leb quorum (match_count rf n)

takes-Committable :
    (rf : Raft) (quorum : ℕ) (n : LogIndex) (t : Term)
    → term_at rf.log n ≡ some t
    → takes rf quorum n t ≡ true
    → Committable rf quorum n
unfolding takes
takes-Committable rf quorum n t at h = ground arith

not-takes :
    (rf : Raft) (quorum : ℕ) (n : LogIndex) (t : Term)
    → term_at rf.log n ≡ some t
    → takes rf quorum n t ≡ false
    → ¬ Committable rf quorum n
unfolding takes
not-takes rf quorum n t at h (same, enough) =
    let e : t ≡ rf.current_term = some_inj (sym at ∙ same) in ground arith

pub commit_scan-Scanned :
    (rf : Raft) (quorum rounds : ℕ) (n c : LogIndex)
    → n + rounds ≤ length rf.log
    → (r : LogIndex) × (commit_scan rf quorum rounds n c ≡ some r) × Scanned rf quorum rounds n c r
unfolding commit_scan takes
commit_scan-Scanned rf quorum zero n c h = (c, refl, Scanned-none rf quorum n c)
commit_scan-Scanned rf quorum (suc rounds) n c h =
    let (t, at) = term_at-some rf.log n (omega arith) in
    elim (Bool-cases (takes rf quorum n t)) [
      | inl ok ↦
          let (r, p, s) = commit_scan-Scanned rf quorum rounds (n + 1) n (omega arith) in
          (
            r,
            rw (at, ok) p,
            Scanned-take rf quorum rounds n c r (takes-Committable rf quorum n t at ok) s,
          )
      | inr bad ↦
          let (r, p, s) = commit_scan-Scanned rf quorum rounds (n + 1) c (omega arith) in
          (
            r,
            rw (at, bad) p,
            Scanned-pass rf quorum rounds n c r (not-takes rf quorum n t at bad) s,
          )
    ]

-- What updateCommitIndex leaves of the commit index.
pub record Commits (rf : Raft) (r : LogIndex) : Type 0 where
  pub forward : rf.commit_index ≤ r
  pub within : r < length rf.log
  pub chosen : (r ≡ rf.commit_index) ⊎ Committable rf (quorum_votes rf) r
  pub highest :
      (j : LogIndex)
      → rf.commit_index < j
      → j < length rf.log
      → Committable rf (quorum_votes rf) j
      → j ≤ r

-- The rounds of the loop, and the first index behind the commit index.
abbrev rounds_of : Raft → ℕ
rounds_of rf = length rf.log - (rf.commit_index + 1)

update_commit_index_runs :
    (rf : Raft) (r : LogIndex)
    → 0 < length rf.log
    → rf.commit_index + 1 < 18446744073709551616
    → commit_scan rf (quorum_votes rf) (rounds_of rf) (rf.commit_index + 1) rf.commit_index ≡ some r
    → update_commit_index rf
      ≡ some
          (record rf { commit_index = r }, if ltb rf.last_applied r then wake_applier ∷ [] else [])
unfolding update_commit_index get_last_log_info
update_commit_index_runs rf r h small p =
    rw (u64_small (rf.commit_index + 1) small, last_log_info-length rf.log h, p)

Scanned-Commits :
    (rf : Raft) (r : LogIndex)
    → rf.commit_index < length rf.log
    → Scanned rf (quorum_votes rf) (rounds_of rf) (rf.commit_index + 1) rf.commit_index r
    → Commits rf r
Scanned-Commits rf r h s = elim s.chosen [
  | inl same ↦ record {
    forward = omega arith;
    within = omega arith;
    chosen = inl same;
    highest = λ j low high ok. s.highest j (omega arith) (omega arith) ok;
  }
  | inr (low, high, ok) ↦ record {
    forward = omega arith;
    within = omega arith;
    chosen = inr ok;
    highest = λ j low' high' ok'. s.highest j (omega arith) (omega arith) ok';
  }
]

-- From a sound node updateCommitIndex returns and changes the commit index alone: to the highest entry
-- of the current term above it that a quorum is known to hold, or not at all if there is none. An entry
-- of an older term is never chosen. The applier is woken exactly if there is something to apply.
pub update_commit_index-Commits :
    (rf : Raft)
    → IsSound rf
    → length rf.log < 18446744073709551616
    → (r : LogIndex) × (update_commit_index rf
        ≡ some (
          record rf { commit_index = r },
          if ltb rf.last_applied r then wake_applier ∷ [] else [],
        ))
      × Commits rf r
update_commit_index-Commits rf s small =
    let (r, p, scanned) =
      commit_scan-Scanned rf (quorum_votes rf) (rounds_of rf) (rf.commit_index + 1) rf.commit_index
        (omega (arith, s.committed)) in
    (
      r,
      update_commit_index_runs rf r (omega (arith, s.committed)) (omega (arith, s.committed)) p,
      Scanned-Commits rf r s.committed scanned,
    )
