-- ===== src/Raft/Voting/Cluster.antt =====
-- The votes of the nodes of a cluster: who voted for whom in a term.
use mathlib.Core.Path.{subst}
use raft_thesis.Base.{
  Bool, Bool-cases, List, [], arith, false, false≢true, inl, inr, int_eq, nat_eq_iff, sym, true,
  ◌&&◌, ◌==◌, ◌=?◌, ◌||◌, ◌∙◌, ◌∷◌, ◌≡◌,
}
use raft_thesis.Raft.Node.Quorum.{Both, both_here, both_there}
use raft_thesis.Raft.Types.{NodeId, Term}
use raft_thesis.Raft.Voting.{All, OnePerTerm, Traced}

-- Whether a node cast a vote for a candidate in a term.
abbrev pub has_vote : Term → NodeId → List (Term × NodeId) → Bool
has_vote t c [] = false
has_vote t c ((u, d) ∷ vs) = (u == t && d =? c) || has_vote t c vs

unfoldable pub voted_in : (NodeId → Traced) → Term → NodeId → NodeId → Bool
voted_in nodes t c id = has_vote t c (nodes id).votes

head_vote : (u t : Term) (d c : NodeId) → (u == t && d =? c) ≡ true → (u ≡ t) × (d ≡ c)
head_vote u t d c h = ground (arith, nat_eq_iff u t, int_eq.beq_iff d c, h)

All-has_vote :
    (P : Term × NodeId → Type 0) (t : Term) (c : NodeId) (vs : List (Term × NodeId))
    → All P vs
    → has_vote t c vs ≡ true
    → P (t, c)
All-has_vote P t c [] all h = absurd (false≢true h)
All-has_vote P t c ((u, d) ∷ vs) (here, rest) h = elim (Bool-cases (u == t && d =? c)) [
  | inl same ↦ let both = head_vote u t d c same in subst P (λ i. (both.0 i, both.1 i)) here
  | inr other ↦ All-has_vote P t c vs rest (rw other at h)
]

pub OnePerTerm-unique :
    (t : Term) (a b : NodeId) (vs : List (Term × NodeId))
    → OnePerTerm vs
    → has_vote t a vs ≡ true
    → has_vote t b vs ≡ true
    → a ≡ b
OnePerTerm-unique t a b [] one p q = absurd (false≢true p)
OnePerTerm-unique t a b ((u, d) ∷ vs) (here, rest) p q = elim (Bool-cases (u == t && d =? a)) [
  | inl x ↦ elim (Bool-cases (u == t && d =? b)) [
    | inl y ↦ sym (head_vote u t d a x).1 ∙ (head_vote u t d b y).1
    | inr y ↦
        let (term, same) = head_vote u t d a x in
        sym (All-has_vote _ t b vs here (rw y at q) (sym term) ∙ same)
  ]
  | inr x ↦ elim (Bool-cases (u == t && d =? b)) [
    | inl y ↦
        let (term, same) = head_vote u t d b y in
        All-has_vote _ t a vs here (rw x at p) (sym term) ∙ same
    | inr y ↦ OnePerTerm-unique t a b vs rest (rw x at p) (rw y at q)
  ]
]

pub Both-common :
    (p q : NodeId → Bool) (xs : List NodeId)
    → Both p q xs
    → (id : NodeId) × (p id ≡ true) × (q id ≡ true)
Both-common p q _ (both_here {x} h k) = (x, h, k)
Both-common p q _ (both_there b) = Both-common p q _ b
