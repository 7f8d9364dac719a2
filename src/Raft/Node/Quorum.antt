-- ===== src/Raft/Node/Quorum.antt =====
-- quorumVotes: a majority, so two quorums of the same voters have a voter in common.
use raft_thesis.Base.{
  Bool, Bool-cases, List, [], arith, false, if◌then◌else◌, inl, inr, length, suc, true, ℕ, ◌*◌, ◌+◌,
  ◌<◌, ◌∷◌, ◌≡◌, ◌≤◌,
}
use raft_thesis.Raft.Node.{Raft, quorum_votes}
use raft_thesis.Raft.Types.{NodeId}

-- How many elements pass a test.
abbrev pub count_if {ℓ} : {A : Type ℓ} → (A → Bool) → List A → ℕ
count_if p [] = 0
count_if p (x ∷ xs) = let rest = count_if p xs in if p x then suc rest else rest

-- An element that passes both tests.
pub data Both {ℓ} {A : Type ℓ} (p q : A → Bool) : List A → Type ℓ where
  both_here : {x : A} {xs : List A} → p x ≡ true → q x ≡ true → Both p q (x ∷ xs)
  both_there : {x : A} {xs : List A} → Both p q xs → Both p q (x ∷ xs)

count_if-le {ℓ} : {A : Type ℓ} (p : A → Bool) (xs : List A) → count_if p xs ≤ length xs
count_if-le p [] = omega arith
count_if-le p (x ∷ xs) = ground (arith, count_if-le p xs)

-- Two tests that pass more elements than there are pass a common one.
pigeonhole {ℓ} :
    {A : Type ℓ} (p q : A → Bool) (xs : List A)
    → length xs < count_if p xs + count_if q xs
    → Both p q xs
pigeonhole p q [] h = absurd (omega arith)
pigeonhole p q (x ∷ xs) h = elim (Bool-cases (p x)) [
  | inl a ↦ elim (Bool-cases (q x)) [
    | inl b ↦ both_here a b
    | inr b ↦ both_there (pigeonhole p q xs (less a b))
  ]
  | inr a ↦ both_there (pigeonhole p q xs (fewer a))
]
  where
    less : p x ≡ true → q x ≡ false → length xs < count_if p xs + count_if q xs
    less a b = ground arith

    fewer : p x ≡ false → length xs < count_if p xs + count_if q xs
    fewer a = ground arith

-- A quorum is more than half of the voters.
pub quorum_votes-majority : (rf : Raft) → length rf.voter_members < 2 * quorum_votes rf
unfolding quorum_votes
quorum_votes-majority rf = ground arith

-- Two sets of supporters that each reach the quorum of a node's voters share a voter: no two candidates
-- can both have a quorum of votes that are cast once.
pub quorum_votes-Both :
    (rf : Raft) (p q : NodeId → Bool)
    → quorum_votes rf ≤ count_if p rf.voter_members
    → quorum_votes rf ≤ count_if q rf.voter_members
    → Both p q rf.voter_members
quorum_votes-Both rf p q hp hq =
    pigeonhole p q rf.voter_members (omega (arith, quorum_votes-majority rf))
