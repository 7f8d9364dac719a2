-- ===== src/Raft/Futures/Resolve.antt =====
-- raft-consensus/internal/raft/futures.go: who is woken, and what a waiter then gets.
use raft_thesis.Base.{
  nat_eq, Bool-cases, Map, Option, [], ap, arith, if◌then◌else◌, inl, inr, int_beq, lookup, ltb,
  nat_eq_iff, none, pos, refl, some, sym, true, ◌++◌, ◌=?◌, ◌||◌, ◌∙◌, ◌∷◌, ◌≡◌,
}
use raft_thesis.Raft.Futures.{resolve_futures, resolve_one}
use raft_thesis.Raft.Types.{IndexFuture, LogIndex}

-- The future of an index after resolveFutures.
abbrev pub after_resolve : LogIndex → LogIndex → IndexFuture → Option IndexFuture
after_resolve up_to i f =
    if ltb up_to i || f.resolved
    then some f
    else if int_beq f.waiters (pos 0)
    then none
    else some (record f { resolved = true })

-- No key twice: what Go's maps guarantee.
abbrev pub AreDistinct : Map LogIndex IndexFuture → Type 0
AreDistinct [] = Unit {0}
AreDistinct ((i, f) ∷ m) = (lookup i m ≡ none) × AreDistinct m

lookup-append :
    (j : LogIndex) (m n : Map LogIndex IndexFuture)
    → lookup j (m ++ n) ≡ elim (lookup j m) [ none ↦ lookup j n | some f ↦ some f ]
unfolding lookup
lookup-append j [] n = refl
lookup-append j ((i, f) ∷ m) n = elim (Bool-cases (i =? j)) [
  | inl same ↦ rw same refl
  | inr other ↦ rw other (lookup-append j m n)
]

resolve_one-lookup :
    (up_to i j : LogIndex) (f : IndexFuture)
    → lookup j (resolve_one up_to (i, f)) ≡ (if i =? j then after_resolve up_to i f else none)
unfolding resolve_one lookup
resolve_one-lookup up_to i j f = ground arith

resolved_or_gone : (o r : Option IndexFuture) → r ≡ none → elim o [ none ↦ r | some f ↦ some f ] ≡ o
resolved_or_gone none r h = h
resolved_or_gone (some f) r h = refl

-- In a map without a key twice the loop treats every future by itself: behind the applied index, or
-- resolved before, it stays as it was; else it is resolved, with the error it holds, or gone if nobody
-- waits. No future appears.
pub resolve_futures-lookup :
    (up_to j : LogIndex) (m : Map LogIndex IndexFuture)
    → AreDistinct m
    → lookup j (resolve_futures up_to m)
      ≡ elim (lookup j m) [ none ↦ none | some f ↦ after_resolve up_to j f ]
unfolding resolve_futures lookup
resolve_futures-lookup up_to j [] d = refl
resolve_futures-lookup up_to j ((i, f) ∷ m) (new_key, d) =
    let one = resolve_one-lookup up_to i j f in
    let rest = resolve_futures-lookup up_to j m d in
    lookup-append j (resolve_one up_to (i, f)) (resolve_futures up_to m)
    ∙ elim (Bool-cases (i =? j)) [
      | inr other ↦ rw (one, other) rest
      | inl same ↦
          let e : i ≡ j = (nat_eq_iff i j).0 same in
          let gone : lookup j m ≡ none = ap (λ k. lookup k m) (sym e) ∙ new_key in
          rw (one, same)
            (resolved_or_gone (after_resolve up_to i f) _ (rest ∙ rw gone refl)
              ∙ ap (λ k. after_resolve up_to k f) e)
    ]
