-- ===== src/Raft/ReadIndex/Quorum.antt =====
-- The quorum round of ReadIndex: what its answer rests on, and that it ends.
use raft_thesis.Base.{
  Bool, Bool-cases, List, Option, [], arith, dec_lt, false, if◌then◌else◌, inl, inr, leb, leb→le,
  length, le→leb, ltb_ℤ, lt→leb_false, none, pos, refl, some, some_inj, sub_ℕ, suc, true, ℕ, ◌+◌,
  ◌-◌, ◌<◌, ◌∙◌, ◌∷◌, ◌≡◌, ◌≢◌, ◌≤◌, ◌⊎◌,
}
use raft_thesis.Raft.Node.{Raft}
use raft_thesis.Raft.Node.Quorum.{count_if}
use raft_thesis.Raft.ReadIndex.{
  ReadEvent, Round, answered, begin_round, cancelled, collect, confirm_leader, heartbeat_targets,
  read_round,
}
use raft_thesis.Raft.Types.{Error, LogIndex, Term, leader, read_index_no_quorum}

abbrev pub is_ack : ReadEvent → Bool
is_ack (answered ok rf) = ok
is_ack cancelled = false

abbrev pub answers : List ReadEvent → ℕ
answers [] = 0
answers (answered ok rf ∷ events) = suc (answers events)
answers (cancelled ∷ events) = answers events

abbrev pub acks_in : List ReadEvent → ℕ
acks_in events = count_if is_ack events

-- Some acknowledgement arrived while the node still led in the term of the round.
pub data LedDuring (term : Term) : List ReadEvent → Type 0 where
  now :
      {rf : Raft} {events : List ReadEvent}
      → rf.state ≡ leader
      → rf.current_term ≡ term
      → LedDuring term (answered true rf ∷ events)
  later :
      {e : ReadEvent} {events : List ReadEvent}
      → LedDuring term events
      → LedDuring term (e ∷ events)

-- What a successful round rests on.
pub record Confirmed (r : Round) (events : List ReadEvent) (index : LogIndex) : Type 0 where
  pub target : index ≡ r.target
  pub quorum : r.quorum ≤ r.acks + acks_in events
  pub led : LedDuring r.leader_term events

confirm_leader-inv :
    (r : Round) (rf : Raft) (index : LogIndex)
    → confirm_leader r rf ≡ (none, index)
    → (index ≡ r.target) × (rf.state ≡ leader) × (rf.current_term ≡ r.leader_term)
unfolding confirm_leader
confirm_leader-inv r rf index h = ground arith

later-Confirmed :
    (r : Round) (ok : Bool) (rf : Raft) (events : List ReadEvent) (index : LogIndex) (r' : Round)
    → r'.target ≡ r.target
    → r'.quorum ≡ r.quorum
    → r'.leader_term ≡ r.leader_term
    → r'.acks ≡ (if ok then r.acks + 1 else r.acks)
    → Confirmed r' events index
    → Confirmed r (answered ok rf ∷ events) index
later-Confirmed r ok rf events index r' t q l a c = record {
  target = c.target ∙ t;
  quorum = ground (arith, c.quorum);
  led = later (rw l at (c.led));
}

some_error_ne :
    (e : Error) (i j : LogIndex)
    → ◌≡◌ {A = Option (Option Error × LogIndex)} (some (some e, i)) (some (none, j))
    → ⊥
some_error_ne e i j h = cc

-- A round that returns an index has a quorum of acknowledgements, this node's own included, and one of
-- them found the node still leading in the term in which the index was read.
collect-Confirmed :
    (r : Round) (events : List ReadEvent) (index : LogIndex)
    → collect r events ≡ some (none, index)
    → Confirmed r events index
unfolding collect
collect-Confirmed r [] index h = cc
collect-Confirmed r (cancelled ∷ events) index h = cc
collect-Confirmed r (answered true rf ∷ events) index h =
    elim (Bool-cases (leb r.quorum (r.acks + 1))) [
      | inl enough ↦
          let (t, l, m) = confirm_leader-inv r rf index (some_inj (rw enough at h)) in
          record { target = t; quorum = ground arith; led = now l m }
      | inr few ↦
          later-Confirmed r true rf events index (record r { acks = r.acks + 1 }) refl refl refl
            refl (collect-Confirmed (record r { acks = r.acks + 1 }) events index (rw few at h))
    ]
collect-Confirmed r (answered false rf ∷ events) index h =
    elim (Bool-cases (ltb_ℤ (sub_ℕ r.max_possible (r.denials + 1)) (pos r.quorum))) [
      | inl lost ↦ absurd (some_error_ne read_index_no_quorum 0 index (rw lost at h))
      | inr open' ↦
          later-Confirmed r false rf events index (record r { denials = r.denials + 1 }) refl refl
            refl refl
            (collect-Confirmed (record r { denials = r.denials + 1 }) events index (rw open' at h))
    ]

-- Where the answers still to come can decide the round, it does not wait for more.
record Undecided (r : Round) (events : List ReadEvent) : Type 0 where
  can_win : r.quorum ≤ r.max_possible - r.denials
  not_yet : r.acks < r.quorum
  outstanding : r.max_possible ≤ r.acks + r.denials + answers events

collect-ends : (r : Round) (events : List ReadEvent) → Undecided r events → collect r events ≢ none
unfolding collect
collect-ends r [] u = λ h. absurd (omega (arith, u.can_win, u.not_yet, u.outstanding))
collect-ends r (cancelled ∷ events) u = λ h. cc
collect-ends r (answered true rf ∷ events) u = elim (Bool-cases (leb r.quorum (r.acks + 1))) [
  | inl enough ↦ rw enough (λ h. cc)
  | inr few ↦ rw few (
      collect-ends (record r { acks = r.acks + 1 }) events
        (record {
          can_win = u.can_win;
          not_yet = ground arith;
          outstanding = omega (arith, u.outstanding);
        }))
]
collect-ends r (answered false rf ∷ events) u =
    elim (Bool-cases (ltb_ℤ (sub_ℕ r.max_possible (r.denials + 1)) (pos r.quorum))) [
      | inl lost ↦ rw lost (λ h. cc)
      | inr open' ↦ rw open' (
          collect-ends (record r { denials = r.denials + 1 }) events
            (record {
              can_win = ground (arith, u.can_win, u.not_yet);
              not_yet = u.not_yet;
              outstanding = omega (arith, u.outstanding);
            }))
    ]

-- If the voters that are asked, with this node, could make a quorum, then ReadIndex has an answer once
-- each of them has answered, whatever the answers are: it does not hang.
pub read_round-ends :
    (term : Term) (target : LogIndex) (rf : Raft) (events : List ReadEvent)
    → (begin_round term target rf).quorum ≤ (begin_round term target rf).max_possible
    → length (heartbeat_targets rf rf.peers) ≤ answers events
    → read_round (begin_round term target rf) events ≢ none
unfolding read_round begin_round
read_round-ends term target rf events possible heard =
    let r = begin_round term target rf in
    elim (dec_lt r.acks r.quorum) [
      | no enough ↦ rw (le→leb r.quorum r.acks (omega arith)) (λ h. cc)
      | yes short ↦ rw (lt→leb_false r.quorum r.acks short) (
          collect-ends r events
            (record { can_win = omega arith; not_yet = short; outstanding = omega arith }))
    ]

-- An index that the quorum round returns is the one read before it, with a quorum of acknowledgements,
-- this node's own included; unless this node alone is a quorum, one of them found the node still
-- leading in the term of the round.
pub read_round-Confirmed :
    (r : Round) (events : List ReadEvent) (index : LogIndex)
    → read_round r events ≡ some (none, index)
    → (index ≡ r.target) × ((r.quorum ≤ r.acks) ⊎ Confirmed r events index)
unfolding read_round
read_round-Confirmed r events index h = elim (Bool-cases (leb r.quorum r.acks)) [
  | inl alone ↦ (ground arith, inl (leb→le r.quorum r.acks alone))
  | inr more ↦ let c = collect-Confirmed r events index (rw more at h) in (c.target, inr c)
]
