-- ===== src/Raft/System/Turns.antt =====
-- One turn of a cluster keeps what holds of it.
use mathlib.Core.Path.{subst}
use raft_thesis.Base.{
  Bool-cases, List, Option, false, inl, inr, int_eq, nat_eq_iff, refl, some, sym, true, ◌==◌, ◌=?◌,
  ◌∙◌, ◌≡◌,
}
use raft_thesis.Raft.Election.{Election}
use raft_thesis.Raft.Node.{Raft}
use raft_thesis.Raft.System.{Cluster, Sent, VoteCall, put, put_at}
use raft_thesis.Raft.System.Carry.{Carry}
use raft_thesis.Raft.System.Invariant.{
  Grows, IsCall, IsCall_mono, IsMember, IsRunning, IsRunning-mono, IsSent, IsSent-mono, Safe, Won,
  Won_mono,
}
use raft_thesis.Raft.Types.{AppendEntriesArgs, NodeId, Term}
use raft_thesis.Raft.Voting.{Step, Traced}
use raft_thesis.Raft.Voting.Cluster.{has_vote, voted_in}
use raft_thesis.Raft.Voting.OneVote.{Step-Inv}

-- The node that changes may be left out of what is known of the old ones.
pub put_other_lem {ℓ κ} :
    {A : Type ℓ} (P : NodeId → A → Type κ) (i : NodeId) (x : A) (f : NodeId → A)
    → P i x
    → ((j : NodeId) → (j =? i) ≡ false → P j (f j))
    → (j : NodeId) → P j (put i x f j)
put_other_lem P i x f h k j = elim (Bool-cases (j =? i)) [
  | inl same ↦ rw same (subst (λ n. P n x) (sym ((int_eq.beq_iff j i).0 same)) h)
  | inr differ ↦ rw differ (k j differ)
]

module _ {ℓ ℓ' κ} {A : Type ℓ} {B : Type ℓ'} where
  pub put_both_lem :
      (P : NodeId → Term → A → B → Type κ) (i : NodeId) (t : Term) (x : A) (y : B)
      (f : NodeId → Term → A) (g : NodeId → Term → B)
      → P i t x y
      → ((j : NodeId) (u : Term) → P j u (f j u) (g j u))
      → (j : NodeId) (u : Term) → P j u (put_at i t x f j u) (put_at i t y g j u)
  put_both_lem P i t x y f g h k j u = elim (Bool-cases (j =? i)) [
    | inl same ↦ elim (Bool-cases (u == t)) [
      | inl same' ↦
          rw (same, same')
            (subst (λ n. P n u x y) (sym ((int_eq.beq_iff j i).0 same))
              (subst (λ n. P i n x y) (sym ((nat_eq_iff u t).0 same')) h))
      | inr differ ↦ rw (same, differ) (k j u)
    ]
    | inr differ ↦ rw differ (k j u)
  ]

module _ {ℓ κ} {A : Type ℓ} where
  pub put_lem :
      (P : NodeId → A → Type κ) (i : NodeId) (x : A) (f : NodeId → A)
      → P i x
      → ((j : NodeId) → P j (f j))
      → (j : NodeId) → P j (put i x f j)
  put_lem P i x f h k = put_other_lem P i x f h (λ j differ. k j)

  pub put_at_lem :
      (P : NodeId → Term → A → Type κ) (i : NodeId) (t : Term) (x : A) (f : NodeId → Term → A)
      → P i t x
      → ((j : NodeId) (u : Term) → P j u (f j u))
      → (j : NodeId) (u : Term) → P j u (put_at i t x f j u)
  put_at_lem P i t x f h k = put_both_lem (λ j u a b. P j u a) i t x x f f h k

-- A node with more votes than before.
pub Grows-put :
    (nodes : NodeId → Traced) (i : NodeId) (s : Traced)
    → ((t : Term) (a : NodeId) → has_vote t a (nodes i).votes ≡ true → has_vote t a s.votes ≡ true)
    → Grows nodes (put i s nodes)
unfolding voted_in
Grows-put nodes i s h t a =
    put_lem (λ v s'. has_vote t a (nodes v).votes ≡ true → has_vote t a s'.votes ≡ true) i s nodes
      (h t a) (λ j yes'. yes')

pub Grows-same :
    (nodes : NodeId → Traced) (i : NodeId) (s : Traced)
    → s.votes ≡ (nodes i).votes
    → Grows nodes (put i s nodes)
Grows-same nodes i s e = Grows-put nodes i s (λ t a yes'. rw e yes')

-- The other parts of a cluster, when one node changes.
pub changed :
    (voters : List NodeId) (c : Cluster) (i : NodeId) (s : Traced)
    (elections : NodeId → Term → Option Election) (calls : NodeId → Term → NodeId → VoteCall)
    (sent : List (NodeId × AppendEntriesArgs))
    → Safe voters c
    → Grows c.nodes (put i s c.nodes)
    → IsMember voters i s
    → ((t : Term) → s.led ≡ some t → Won voters (put i s c.nodes) t i)
    → ((j : NodeId) (t : Term) (v : NodeId) → IsCall voters (put i s c.nodes) j t v (calls j t v))
    → ((j : NodeId) (t : Term) → IsRunning voters (put i s c.nodes) (calls j t) j t (elections j t))
    → ((to : NodeId) (args : AppendEntriesArgs)
        → Sent (to, args) sent
        → IsSent voters (put i s c.nodes) to args)
    → Safe voters (record {
      nodes = put i s c.nodes;
      elections = elections;
      calls = calls;
      sent = sent;
      waiting = c.waiting;
      wire = c.wire;
    })
changed voters c i s elections calls sent h g m l k r e = record {
  member = put_lem (IsMember voters) i s c.nodes m h.member;
  led =
      put_lem (λ j s'. (t : Term) → s'.led ≡ some t → Won voters (put i s c.nodes) t j) i s c.nodes
        l (λ j t e. Won_mono voters c.nodes (put i s c.nodes) t j g (h.led j t e));
  call = k;
  election = r;
  sent = e;
}

-- A node changes, and nothing else does: it cast no vote and led no new term.
pub changed_alone :
    (voters : List NodeId) (c : Cluster) (i : NodeId) (f : Raft)
    → Safe voters c
    → IsMember voters i (record (c.nodes i) { node = f })
    → Safe voters (record c { nodes = put i (record (c.nodes i) { node = f }) c.nodes })
changed_alone voters c i f h m =
    let s : Traced = record (c.nodes i) { node = f } in
    let g = Grows-same c.nodes i s refl in
    changed voters c i s c.elections c.calls c.sent h g m
      (λ t e. Won_mono voters c.nodes (put i s c.nodes) t i g (h.led i t e))
      (λ j t v. IsCall_mono voters c.nodes (put i s c.nodes) g j t v (c.calls j t v) (h.call j t v))
      (λ j t.
        IsRunning-mono voters c.nodes (put i s c.nodes) g (c.calls j t) j t (c.elections j t)
          (h.election j t))
      (λ to args e. IsSent-mono voters c.nodes (put i s c.nodes) g to args (h.sent to args e))

pub stepped :
    (voters : List NodeId) (i : NodeId) (s u : Traced)
    → IsMember voters i s
    → Step s u
    → Carry s.node u.node
    → u.node.voter_members ≡ voters
    → IsMember voters i u
stepped voters i s u m step carry same = record {
  id = carry.id ∙ m.id;
  members = same;
  ballots = Step-Inv step m.ballots;
  below = carry.below m.below;
}
