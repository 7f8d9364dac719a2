-- ===== src/Raft/System/Invariant.antt =====
-- What always holds of a cluster with fixed voters.
use raft_thesis.Base.{
  Bool, Bool-cases, List, Option, [], ap, arith, contains, false, false≢true, if◌then◌else◌, inl,
  inr, int_eq, length, none, refl, some, true, ℕ, ◌+◌, ◌/◌, ◌<◌, ◌==◌, ◌=?◌, ◌||◌, ◌∙◌, ◌∷◌, ◌≡◌,
  ◌≢◌, ◌≤◌,
}
use raft_thesis.Raft.Election.{Election}
use raft_thesis.Raft.Node.{Raft, quorum_votes}
use raft_thesis.Raft.Node.Quorum.{count_if, quorum_votes-Both}
use raft_thesis.Raft.System.{Cluster, Sent, VoteCall, asked, returned, unasked, used}
use raft_thesis.Raft.System.Logs.{Below}
use raft_thesis.Raft.Types.{AppendEntriesArgs, NodeId, RequestVoteArgs, Term}
use raft_thesis.Raft.Voting.{IsCandidacy, Traced}
use raft_thesis.Raft.Voting.Cluster.{Both-common, OnePerTerm-unique, voted_in}
use raft_thesis.Raft.Voting.Invariant.{TracedInv}

-- A majority of the voters.
unfoldable pub majority : List NodeId → ℕ
majority voters = let n = length voters in if n == 0 then 1 else n / 2 + 1

-- A candidate has votes of a term from a majority.
abbrev pub Won : List NodeId → (NodeId → Traced) → Term → NodeId → Type 0
Won voters nodes t a = majority voters ≤ count_if (voted_in nodes t a) voters

-- Votes stay cast.
abbrev pub Grows : (NodeId → Traced) → (NodeId → Traced) → Type 0
Grows old new' = (t : Term) (a v : NodeId) → voted_in old t a v ≡ true → voted_in new' t a v ≡ true

pub record IsMember (voters : List NodeId) (i : NodeId) (s : Traced) : Type 0 where
  pub id : s.node.id ≡ i
  pub members : s.node.voter_members ≡ voters
  pub ballots : TracedInv s
  pub below : Below s.node.current_term s.node.log

pub record IsAsked (voters : List NodeId) (i : NodeId) (t : Term) (v : NodeId)
    (args : RequestVoteArgs) : Type 0 where
  pub term : args.term ≡ t
  pub candidate : args.candidate_id ≡ i
  pub candidacy : IsCandidacy args
  pub other : (v =? i) ≡ false
  pub voter : contains v voters ≡ true

abbrev pub IsCall : List NodeId → (NodeId → Traced) → NodeId → Term → NodeId → VoteCall → Type 0
IsCall voters nodes i t v unasked = Unit {0}
IsCall voters nodes i t v (asked args) = IsAsked voters i t v args
IsCall voters nodes i t v (returned reply) =
    ((v =? i) ≡ false)
    × (contains v voters ≡ true)
    × (reply.vote_granted ≡ true → voted_in nodes t i v ≡ true)
IsCall voters nodes i t v (used granted) = granted ≡ true → voted_in nodes t i v ≡ true

-- The votes that an election has heard of: the candidate's own and the granted ones.
abbrev pub granted_call : VoteCall → Bool
granted_call unasked = false
granted_call (asked args) = false
granted_call (returned reply) = false
granted_call (used granted) = granted

abbrev pub heard : (NodeId → VoteCall) → NodeId → NodeId → Bool
heard calls i v = v =? i || granted_call (calls v)

pub record IsElection (voters : List NodeId) (nodes : NodeId → Traced) (calls : NodeId → VoteCall)
    (i : NodeId) (t : Term) (e : Election) : Type 0 where
  pub term : e.term ≡ t
  pub quorum : e.quorum ≡ majority voters
  pub counted : e.votes_received ≤ count_if (heard calls i) voters
  pub own : voted_in nodes t i i ≡ true
  pub positive : 0 < t

abbrev pub IsRunning :
    List NodeId → (NodeId → Traced) → (NodeId → VoteCall) → NodeId → Term → Option Election → Type 0
IsRunning voters nodes calls i t none = Unit {0}
IsRunning voters nodes calls i t (some e) = IsElection voters nodes calls i t e

-- What a leader sent: it has won the term, its entries are not newer, and it does not send to itself.
pub record IsSent (voters : List NodeId) (nodes : NodeId → Traced) (to : NodeId)
    (args : AppendEntriesArgs) : Type 0 where
  pub won : Won voters nodes args.term args.leader_id
  pub other : args.leader_id ≢ to
  pub below : Below args.term args.entries

pub record Safe (voters : List NodeId) (c : Cluster) : Type 0 where
  pub member : (i : NodeId) → IsMember voters i (c.nodes i)
  pub led : (i : NodeId) (t : Term) → (c.nodes i).led ≡ some t → Won voters c.nodes t i
  pub call : (i : NodeId) (t : Term) (v : NodeId) → IsCall voters c.nodes i t v (c.calls i t v)
  pub election :
      (i : NodeId) (t : Term) → IsRunning voters c.nodes (c.calls i t) i t (c.elections i t)
  pub sent :
      (to : NodeId) (args : AppendEntriesArgs)
      → Sent (to, args) c.sent
      → IsSent voters c.nodes to args

pub majority-quorum_votes : (rf : Raft) → quorum_votes rf ≡ majority rf.voter_members
unfolding quorum_votes majority
majority-quorum_votes rf = refl

pub count_if_mono :
    (p q : NodeId → Bool) (vs : List NodeId)
    → ((v : NodeId) → p v ≡ true → q v ≡ true)
    → count_if p vs ≤ count_if q vs
count_if_mono p q [] h = omega arith
count_if_mono p q (v ∷ vs) h =
    let rest = count_if_mono p q vs h in
    elim (Bool-cases (p v)) [
      | inl yes' ↦ rw (yes', h v yes') (omega arith)
      | inr no' ↦ ground arith
    ]

-- One more passes a test that one element of the list did not.
pub count_if_more :
    (p q : NodeId → Bool) (v : NodeId) (vs : List NodeId)
    → ((w : NodeId) → p w ≡ true → q w ≡ true)
    → p v ≡ false
    → q v ≡ true
    → contains v vs ≡ true
    → count_if p vs + 1 ≤ count_if q vs
unfolding contains
count_if_more p q v [] h no' yes' mem = absurd (false≢true mem)
count_if_more p q v (w ∷ ws) h no' yes' mem = elim (Bool-cases (w =? v)) [
  | inl same ↦
      let e = (int_eq.beq_iff w v).0 same in
      rw (ap p e ∙ no', ap q e ∙ yes') (omega (arith, count_if_mono p q ws h))
  | inr differ ↦
      let rest = count_if_more p q v ws h no' yes' (rw differ at mem) in
      elim (Bool-cases (p w)) [
        | inl yes'' ↦ rw (yes'', h w yes'') (omega arith)
        | inr no'' ↦ ground arith
      ]
]

pub Won_mono :
    (voters : List NodeId) (old new' : NodeId → Traced) (t : Term) (a : NodeId)
    → Grows old new'
    → Won voters old t a
    → Won voters new' t a
Won_mono voters old new' t a g w =
    omega (arith, count_if_mono (voted_in old t a) (voted_in new' t a) voters (g t a))

-- Two candidates that won one term are the same.
pub Won_unique :
    (voters : List NodeId) (nodes : NodeId → Traced) (t : Term) (a b : NodeId)
    → ((i : NodeId) → IsMember voters i (nodes i))
    → Won voters nodes t a
    → Won voters nodes t b
    → a ≡ b
unfolding voted_in
Won_unique voters nodes t a b member p q =
    let rf = (nodes a).node in
    let full : quorum_votes rf ≡ majority voters =
      majority-quorum_votes rf ∙ ap majority (member a).members in
    let (id, for_a, for_b) =
      Both-common (voted_in nodes t a) (voted_in nodes t b) rf.voter_members (
        quorum_votes-Both rf (voted_in nodes t a) (voted_in nodes t b)
          (rw (full, (member a).members) p) (rw (full, (member a).members) q)) in
    OnePerTerm-unique t a b (nodes id).votes (member id).ballots.once for_a for_b

-- What still holds of the calls, the elections and the messages when more votes are cast.
module _ (voters : List NodeId) (old new' : NodeId → Traced) (g : Grows old new') where
  pub IsCall_mono :
      (i : NodeId) (t : Term) (v : NodeId) (call : VoteCall)
      → IsCall voters old i t v call
      → IsCall voters new' i t v call
  IsCall_mono i t v unasked h = tt
  IsCall_mono i t v (asked args) h = h
  IsCall_mono i t v (returned reply) (other, voter, h) = (other, voter, λ yes'. g t i v (h yes'))
  IsCall_mono i t v (used granted) h = λ yes'. g t i v (h yes')

  pub IsRunning-mono :
      (calls : NodeId → VoteCall) (i : NodeId) (t : Term) (o : Option Election)
      → IsRunning voters old calls i t o
      → IsRunning voters new' calls i t o
  IsRunning-mono calls i t none h = tt
  IsRunning-mono calls i t (some e) h = record {
    term = h.term;
    quorum = h.quorum;
    counted = h.counted;
    own = g t i i h.own;
    positive = h.positive;
  }

  pub IsSent-mono :
      (to : NodeId) (args : AppendEntriesArgs)
      → IsSent voters old to args
      → IsSent voters new' to args
  IsSent-mono to args h = record {
    won = Won_mono voters old new' args.term args.leader_id g h.won;
    other = h.other;
    below = h.below;
  }
