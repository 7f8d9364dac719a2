-- ===== src/Raft/System/Calls.antt =====
-- A vote call is answered by a voter.
use mathlib.Core.Path.{subst}
use raft_thesis.Base.{
  Bool, Bool-cases, List, Option, ap, arith, false, inl, inr, int_eq, none, refl, some, true, ◌=?◌,
  ◌||◌, ◌∙◌, ◌≡◌,
}
use raft_thesis.Raft.Election.{Election}
use raft_thesis.Raft.Node.{Raft}
use raft_thesis.Raft.Service.{request_vote}
use raft_thesis.Raft.System.{Cluster, VoteCall, asked, put, returned, set_call}
use raft_thesis.Raft.System.Carry.{request_vote-Carry}
use raft_thesis.Raft.System.Invariant.{
  Grows, IsAsked, IsCall, IsCall_mono, IsRunning, IsRunning-mono, IsSent-mono, Safe, Won_mono,
  count_if_mono, granted_call, heard,
}
use raft_thesis.Raft.System.Standing.{has_vote-own, has_vote_more}
use raft_thesis.Raft.System.Turns.{Grows-put, changed, put_at_lem, put_lem, stepped}
use raft_thesis.Raft.Types.{Env, NodeId, RequestVoteArgs, RequestVoteReply, Term}
use raft_thesis.Raft.Voting.{Traced, cast, requested}
use raft_thesis.Raft.Voting.Cluster.{voted_in}
use raft_thesis.Raft.Voting.Requests.{request_vote_term}

pub set_call_lem :
    (voters : List NodeId) (nodes : NodeId → Traced) (c : Cluster) (i v : NodeId) (t : Term)
    (call : VoteCall)
    → IsCall voters nodes i t v call
    → ((j : NodeId) (u : Term) (w : NodeId) → IsCall voters nodes j u w (c.calls j u w))
    → (j : NodeId) (u : Term) (w : NodeId) → IsCall voters nodes j u w (set_call i t v call c j u w)
set_call_lem voters nodes c i v t call h k =
    put_at_lem (λ j u calls. (w : NodeId) → IsCall voters nodes j u w (calls w)) i t
      (put v call (c.calls i t)) c.calls
      (put_lem (λ w x. IsCall voters nodes i t w x) v call (c.calls i t) h (k i t)) k

-- What was heard stays heard when a call without a granted vote changes.
pub heard-put :
    (calls : NodeId → VoteCall) (i v : NodeId) (call : VoteCall)
    → granted_call (calls v) ≡ false
    → (w : NodeId) → heard calls i w ≡ true
    → heard (put v call calls) i w ≡ true
heard-put calls i v call silent w h = elim (Bool-cases (w =? v)) [
  | inl same ↦
      let nothing = ap (λ n. granted_call (calls n)) ((int_eq.beq_iff w v).0 same) ∙ silent in
      either_true (w =? i) (granted_call (calls w)) (granted_call (put v call calls w)) h nothing
  | inr differ ↦ rw differ h
]
  where
    either_true : (a b d : Bool) → (a || b) ≡ true → b ≡ false → (a || d) ≡ true
    either_true a b d h e = ground arith

pub recounted :
    (voters : List NodeId) (nodes : NodeId → Traced) (calls calls' : NodeId → VoteCall) (i : NodeId)
    (t : Term) (o : Option Election)
    → ((w : NodeId) → heard calls i w ≡ true → heard calls' i w ≡ true)
    → IsRunning voters nodes calls i t o
    → IsRunning voters nodes calls' i t o
recounted voters nodes calls calls' i t none more h = tt
recounted voters nodes calls calls' i t (some e) more h = record {
  term = h.term;
  quorum = h.quorum;
  counted = omega (arith, h.counted, count_if_mono (heard calls i) (heard calls' i) voters more);
  own = h.own;
  positive = h.positive;
}

module _ (voters : List NodeId) (c : Cluster) (h : Safe voters c) (i v : NodeId) (t : Term)
    (env : Env) (args : RequestVoteArgs) (f : Raft) (reply : RequestVoteReply)
    (call : c.calls i t v ≡ asked args)
    (p : request_vote env args (c.nodes v).node ≡ some (f, reply))
    (same : f.voter_members ≡ voters) where
  abbrev pub voted_node : Traced
  voted_node = record (c.nodes v) {
    node = f;
    votes = cast reply.vote_granted (reply.term, args.candidate_id) (c.nodes v).votes;
  }

  abbrev voted_nodes : NodeId → Traced
  voted_nodes = put v voted_node c.nodes

  request : IsAsked voters i t v args
  request = subst (IsCall voters c.nodes i t v) call (h.call i t v)

  pub voted_grown : Grows c.nodes voted_nodes
  voted_grown = Grows-put c.nodes v voted_node (λ u a yes'. elim (Bool-cases reply.vote_granted) [
    | inl granted ↦ rw granted (has_vote_more reply.term args.candidate_id _ u a yes')
    | inr denied ↦ rw denied yes'
  ])

  returned_call : IsCall voters voted_nodes i t v (returned reply)
  unfolding voted_in
  returned_call =
      let r = request in
      let me : (v =? v) ≡ true = (int_eq.beq_iff v v).1 refl in
      (
        r.other,
        r.voter,
        λ granted.
            rw
              (
                me,
                granted,
                request_vote_term env args (c.nodes v).node f reply p granted,
                r.term,
                r.candidate,
              )
              (has_vote-own t i (c.nodes v).votes),
      )

  pub voting-Safe :
      Safe voters (record c { nodes = voted_nodes; calls = set_call i t v (returned reply) c })
  voting-Safe =
      let m = h.member v in
      let r = request in
      changed voters c v voted_node c.elections (set_call i t v (returned reply) c) c.sent h
        voted_grown
        (stepped voters v (c.nodes v) voted_node m (requested env args f reply r.candidacy p refl)
          (request_vote-Carry env args (c.nodes v).node f reply p) same)
        (λ u e. Won_mono voters c.nodes voted_nodes u v voted_grown (h.led v u e))
        (set_call_lem voters voted_nodes c i v t (returned reply) returned_call (λ j u w.
          IsCall_mono voters c.nodes voted_nodes voted_grown j u w (c.calls j u w) (h.call j u w)))
        (put_at_lem (λ j u calls. IsRunning voters voted_nodes calls j u (c.elections j u)) i t
          (put v (returned reply) (c.calls i t)) c.calls
          (recounted voters voted_nodes (c.calls i t) _ i t (c.elections i t)
            (heard-put (c.calls i t) i v (returned reply) (rw call refl))
            (IsRunning-mono voters c.nodes voted_nodes voted_grown (c.calls i t) i t
              (c.elections i t) (h.election i t)))
          (λ j u.
            IsRunning-mono voters c.nodes voted_nodes voted_grown (c.calls j u) j u
              (c.elections j u) (h.election j u)))
        (λ to args' e.
          IsSent-mono voters c.nodes voted_nodes voted_grown to args' (h.sent to args' e))
