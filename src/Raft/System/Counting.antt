-- ===== src/Raft/System/Counting.antt =====
-- A candidate counts a reply to its vote request.
use mathlib.Core.Path.{subst}
use raft_thesis.Base.{
  Bool-cases, List, ap, arith, contains, false, false≢true, inl, inr, int_eq, refl, some, some_inj,
  sym, true, ◌+◌, ◌=?◌, ◌∙◌, ◌≡◌, ◌≤◌, ◌⊎◌,
}
use raft_thesis.Raft.Election.{Election, count_vote, handle_vote_reply}
use raft_thesis.Raft.Election.Leadership.{count_vote-inv, handle_vote_reply-inv}
use raft_thesis.Raft.Node.{Raft}
use raft_thesis.Raft.Node.Quorum.{count_if}
use raft_thesis.Raft.Service.Votes.{become_follower-inv}
use raft_thesis.Raft.System.{
  Cluster, VoteCall, asked, put, put_at, returned, set_call, unasked, used,
}
use raft_thesis.Raft.System.Calls.{heard-put, set_call_lem}
use raft_thesis.Raft.System.Carry.{handle_vote_reply-Carry}
use raft_thesis.Raft.System.Invariant.{
  Grows, IsCall, IsCall_mono, IsElection, IsRunning, IsRunning-mono, IsSent-mono, Safe, Won,
  Won_mono, count_if_mono, count_if_more, granted_call, heard,
}
use raft_thesis.Raft.System.Turns.{Grows-same, changed, put_both_lem, put_lem, stepped}
use raft_thesis.Raft.Transitions.Office.{become_leader-ballot}
use raft_thesis.Raft.Types.{Action, Env, NodeId, RequestVoteReply, Term, is_leader}
use raft_thesis.Raft.Voting.{Traced, counted, led_after}
use raft_thesis.Raft.Voting.Cluster.{voted_in}
use raft_thesis.Raft.Voting.Replies.{follower_ne, leader_of, not_leader_of}

-- What becomes of the node and of the count.
handle_vote_reply_count :
    (env : Env) (r : RequestVoteReply) (before after : Election) (rf f : Raft) (acts : List Action)
    → handle_vote_reply env (some r) before rf ≡ some (f, after, acts)
    → (after ≡ before)
      ⊎ ((r.vote_granted ≡ true)
          × (after ≡ record before { votes_received = before.votes_received + 1 }))
unfolding handle_vote_reply count_vote
handle_vote_reply_count env r before after rf f acts h = ground arith

-- Who was heard of has cast its vote.
heard_voted :
    (voters : List NodeId) (nodes : NodeId → Traced) (calls : NodeId → VoteCall) (i : NodeId)
    (t : Term)
    → voted_in nodes t i i ≡ true
    → ((w : NodeId) → IsCall voters nodes i t w (calls w))
    → (w : NodeId) → heard calls i w ≡ true
    → voted_in nodes t i w ≡ true
heard_voted voters nodes calls i t own k w h = elim (Bool-cases (w =? i)) [
  | inl same ↦ ap (voted_in nodes t i) ((int_eq.beq_iff w i).0 same) ∙ own
  | inr differ ↦ go (calls w) (k w) (rw differ at h)
]
  where
    go :
        (call : VoteCall)
        → IsCall voters nodes i t w call
        → granted_call call ≡ true
        → voted_in nodes t i w ≡ true
    go unasked q e = absurd (false≢true e)
    go (asked args) q e = absurd (false≢true e)
    go (returned reply) q e = absurd (false≢true e)
    go (used granted) q e = q e

module _ (voters : List NodeId) (c : Cluster) (h : Safe voters c) (i v : NodeId) (t : Term)
    (env : Env) (reply : RequestVoteReply) (before after : Election) (f : Raft) (acts : List Action)
    (call : c.calls i t v ≡ returned reply) (election : c.elections i t ≡ some before)
    (p : handle_vote_reply env (some reply) before (c.nodes i).node ≡ some (f, after, acts))
    (same : f.voter_members ≡ voters) where
  abbrev counted_node : Traced
  counted_node = record (c.nodes i) { node = f; led = led_after f (c.nodes i).led }

  abbrev counted_nodes : NodeId → Traced
  counted_nodes = put i counted_node c.nodes

  abbrev counted_calls : NodeId → VoteCall
  counted_calls = put v (used reply.vote_granted) (c.calls i t)

  grown : Grows c.nodes counted_nodes
  grown = Grows-same c.nodes i counted_node refl

  replied_call :
      ((v =? i) ≡ false)
      × (contains v voters ≡ true)
      × (reply.vote_granted ≡ true → voted_in c.nodes t i v ≡ true)
  replied_call = subst (IsCall voters c.nodes i t v) call (h.call i t v)

  called : (w : NodeId) → IsCall voters counted_nodes i t w (counted_calls w)
  called =
      put_lem (λ w x. IsCall voters counted_nodes i t w x) v (used reply.vote_granted) (c.calls i t)
        (λ granted. grown t i v (replied_call.2 granted))
        (λ w. IsCall_mono voters c.nodes counted_nodes grown i t w (c.calls i t w) (h.call i t w))

  pub earlier : IsElection voters c.nodes (c.calls i t) i t before
  earlier = subst (IsRunning voters c.nodes (c.calls i t) i t) election (h.election i t)

  still : (w : NodeId) → heard (c.calls i t) i w ≡ true → heard counted_calls i w ≡ true
  still = heard-put (c.calls i t) i v (used reply.vote_granted) (rw call refl)

  -- A granted vote is one more that was heard of.
  one_more :
      reply.vote_granted ≡ true
      → before.votes_received + 1 ≤ count_if (heard counted_calls i) voters
  one_more granted =
      let me : (v =? v) ≡ true = (int_eq.beq_iff v v).1 refl in
      omega (
        arith,
        earlier.counted,
        count_if_more (heard (c.calls i t) i) (heard counted_calls i) v voters still
            (rw (replied_call.0, call) refl) (rw (replied_call.0, me, granted) refl) replied_call.1,
      )

  recount : IsElection voters counted_nodes counted_calls i t after
  recount = elim (handle_vote_reply_count env reply before after (c.nodes i).node f acts p) [
    | inl e ↦ rw e (record {
      term = earlier.term;
      quorum = earlier.quorum;
      counted = omega (
        arith,
        earlier.counted,
        count_if_mono (heard (c.calls i t) i) (heard counted_calls i) voters still,
      );
      own = grown t i i earlier.own;
      positive = earlier.positive;
    })
    | inr (granted, e) ↦ rw e (record {
      term = earlier.term;
      quorum = earlier.quorum;
      counted = one_more granted;
      own = grown t i i earlier.own;
      positive = earlier.positive;
    })
  ]

  -- The vote that completes the quorum.
  elected :
      reply.vote_granted ≡ true
      → before.votes_received + 1 ≡ before.quorum
      → Won voters counted_nodes t i
  elected granted full = omega (
    arith,
    earlier.quorum,
    one_more granted,
    count_if_mono (heard counted_calls i) (voted_in counted_nodes t i) voters
        (heard_voted voters counted_nodes counted_calls i t (grown t i i earlier.own) called),
  )

  stayed_leader :
      (f ≡ (c.nodes i).node) → is_leader f.state ≡ true → Won voters counted_nodes f.current_term i
  stayed_leader e leads = Won_mono voters c.nodes counted_nodes f.current_term i grown (
      h.led i f.current_term (
        (h.member i).ballots.leading
          (leader_of (c.nodes i).node.state (ap (λ r. is_leader r.state) (sym e) ∙ leads))
        ∙ ap (λ (r : Raft). some r.current_term) (sym e)))

  leads_won : is_leader f.state ≡ true → Won voters counted_nodes f.current_term i
  leads_won leads =
      let rf = (c.nodes i).node in
      elim (handle_vote_reply-inv env reply before after rf f acts p) [
        | inl e ↦ stayed_leader e leads
        | inr (inl (up, down)) ↦
            let (_, _, st, _, _, _) = become_follower-inv env reply.term rf f down in
            absurd (follower_ne f.state st (leader_of f.state leads))
        | inr (inr (cand, term, granted, e)) ↦ elim (count_vote-inv env before rf) [
          | inl same' ↦ stayed_leader (e ∙ same') leads
          | inr (full, office) ↦
              let (_, now', _, _) = become_leader-ballot env rf (not_leader_of rf.state cand) in
              let at_term =
                ap (λ (r : Raft). r.current_term) (e ∙ office) ∙ now' ∙ term ∙ earlier.term in
              subst (λ n. Won voters counted_nodes n i) (sym at_term) (elected granted full)
        ]
      ]

  led_won : (u : Term) → led_after f (c.nodes i).led ≡ some u → Won voters counted_nodes u i
  led_won u e = elim (Bool-cases (is_leader f.state)) [
    | inl leads ↦
        subst (λ n. Won voters counted_nodes n i) (some_inj (rw leads at e)) (leads_won leads)
    | inr idle ↦ Won_mono voters c.nodes counted_nodes u i grown (h.led i u (rw idle at e))
  ]

  pub counting-Safe : Safe voters (record c {
    nodes = counted_nodes;
    elections = put_at i t (some after) c.elections;
    calls = set_call i t v (used reply.vote_granted) c;
  })
  counting-Safe =
      let m = h.member i in
      changed voters c i counted_node (put_at i t (some after) c.elections)
        (set_call i t v (used reply.vote_granted) c) c.sent h grown
        (stepped voters i (c.nodes i) counted_node m (counted env reply before after f acts p refl)
          (handle_vote_reply-Carry env reply before after (c.nodes i).node f acts p) same)
        led_won
        (set_call_lem voters counted_nodes c i v t (used reply.vote_granted)
          (λ granted. grown t i v (replied_call.2 granted))
          (λ j u w.
            IsCall_mono voters c.nodes counted_nodes grown j u w (c.calls j u w) (h.call j u w)))
        (put_both_lem (λ j u o calls. IsRunning voters counted_nodes calls j u o) i t (some after)
          counted_calls c.elections c.calls recount
          (λ j u.
            IsRunning-mono voters c.nodes counted_nodes grown (c.calls j u) j u (c.elections j u)
              (h.election j u)))
        (λ to args e. IsSent-mono voters c.nodes counted_nodes grown to args (h.sent to args e))
