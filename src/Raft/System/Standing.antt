-- ===== src/Raft/System/Standing.antt =====
-- A node stands for election: it votes for itself and asks the other voters.
use raft_thesis.Base.{
  >>=-eq-some, Bool, Bool-cases, List, Map, Option, [], ap, arith, contains, false, if◌then◌else◌,
  inl, inr, int_eq, nat_eq_iff, none, not, refl, some, sym, true, ℕ, ◌+◌, ◌<◌, ◌=?◌, ◌||◌, ◌∙◌, ◌∷◌,
  ◌≡◌, ◌≢◌, ◌≤◌, ◌⊎◌,
}
use raft_thesis.Raft.Election.{Election, request_votes_from, start_election, vote_request}
use raft_thesis.Raft.Election.Leadership.{become_candidate-inv}
use raft_thesis.Raft.Node.{Raft, get_last_log_info, is_voter, last_log_info, quorum_votes}
use raft_thesis.Raft.Node.Core.{u64_small}
use raft_thesis.Raft.Node.Quorum.{count_if}
use raft_thesis.Raft.System.{Cluster, asked, place, put, put_at, unasked}
use raft_thesis.Raft.System.Carry.{start_election-Carry}
use raft_thesis.Raft.System.Invariant.{
  Grows, IsCall, IsCall_mono, IsElection, IsRunning, IsRunning-mono, IsSent-mono, Safe, Won_mono,
  heard, majority, majority-quorum_votes,
}
use raft_thesis.Raft.System.Logs.{last_log_info-Below}
use raft_thesis.Raft.System.Turns.{Grows-put, changed, put_at_lem, put_both_lem, stepped}
use raft_thesis.Raft.Transitions.{become_candidate}
use raft_thesis.Raft.Types.{
  Action, Client, Env, NodeId, Peer, RequestVoteArgs, Term, is_leader, no_node, send_request_vote,
}
use raft_thesis.Raft.Voting.{Traced, stood}
use raft_thesis.Raft.Voting.Cluster.{has_vote, voted_in}
use raft_thesis.Raft.Voting.Replies.{start_election-inv}

-- What start_election leaves.
record Stood (f : Raft) (election : Election) (acts : List Action) : Type 0 where
  term : election.term ≡ f.current_term
  quorum : election.quorum ≡ quorum_votes f
  received : election.votes_received ≡ (if is_voter f f.id then 1 else 0)
  asks : acts ≡ request_votes_from f (vote_request f) f.peers

start_election-Stood :
    (env : Env) (rf f : Raft) (election : Election) (acts : List Action)
    → start_election env rf ≡ some (f, election, acts)
    → Stood f election acts
unfolding start_election
start_election-Stood env rf f election acts h =
    let (c, p, q) = >>=-eq-some (become_candidate env rf) _ h in
    record { term = cc; quorum = ground arith; received = ground arith; asks = ground arith }

not_skipped : (b c : Bool) → (b || not c) ≡ false → (b ≡ false) × (c ≡ true)
not_skipped b c h = ground arith

-- The calls that an election starts are to other voters, with the request of the election.
placed :
    (rf : Raft) (args : RequestVoteArgs) (peers : Map NodeId Peer) (v : NodeId)
    → (place (request_votes_from rf args peers) v ≡ unasked)
      ⊎ ((place (request_votes_from rf args peers) v ≡ asked args)
          × ((v =? rf.id) ≡ false)
          × (is_voter rf v ≡ true))
unfolding place request_votes_from
placed rf args [] v = inl refl
placed rf args ((id, peer) ∷ rest) v =
    let others = placed rf args rest v in
    elim (Bool-cases (id =? rf.id || not (is_voter rf id))) [
      | inl skipped ↦ rw skipped others
      | inr open' ↦ rw open' (asks peer.client others open')
    ]
  where
    asks :
        (o : Option Client)
        → (place (request_votes_from rf args rest) v ≡ unasked)
          ⊎ ((place (request_votes_from rf args rest) v ≡ asked args)
              × ((v =? rf.id) ≡ false)
              × (is_voter rf v ≡ true))
        → (id =? rf.id || not (is_voter rf id)) ≡ false
        → let acts : List Action = elim o [
          | none ↦ request_votes_from rf args rest
          | some c ↦ send_request_vote id args ∷ request_votes_from rf args rest
        ] in
          (place acts v ≡ unasked)
          ⊎ ((place acts v ≡ asked args) × ((v =? rf.id) ≡ false) × (is_voter rf v ≡ true))
    asks none others open' = others
    asks (some c) others open' = elim (Bool-cases (v =? id)) [
      | inl same ↦
          let (other, member) = not_skipped (id =? rf.id) (is_voter rf id) open' in
          let e = (int_eq.beq_iff v id).0 same in
          inr (rw same refl, ap (λ n. n =? rf.id) e ∙ other, ap (is_voter rf) e ∙ member)
      | inr differ ↦ rw differ others
    ]

vote_request-inv :
    (rf : Raft)
    → ((vote_request rf).term ≡ rf.current_term)
      × ((vote_request rf).candidate_id ≡ rf.id)
      × ((vote_request rf).last_log_term ≡ (last_log_info rf.log).1)
unfolding vote_request get_last_log_info
vote_request-inv rf = (refl, refl, refl)

pub has_vote-own :
    (t : Term) (i : NodeId) (vs : List (Term × NodeId)) → has_vote t i ((t, i) ∷ vs) ≡ true
has_vote-own t i vs = ground (arith, nat_eq_iff t t, int_eq.beq_iff i i)

pub has_vote_more :
    (u : Term) (d : NodeId) (vs : List (Term × NodeId)) (t : Term) (a : NodeId)
    → has_vote t a vs ≡ true
    → has_vote t a ((u, d) ∷ vs) ≡ true
has_vote_more u d vs t a h = ground (arith, h)

own_vote :
    (i : NodeId) (vs : List NodeId) (n : ℕ) (p : NodeId → Bool)
    → (p i ≡ true)
    → n ≡ (if contains i vs then 1 else 0)
    → n ≤ count_if p vs
unfolding contains
own_vote i [] n p h e = omega arith
own_vote i (v ∷ vs) n p h e = elim (Bool-cases (v =? i)) [
  | inl same ↦ rw (ap p ((int_eq.beq_iff v i).0 same) ∙ h) (ground arith)
  | inr differ ↦ let rest = own_vote i vs n p h (rw differ at e) in ground arith
]

module _ (voters : List NodeId) (c : Cluster) (h : Safe voters c) (i : NodeId) (env : Env)
    (f : Raft) (election : Election) (acts : List Action) (someone : i ≢ no_node)
    (small : (c.nodes i).node.current_term + 1 < 18446744073709551616)
    (idle : is_leader (c.nodes i).node.state ≡ false)
    (p : start_election env (c.nodes i).node ≡ some (f, election, acts))
    (same : f.voter_members ≡ voters) where
  abbrev pub stood_node : Traced
  stood_node = record (c.nodes i) { node = f; votes = (f.current_term, f.id) ∷ (c.nodes i).votes }

  abbrev stood_nodes : NodeId → Traced
  stood_nodes = put i stood_node c.nodes

  pub newer :
      (f.current_term ≡ (c.nodes i).node.current_term + 1)
      × (f.id ≡ i)
      × (f.log ≡ (c.nodes i).node.log)
  newer =
      let rf = (c.nodes i).node in
      let (st, t, v, id, mem, l) =
        become_candidate-inv env rf f (start_election-inv env rf f election acts p) in
      (t ∙ u64_small (rf.current_term + 1) small, id ∙ (h.member i).id, l)

  pub stood_grown : Grows c.nodes stood_nodes
  stood_grown =
      Grows-put c.nodes i stood_node
        (λ t a yes'. has_vote_more f.current_term f.id (c.nodes i).votes t a yes')

  asking : (v : NodeId) → IsCall voters stood_nodes i f.current_term v (place acts v)
  unfolding is_voter
  asking v =
      let (up, id, l) = newer in
      let (term, candidate', last) = vote_request-inv f in
      rw ((start_election-Stood env (c.nodes i).node f election acts p).asks)
        (elim (placed f (vote_request f) f.peers v) [
          | inl e ↦ rw e tt
          | inr (e, other, member) ↦ rw e (record {
            term = term;
            candidate = candidate' ∙ id;
            candidacy = record {
              newer =
                  rw (term, last, l)
                    (omega (
                      arith,
                      up,
                      last_log_info-Below (c.nodes i).node.current_term (c.nodes i).node.log
                          (h.member i).below,
                    ));
              someone = λ none'. someone (sym (candidate' ∙ id) ∙ none');
            };
            other = ap (λ n. v =? n) (sym id) ∙ other;
            voter = ap (contains v) (sym same) ∙ member;
          })
        ])

  running : IsElection voters stood_nodes (place acts) i f.current_term election
  unfolding is_voter voted_in
  running =
      let (up, id, l) = newer in
      let s = start_election-Stood env (c.nodes i).node f election acts p in
      let me : (i =? i) ≡ true = (int_eq.beq_iff i i).1 refl in
      record {
        term = s.term;
        quorum = s.quorum ∙ majority-quorum_votes f ∙ ap majority same;
        counted =
            own_vote i voters election.votes_received (heard (place acts) i) (rw me refl)
              (rw (← id, ← same) s.received);
        positive = omega (arith, up);
        own = rw (me, id) (has_vote-own f.current_term i (c.nodes i).votes);
      }

  pub standing-Safe : Safe voters (record c {
    nodes = stood_nodes;
    elections = put_at i f.current_term (some election) c.elections;
    calls = put_at i f.current_term (place acts) c.calls;
  })
  standing-Safe =
      let m = h.member i in
      changed voters c i stood_node (put_at i f.current_term (some election) c.elections)
        (put_at i f.current_term (place acts) c.calls) c.sent h stood_grown
        (stepped voters i (c.nodes i) stood_node m
          (stood env f election acts (λ e. someone (sym m.id ∙ e)) small idle p refl)
          (start_election-Carry env (c.nodes i).node f election acts small p) same)
        (λ t e. Won_mono voters c.nodes stood_nodes t i stood_grown (h.led i t e))
        (put_at_lem (λ j u calls. (v : NodeId) → IsCall voters stood_nodes j u v (calls v)) i
          f.current_term (place acts) c.calls asking
          (λ j u v.
            IsCall_mono voters c.nodes stood_nodes stood_grown j u v (c.calls j u v)
              (h.call j u v)))
        (put_both_lem (λ j u o calls. IsRunning voters stood_nodes calls j u o) i f.current_term
          (some election) (place acts) c.elections c.calls running
          (λ j u.
            IsRunning-mono voters c.nodes stood_nodes stood_grown (c.calls j u) j u
              (c.elections j u) (h.election j u)))
        (λ to args e. IsSent-mono voters c.nodes stood_nodes stood_grown to args (h.sent to args e))
