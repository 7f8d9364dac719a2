-- ===== src/Raft/Election/Leadership.antt =====
-- Elections: only a quorum of votes makes a leader.
use raft_thesis.Base.{
  >>=-eq-some, Bool-cases, List, Map, Option, [], ap, arith, contains, false, inl, inr, int_beq_iff,
  length, nat_eq_iff, none, refl, some, sym, true, ◌+◌, ◌<◌, ◌==◌, ◌∙◌, ◌∷◌, ◌≡◌, ◌≢◌, ◌⊎◌,
}
use raft_thesis.Raft.Election.{
  Election, count_vote, handle_vote_reply, request_votes_from, start_election, vote_request,
}
use raft_thesis.Raft.Node.{Raft, is_voter, quorum_votes, reset_election_timer}
use raft_thesis.Raft.Service.Votes.{become_follower-inv}
use raft_thesis.Raft.Transitions.{become_candidate, become_follower, become_leader}
use raft_thesis.Raft.Transitions.Office.{become_leader-InOffice}
use raft_thesis.Raft.Types.{
  Action, Env, NodeId, Peer, RequestVoteArgs, RequestVoteReply, State, candidate, follower,
  is_candidate, is_leader, leader, u64,
}

-- What a reply that makes a leader must have been.
pub record Elected (reply : Option RequestVoteReply) (election : Election) (rf f : Raft)
    : Type 0 where
  pub granted : (r : RequestVoteReply) × (reply ≡ some r) × (r.vote_granted ≡ true)
  pub quorum : election.votes_received + 1 ≡ election.quorum
  pub was_candidate : rf.state ≡ candidate
  pub term : rf.current_term ≡ election.term
  pub still : f.current_term ≡ election.term

pub handle_vote_reply-inv :
    (env : Env) (r : RequestVoteReply) (election e : Election) (rf f : Raft) (acts : List Action)
    → handle_vote_reply env (some r) election rf ≡ some (f, e, acts)
    → (f ≡ rf)
      ⊎ ((rf.current_term < r.term) × (become_follower env r.term rf ≡ some f))
      ⊎ ((is_candidate rf.state ≡ true)
          × (rf.current_term ≡ election.term)
          × (r.vote_granted ≡ true)
          × (f ≡ (count_vote env election rf).0))
unfolding handle_vote_reply
handle_vote_reply-inv env r election e rf f acts h = ground arith

pub candidate_of : (s : State) → is_candidate s ≡ true → s ≡ candidate
candidate_of follower h = cc
candidate_of candidate h = refl
candidate_of leader h = cc

-- The vote that completes the quorum, or not yet.
pub count_vote-inv :
    (env : Env) (election : Election) (rf : Raft)
    → ((count_vote env election rf).0 ≡ rf)
      ⊎ ((election.votes_received + 1 ≡ election.quorum)
          × ((count_vote env election rf).0 ≡ (become_leader env rf).0))
unfolding count_vote
count_vote-inv env election rf =
    elim (Bool-cases (election.votes_received + 1 == election.quorum)) [
      | inl done ↦ inr ((nat_eq_iff _ _).0 done, rw done)
      | inr open' ↦ inl (rw open')
    ]

-- A node that a reply makes leader was a candidate of the election's term, the reply was a granted vote,
-- and with it the votes are exactly the quorum; the node leads that term.
pub handle_vote_reply-Elected :
    (env : Env) (reply : Option RequestVoteReply) (election e : Election) (rf f : Raft)
    (acts : List Action)
    → 0 < length rf.log
    → handle_vote_reply env reply election rf ≡ some (f, e, acts)
    → rf.state ≢ leader
    → f.state ≡ leader
    → Elected reply election rf f
unfolding handle_vote_reply
handle_vote_reply-Elected env none election e rf f acts h p was now' = absurd (was (ground arith))
handle_vote_reply-Elected env (some r) election e rf f acts h p was now' =
    elim (handle_vote_reply-inv env r election e rf f acts p) [
      | inl same ↦ absurd (was (ap (λ x. x.state) (sym same) ∙ now'))
      | inr more ↦ elim more [
        | inl (_, down) ↦
            absurd (follower_ne (sym ((become_follower-inv env r.term rf f down).2) ∙ now'))
        | inr (cand, term, vote', counted) ↦ elim (count_vote-inv env election rf) [
          | inl same ↦ absurd (was (ap (λ x. x.state) (sym (counted ∙ same)) ∙ now'))
          | inr (full, led) ↦
              let office = become_leader-InOffice env rf h (not_leader' rf.state cand) in
              record {
                granted = (r, refl, vote');
                quorum = full;
                was_candidate = candidate_of rf.state cand;
                term = term;
                still = ap (λ x. x.current_term) (counted ∙ led) ∙ office.term ∙ term;
              }
        ]
      ]
    ]
  where
    follower_ne : follower ≢ leader
    follower_ne q = cc

    not_leader' : (s : State) → is_candidate s ≡ true → is_leader s ≡ false
    not_leader' follower q = refl
    not_leader' candidate q = refl
    not_leader' leader q = cc

request_votes_from-none :
    (rf : Raft) (args : RequestVoteArgs) (peers : Map NodeId Peer)
    → rf.voter_members ≡ rf.id ∷ []
    → request_votes_from rf args peers ≡ []
unfolding request_votes_from is_voter contains
request_votes_from-none rf args [] h = refl
request_votes_from-none rf args ((id, peer) ∷ rest) h =
    rw (request_votes_from-none rf args rest h)
      (ground (arith, h, int_beq_iff id rf.id, int_beq_iff rf.id id))

pub become_candidate-inv :
    (env : Env) (rf c : Raft)
    → become_candidate env rf ≡ some c
    → (c.state ≡ candidate)
      × (c.current_term ≡ u64 (rf.current_term + 1))
      × (c.voted_for ≡ rf.id)
      × (c.id ≡ rf.id)
      × (c.voter_members ≡ rf.voter_members)
      × (c.log ≡ rf.log)
unfolding become_candidate reset_election_timer
become_candidate-inv env rf c h = ground arith

alone_quorum :
    (c : Raft) → c.voter_members ≡ c.id ∷ [] → (is_voter c c.id ≡ true) × (quorum_votes c ≡ 1)
unfolding quorum_votes is_voter contains
alone_quorum c h = rw h (ground (arith, int_beq_iff c.id c.id), refl)

-- A candidate that is the only voter has its quorum at once, but sends no request: no reply can come
-- that would make it leader, and it stays candidate.
pub start_election_alone :
    (env : Env) (rf f : Raft) (election : Election) (acts : List Action)
    → rf.voter_members ≡ rf.id ∷ []
    → start_election env rf ≡ some (f, election, acts)
    → (f.state ≡ candidate) × (election.votes_received ≡ election.quorum) × (acts ≡ [])
unfolding start_election
start_election_alone env rf f election acts h p =
    let (c, q, r) = >>=-eq-some (become_candidate env rf) _ p in
    let (st, _, _, id, voters, _) = become_candidate-inv env rf c q in
    let alone : c.voter_members ≡ c.id ∷ [] = voters ∙ h ∙ ap (λ (n : NodeId). n ∷ []) (sym id) in
    let (own, one) = alone_quorum c alone in
    let none' = request_votes_from-none c (vote_request c) c.peers alone in
    ground (arith, own, one, none')
