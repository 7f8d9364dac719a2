-- ===== src/Raft/Voting/Requests.antt =====
-- The invariant of the votes through the two RPC handlers.
use raft_thesis.Base.{
  >>=-eq-some, List, Option, ap, arith, false, false≢true, inl, inr, int_beq_iff, some, sym, true,
  ◌<◌, ◌>>=◌, ◌∙◌, ◌≡◌, ◌≢◌, ◌≤◌, ◌⊎◌,
}
use raft_thesis.Raft.Node.{Raft, get_last_log_info, last_log_info, reset_election_timer}
use raft_thesis.Raft.Service.{catch_up_term, decide_vote, is_log_up_to_date, request_vote}
use raft_thesis.Raft.Service.Votes.{TermStep, catch_up_term-TermStep, risen, stayed}
use raft_thesis.Raft.Types.{
  Env, LogIndex, NodeId, RequestVoteArgs, RequestVoteReply, Term, follower, leader, no_node,
}
use raft_thesis.Raft.Voting.{IsCandidacy, cast}
use raft_thesis.Raft.Voting.Invariant.{Inv-cast, Inv-risen, Inv-voted, TracedInv}

pub TermStep-Inv :
    (term : Term) (rf c : Raft) (votes : List (Term × NodeId)) (led : Option Term)
    → TermStep term rf c
    → TracedInv (record { node = rf; votes = votes; led = led })
    → TracedInv (record { node = c; votes = votes; led = led })
TermStep-Inv term rf c votes led (stayed low e) h = rw e h
TermStep-Inv term rf c votes led (risen low t v st i l m) h =
    Inv-risen rf.current_term c.current_term rf.voted_for c.voted_for rf.state c.state
      (get_last_log_info rf).1 (get_last_log_info c).1 votes led h (rw t low)
      (λ q. follower_ne (sym st ∙ q))
  where
    follower_ne : follower ≢ leader
    follower_ne q = cc

-- What the decision leaves.
pub record Decided (args : RequestVoteArgs) (c f : Raft) (reply : RequestVoteReply) : Type 0 where
  pub state : f.state ≡ c.state
  pub term : f.current_term ≡ c.current_term
  pub log : f.log ≡ c.log
  pub answer_term : reply.term ≡ c.current_term
  outcome :
      ((reply.vote_granted ≡ false) × (f.voted_for ≡ c.voted_for))
      ⊎ ((reply.vote_granted ≡ true)
          × (f.voted_for ≡ args.candidate_id)
          × (is_log_up_to_date args (get_last_log_info c) ≡ true)
          × ((c.voted_for ≡ no_node) ⊎ (c.voted_for ≡ args.candidate_id)))

pub decide_vote-Decided :
    (env : Env) (args : RequestVoteArgs) (c f : Raft) (reply : RequestVoteReply)
    → decide_vote env args c ≡ some (f, reply)
    → Decided args c f reply
unfolding decide_vote reset_election_timer
decide_vote-Decided env args c f reply h =
    ground (arith, int_beq_iff c.voted_for no_node, int_beq_iff c.voted_for args.candidate_id)

-- A request that is refused before the decision, or decided in the term of the request.
pub request_vote-cases :
    (env : Env) (args : RequestVoteArgs) (rf f : Raft) (reply : RequestVoteReply)
    → request_vote env args rf ≡ some (f, reply)
    → ((f ≡ rf) × (reply.vote_granted ≡ false))
      ⊎ ((rf.current_term ≤ args.term)
          × ((catch_up_term env args.term rf >>= decide_vote env args) ≡ some (f, reply)))
unfolding request_vote
request_vote-cases env args rf f reply h = ground arith

-- A candidacy is newer than a log that ends in its term.
not-up_to_date :
    (args : RequestVoteArgs) (info : LogIndex × Term)
    → args.last_log_term < args.term
    → is_log_up_to_date args info ≡ true
    → info.1 ≢ args.term
unfolding is_log_up_to_date
not-up_to_date args (i, t) newer h e = ground arith

pub TermStep-term :
    (term : Term) (rf c : Raft)
    → rf.current_term ≤ term
    → TermStep term rf c
    → c.current_term ≡ term
TermStep-term term rf c h (stayed low e) = ap (λ r. r.current_term) e ∙ omega arith
TermStep-term term rf c h (risen low t v st i l m) = t

Decided-Inv :
    (args : RequestVoteArgs) (c f : Raft) (reply : RequestVoteReply) (votes : List (Term × NodeId))
    (led : Option Term)
    → IsCandidacy args
    → c.current_term ≡ args.term
    → Decided args c f reply
    → TracedInv (record { node = c; votes = votes; led = led })
    → TracedInv (record {
      node = f;
      votes = cast reply.vote_granted (reply.term, args.candidate_id) votes;
      led = led;
    })
unfolding get_last_log_info
Decided-Inv args c f reply votes led cand now' d h = elim d.outcome [
  | inl (no', kept') ↦ rw (no', kept', d.state, d.term, d.log) h
  | inr (yes', voted, fresh, free) ↦
      rw (yes', voted, d.state, d.term, d.log, d.answer_term)
        (Inv-cast c.current_term args.candidate_id c.state (last_log_info c.log).1 votes led
          (Inv-voted c.current_term c.voted_for args.candidate_id c.state (last_log_info c.log).1
            votes led h free cand.someone)
          cand.someone
          (λ mine. not-up_to_date args (last_log_info c.log) cand.newer fresh (h.own mine ∙ now')))
]

pub request_vote-Inv :
    (env : Env) (args : RequestVoteArgs) (rf f : Raft) (reply : RequestVoteReply)
    (votes : List (Term × NodeId)) (led : Option Term)
    → IsCandidacy args
    → request_vote env args rf ≡ some (f, reply)
    → TracedInv (record { node = rf; votes = votes; led = led })
    → TracedInv (record {
      node = f;
      votes = cast reply.vote_granted (reply.term, args.candidate_id) votes;
      led = led;
    })
request_vote-Inv env args rf f reply votes led cand p h =
    elim (request_vote-cases env args rf f reply p) [
      | inl (e, no') ↦ rw (e, no') h
      | inr (low, q) ↦
          let (c, up, decided) = >>=-eq-some (catch_up_term env args.term rf) _ q in
          let step = catch_up_term-TermStep env args.term rf c up in
          Decided-Inv args c f reply votes led cand (TermStep-term args.term rf c low step)
            (decide_vote-Decided env args c f reply decided)
            (TermStep-Inv args.term rf c votes led step h)
    ]

-- A vote is granted in the term of its request.
pub request_vote_term :
    (env : Env) (args : RequestVoteArgs) (rf f : Raft) (reply : RequestVoteReply)
    → request_vote env args rf ≡ some (f, reply)
    → reply.vote_granted ≡ true
    → reply.term ≡ args.term
request_vote_term env args rf f reply p granted = elim (request_vote-cases env args rf f reply p) [
  | inl (e, no') ↦ absurd (false≢true (sym no' ∙ granted))
  | inr (low, q) ↦
      let (c, up, decided) = >>=-eq-some (catch_up_term env args.term rf) _ q in
      (decide_vote-Decided env args c f reply decided).answer_term
      ∙ TermStep-term args.term rf c low (catch_up_term-TermStep env args.term rf c up)
]
