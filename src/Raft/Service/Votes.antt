-- ===== src/Raft/Service/Votes.antt =====
-- RequestVote: what a granted vote says, and what a refusal leaves.
use raft_thesis.Base.{
  >>=-eq-some, ap, arith, dec_lt, false, int_beq_iff, le→ltb_false, lt→ltb, some, some_inj, sym,
  true, ◌<◌, ◌>>=◌, ◌∙◌, ◌≡◌, ◌≤◌, ◌⊎◌,
}
use raft_thesis.Raft.Node.{Raft, get_last_log_info, is_voter, reset_election_timer}
use raft_thesis.Raft.Service.{
  catch_up_term, decide_vote, is_log_up_to_date, leader_in_contact, request_vote,
}
use raft_thesis.Raft.Transitions.{become_follower}
use raft_thesis.Raft.Types.{Env, RequestVoteArgs, RequestVoteReply, Term, follower, no_node}

-- What is true when a vote was granted.
pub record Granted (env : Env) (args : RequestVoteArgs) (rf f : Raft) : Type 0 where
  pub term : f.current_term ≡ args.term
  pub newer : rf.current_term ≤ args.term
  pub voted : f.voted_for ≡ args.candidate_id
  pub voter : is_voter rf rf.id ≡ true
  pub up_to_date : is_log_up_to_date args (get_last_log_info rf) ≡ true
  pub quiet : leader_in_contact env args rf ≡ false
  pub free :
      args.term ≡ rf.current_term → (rf.voted_for ≡ no_node) ⊎ (rf.voted_for ≡ args.candidate_id)
  pub log : f.log ≡ rf.log

decide_vote-granted :
    (env : Env) (args : RequestVoteArgs) (rf f : Raft) (reply : RequestVoteReply)
    → decide_vote env args rf ≡ some (f, reply)
    → reply.vote_granted ≡ true
    → (f.current_term ≡ rf.current_term)
      × (f.voted_for ≡ args.candidate_id)
      × (is_voter rf rf.id ≡ true)
      × (is_log_up_to_date args (get_last_log_info rf) ≡ true)
      × ((rf.voted_for ≡ no_node) ⊎ (rf.voted_for ≡ args.candidate_id))
      × (f.log ≡ rf.log)
unfolding decide_vote reset_election_timer
decide_vote-granted env args rf f reply h g =
    ground (arith, int_beq_iff rf.voted_for no_node, int_beq_iff rf.voted_for args.candidate_id)

-- A step to a newer term, or none.
pub data TermStep (term : Term) (rf c : Raft) : Type 0 where
  stayed : term ≤ rf.current_term → c ≡ rf → TermStep term rf c
  risen :
      rf.current_term < term
      → c.current_term ≡ term
      → c.voted_for ≡ no_node
      → c.state ≡ follower
      → c.id ≡ rf.id
      → c.log ≡ rf.log
      → c.voter_members ≡ rf.voter_members
      → TermStep term rf c

pub become_follower-inv :
    (env : Env) (term : Term) (rf c : Raft)
    → become_follower env term rf ≡ some c
    → (c.current_term ≡ term)
      × (c.voted_for ≡ no_node)
      × (c.state ≡ follower)
      × (c.id ≡ rf.id)
      × (c.log ≡ rf.log)
      × (c.voter_members ≡ rf.voter_members)
unfolding become_follower reset_election_timer
become_follower-inv env term rf c h = ground arith

pub catch_up_term-TermStep :
    (env : Env) (term : Term) (rf c : Raft)
    → catch_up_term env term rf ≡ some c
    → TermStep term rf c
unfolding catch_up_term
catch_up_term-TermStep env term rf c h = elim (dec_lt rf.current_term term) [
  | no stale ↦
      stayed (omega arith)
        (sym (some_inj (rw (le→ltb_false rf.current_term term (omega arith)) at h)))
  | yes newer ↦
      let (t, v, st, i, l, m) =
        become_follower-inv env term rf c (rw (lt→ltb rf.current_term term newer) at h) in
      risen newer t v st i l m
]

-- A request that is answered with a vote reached the decision.
request_vote-inv :
    (env : Env) (args : RequestVoteArgs) (rf f : Raft) (reply : RequestVoteReply)
    → request_vote env args rf ≡ some (f, reply)
    → reply.vote_granted ≡ true
    → (rf.current_term ≤ args.term)
      × (leader_in_contact env args rf ≡ false)
      × ((catch_up_term env args.term rf >>= decide_vote env args) ≡ some (f, reply))
unfolding request_vote
request_vote-inv env args rf f reply h g = ground arith

is_voter-same :
    (a b : Raft)
    → a.id ≡ b.id
    → a.voter_members ≡ b.voter_members
    → is_voter a a.id ≡ is_voter b b.id
unfolding is_voter
is_voter-same a b p q = rw (p, q)

get_last_log_info-same : (a b : Raft) → a.log ≡ b.log → get_last_log_info a ≡ get_last_log_info b
unfolding get_last_log_info
get_last_log_info-same a b p = rw p

-- A vote is granted only by a voter, in the term of the request, to a candidate whose log is as
-- complete, if no other leader is in contact and no vote of the term went to another candidate; the
-- node then remembers the vote.
pub request_vote-Granted :
    (env : Env) (args : RequestVoteArgs) (rf f : Raft) (reply : RequestVoteReply)
    → request_vote env args rf ≡ some (f, reply)
    → reply.vote_granted ≡ true
    → Granted env args rf f
request_vote-Granted env args rf f reply h g =
    let (newer, quiet, rest) = request_vote-inv env args rf f reply h g in
    let (c, p, q) = >>=-eq-some (catch_up_term env args.term rf) (decide_vote env args) rest in
    let (term, voted, own, fresh, free, log) = decide_vote-granted env args c f reply q g in
    elim (catch_up_term-TermStep env args.term rf c p) [
      | stayed low e ↦ record {
        term = term ∙ ap (λ r. r.current_term) e ∙ omega arith;
        newer = newer;
        voted = voted;
        voter = rw e at own;
        up_to_date = rw e at fresh;
        quiet = quiet;
        free = λ _. rw e at free;
        log = log ∙ ap (λ r. r.log) e;
      }
      | risen low t v st i l m ↦ record {
        term = term ∙ t;
        newer = newer;
        voted = voted;
        voter = sym (is_voter-same c rf i m) ∙ own;
        up_to_date = rw (get_last_log_info-same c rf l) at fresh;
        quiet = quiet;
        free = λ e. absurd (omega arith);
        log = log ∙ l;
      }
    ]
