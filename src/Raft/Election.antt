-- ===== src/Raft/Election.antt =====
-- raft-consensus/internal/raft/election.go: an election, its vote requests and the replies to them.
pub mod Leadership
pub mod Timing
use raft_thesis.Base.{
  int_eq, Bool, List, Map, Option, [], false, if◌then◌else◌, leb_ℤ, length, ltb, none, not, some,
  sub_ℕ, ℕ, ◌+◌, ◌==◌, ◌=?◌, ◌>>=◌, ◌||◌, ◌∷◌,
}
use raft_thesis.Raft.Node.{Raft, get_last_log_info, is_voter, quorum_votes}
use raft_thesis.Raft.Transitions.{become_candidate, become_follower, become_leader}
use raft_thesis.Raft.Types.{
  Action, Env, NodeId, Peer, RequestVoteArgs, RequestVoteReply, Term, is_candidate, is_leader,
  send_request_vote,
}

-- The variables that the goroutines of one election share.
pub record Election : Type 0 where
  pub term : Term
  pub votes_received : ℕ
  pub quorum : ℕ

-- One goroutine for each other voter that has a client.
unfoldable pub request_votes_from : Raft → RequestVoteArgs → Map NodeId Peer → List Action
request_votes_from rf args [] = []
request_votes_from rf args ((id, peer) ∷ rest) =
    let others = request_votes_from rf args rest in
    if id =? rf.id || not (is_voter rf id)
    then others
    else elim peer.client [ none ↦ others | some c ↦ send_request_vote id args ∷ others ]

unfoldable pub vote_request : Raft → RequestVoteArgs
vote_request rf =
    let (last_index, last_term) = get_last_log_info rf in
    record {
      term = rf.current_term;
      candidate_id = rf.id;
      last_log_index = last_index;
      last_log_term = last_term;
    }

unfoldable pub start_election : Env → Raft → Option (Raft × Election × List Action)
unfolding request_votes_from
start_election env rf = do
  standing ← become_candidate env rf
  let own : ℕ = if is_voter standing standing.id then 1 else 0
  some (
    standing,
    record { term = standing.current_term; votes_received = own; quorum = quorum_votes standing },
    request_votes_from standing (vote_request standing) standing.peers,
  )

unfoldable pub count_vote : Env → Election → Raft → Raft × Election × List Action
count_vote env election rf =
    let counted = record election { votes_received = election.votes_received + 1 } in
    if counted.votes_received == counted.quorum
    then (let (led, actions) = become_leader env rf in (led, counted, actions))
    else (rf, counted, [])

-- What a goroutine does with its reply; `none` is an error or a timeout.
unfoldable pub handle_vote_reply :
    Env → Option RequestVoteReply → Election → Raft → Option (Raft × Election × List Action)
unfolding count_vote
handle_vote_reply env none election rf = some (rf, election, [])
handle_vote_reply env (some reply) election rf =
    if not (is_candidate rf.state) || not (rf.current_term == election.term)
    then some (rf, election, [])
    else if ltb election.term reply.term
    then (do down ← become_follower env reply.term rf; some (down, election, []))
    else if reply.vote_granted
    then some (count_vote env election rf)
    else some (rf, election, [])

unfoldable pub should_start_election : Env → Raft → Bool
should_start_election env rf =
    if is_leader rf.state
    then false
    else if length rf.voter_members == 0
    then false
    else if not (is_voter rf rf.id)
    then false
    else leb_ℤ rf.election_timeout (sub_ℕ env.now rf.last_activity)
