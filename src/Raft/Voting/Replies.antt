-- ===== src/Raft/Voting/Replies.antt =====
-- The invariant of the votes through elections, replies and the tickers.
use raft_thesis.Base.{
  Bool-cases, List, Option, arith, false, inl, inr, refl, some, sym, true, ◌+◌, ◌<◌, ◌∙◌, ◌∷◌, ◌≡◌,
  ◌≢◌,
}
use raft_thesis.Raft.Election.{Election, handle_vote_reply, start_election}
use raft_thesis.Raft.Election.Leadership.{
  become_candidate-inv, count_vote-inv, handle_vote_reply-inv,
}
use raft_thesis.Raft.Node.{Raft, get_last_log_info, last_log_info}
use raft_thesis.Raft.Node.Core.{u64_small}
use raft_thesis.Raft.Service.Votes.{become_follower-inv}
use raft_thesis.Raft.Transitions.{become_candidate, become_follower, become_leader}
use raft_thesis.Raft.Transitions.Office.{become_leader-ballot}
use raft_thesis.Raft.Types.{
  Action, Env, NodeId, RequestVoteReply, State, Term, candidate, follower, is_candidate, is_leader,
  leader, no_node,
}
use raft_thesis.Raft.Voting.{led_after}
use raft_thesis.Raft.Voting.Invariant.{Inv-cast, Inv-office, Inv-resigned, Inv-risen, TracedInv}

pub follower_ne : (s : State) → s ≡ follower → s ≢ leader
follower_ne s p q = absurd (differ (sym p ∙ q))
  where
    differ : follower ≢ leader
    differ e = cc

candidate_ne : (s : State) → s ≡ candidate → s ≢ leader
candidate_ne s p q = absurd (differ (sym p ∙ q))
  where
    differ : candidate ≢ leader
    differ e = cc

pub risen-Inv :
    (env : Env) (term : Term) (rf f : Raft) (votes : List (Term × NodeId)) (led : Option Term)
    → rf.current_term < term
    → become_follower env term rf ≡ some f
    → TracedInv (record { node = rf; votes = votes; led = led })
    → TracedInv (record { node = f; votes = votes; led = led })
risen-Inv env term rf f votes led up p h =
    let (t, v, st, i, l, m) = become_follower-inv env term rf f p in
    Inv-risen rf.current_term f.current_term rf.voted_for f.voted_for rf.state f.state
      (get_last_log_info rf).1 (get_last_log_info f).1 votes led h (rw t up)
      (follower_ne f.state st)

-- Stepping down in the term that the node leads.
pub resigned-Inv :
    (env : Env) (rf f : Raft) (votes : List (Term × NodeId)) (led : Option Term)
    → rf.state ≡ leader
    → become_follower env rf.current_term rf ≡ some f
    → TracedInv (record { node = rf; votes = votes; led = led })
    → TracedInv (record { node = f; votes = votes; led = led })
unfolding get_last_log_info
resigned-Inv env rf f votes led leads p h =
    let (t, v, st, i, l, m) = become_follower-inv env rf.current_term rf f p in
    rw (t, l)
      (Inv-resigned rf.current_term rf.voted_for f.voted_for rf.state f.state
        (last_log_info rf.log).1 votes led h (h.leading leads))

pub start_election-inv :
    (env : Env) (rf f : Raft) (election : Election) (acts : List Action)
    → start_election env rf ≡ some (f, election, acts)
    → become_candidate env rf ≡ some f
unfolding start_election
start_election-inv env rf f election acts h = ground arith

pub start_election-Inv :
    (env : Env) (rf f : Raft) (election : Election) (acts : List Action)
    (votes : List (Term × NodeId)) (led : Option Term)
    → rf.id ≢ no_node
    → rf.current_term + 1 < 18446744073709551616
    → start_election env rf ≡ some (f, election, acts)
    → TracedInv (record { node = rf; votes = votes; led = led })
    → TracedInv (record { node = f; votes = (f.current_term, f.id) ∷ votes; led = led })
unfolding get_last_log_info
start_election-Inv env rf f election acts votes led someone small p h =
    let (st, t, v, i, m, l) =
      become_candidate-inv env rf f (start_election-inv env rf f election acts p) in
    let up : f.current_term ≡ rf.current_term + 1 = t ∙ u64_small (rf.current_term + 1) small in
    let risen' =
      Inv-risen rf.current_term f.current_term rf.voted_for f.voted_for rf.state f.state
        (get_last_log_info rf).1 (get_last_log_info f).1 votes led h (omega arith)
        (candidate_ne f.state st) in
    let own : f.voted_for ≡ f.id = v ∙ sym i in
    rw (← own) (
      Inv-cast f.current_term f.voted_for f.state (get_last_log_info f).1 votes led risen'
        (λ e. someone (sym v ∙ e)) (λ mine. absurd (omega (arith, h.ruled f.current_term mine))))

pub leader_of : (s : State) → is_leader s ≡ true → s ≡ leader
leader_of follower h = cc
leader_of candidate h = cc
leader_of leader h = refl

pub not_leader_of : (s : State) → is_candidate s ≡ true → is_leader s ≡ false
not_leader_of follower h = cc
not_leader_of candidate h = refl
not_leader_of leader h = cc

-- A reply to a vote request.
pub handle_vote_reply-Inv :
    (env : Env) (reply : RequestVoteReply) (before after : Election) (rf f : Raft)
    (acts : List Action) (votes : List (Term × NodeId)) (led : Option Term)
    → handle_vote_reply env (some reply) before rf ≡ some (f, after, acts)
    → TracedInv (record { node = rf; votes = votes; led = led })
    → TracedInv (record { node = f; votes = votes; led = led_after f led })
handle_vote_reply-Inv env reply before after rf f acts votes led p h =
    elim (handle_vote_reply-inv env reply before after rf f acts p) [
      | inl e ↦ rw e (unled rf h)
      | inr (inl (up, down)) ↦
          let (t, v, st, _, _, _) = become_follower-inv env reply.term rf f down in
          rw (not_led st) (risen-Inv env reply.term rf f votes led up down h)
      | inr (inr (cand, term, granted, e)) ↦ elim (count_vote-inv env before rf) [
        | inl e' ↦ rw (e ∙ e') (unled rf h)
        | inr (_, office) ↦ rw (e ∙ office) (elected cand)
      ]
    ]
  where
    unled :
        (r : Raft)
        → TracedInv (record { node = r; votes = votes; led = led })
        → TracedInv (record { node = r; votes = votes; led = led_after r led })
    unled r k = elim (Bool-cases (is_leader r.state)) [
      | inl yes' ↦ rw (yes', ← k.leading (leader_of r.state yes')) k
      | inr no' ↦ rw no' k
    ]

    not_led : f.state ≡ follower → led_after f led ≡ led
    not_led st = rw st

    elected :
        is_candidate rf.state ≡ true
        → TracedInv (record {
          node = (become_leader env rf).0;
          votes = votes;
          led = led_after (become_leader env rf).0 led;
        })
    elected cand =
        let (st, t, v, l) = become_leader-ballot env rf (not_leader_of rf.state cand) in
        rw (st, t, v, l)
          (Inv-office rf.current_term rf.voted_for rf.state (get_last_log_info rf).1 votes led h)
