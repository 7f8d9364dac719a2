-- ===== src/Raft/System/Carry.antt =====
-- What every critical section carries over: a node's id, and that no entry is newer than its term.
use raft_thesis.Base.{
  int_eq, >>=-eq-some, Bool-cases, List, [], arith, inl, inr, keys, length, not, refl, some, ◌&&◌,
  ◌++◌, ◌+◌, ◌<◌, ◌==◌, ◌>>=◌, ◌∙◌, ◌∷◌, ◌≡◌, ◌≤◌, ◌⊎◌,
}
use raft_thesis.Raft.Election.{Election, handle_vote_reply, start_election}
use raft_thesis.Raft.Election.Leadership.{
  become_candidate-inv, count_vote-inv, handle_vote_reply-inv,
}
use raft_thesis.Raft.Node.{Raft, get_last_log_info, reset_election_timer}
use raft_thesis.Raft.Node.Core.{SameCore, SameCore-refl, u64_small}
use raft_thesis.Raft.Service.{catch_up_term, decide_vote, request_vote}
use raft_thesis.Raft.Service.Votes.{
  TermStep, become_follower-inv, catch_up_term-TermStep, risen, stayed,
}
use raft_thesis.Raft.System.Logs.{Below, Below-append, Below-mono, founding_entries-Below}
use raft_thesis.Raft.Transitions.{
  append_founding, become_follower, become_leader, begin_term, no_op, reset_progress,
  sorted_bootstrap_ids, take_office,
}
use raft_thesis.Raft.Transitions.Office.{reset_progress-core}
use raft_thesis.Raft.Types.{
  Action, Env, LogEntry, RequestVoteArgs, RequestVoteReply, Term, is_leader, leader, u64,
}
use raft_thesis.Raft.Voting.Replies.{start_election-inv}

pub record Carry (rf f : Raft) : Type 0 where
  pub id : f.id ≡ rf.id
  pub below : Below rf.current_term rf.log → Below f.current_term f.log

pub same_log :
    (rf f : Raft) → f.id ≡ rf.id → f.log ≡ rf.log → rf.current_term ≤ f.current_term → Carry rf f
same_log rf f i l up = record {
  id = i;
  below = λ b. rw l (Below-mono rf.current_term f.current_term rf.log up b);
}

pub Carry-refl : (rf : Raft) → Carry rf rf
Carry-refl rf = record { id = refl; below = λ b. b }

pub Carry-trans : (a b c : Raft) → Carry a b → Carry b c → Carry a c
Carry-trans a b c p q = record { id = q.id ∙ p.id; below = λ h. q.below (p.below h) }

SameCore-Carry : (rf f : Raft) → SameCore f rf → Carry rf f
SameCore-Carry rf f c = same_log rf f c.id c.log (omega (arith, c.current_term))

pub become_follower-Carry :
    (env : Env) (t : Term) (rf f : Raft)
    → become_follower env t rf ≡ some f
    → rf.current_term ≤ t
    → Carry rf f
become_follower-Carry env t rf f p up =
    let (term, _, _, i, l, _) = become_follower-inv env t rf f p in same_log rf f i l (omega arith)

pub TermStep-Carry : (t : Term) (rf c : Raft) → TermStep t rf c → Carry rf c
TermStep-Carry t rf c (stayed low e) = rw e (Carry-refl rf)
TermStep-Carry t rf c (risen low u v st i l m) = same_log rf c i l (omega arith)

decide_vote-Carry :
    (env : Env) (args : RequestVoteArgs) (c f : Raft) (reply : RequestVoteReply)
    → decide_vote env args c ≡ some (f, reply)
    → (f.id ≡ c.id) × (f.log ≡ c.log) × (f.current_term ≡ c.current_term)
unfolding decide_vote reset_election_timer
decide_vote-Carry env args c f reply h = ground arith

request_vote-reached :
    (env : Env) (args : RequestVoteArgs) (rf f : Raft) (reply : RequestVoteReply)
    → request_vote env args rf ≡ some (f, reply)
    → (f ≡ rf) ⊎ ((catch_up_term env args.term rf >>= decide_vote env args) ≡ some (f, reply))
unfolding request_vote
request_vote-reached env args rf f reply h = ground arith

pub request_vote-Carry :
    (env : Env) (args : RequestVoteArgs) (rf f : Raft) (reply : RequestVoteReply)
    → request_vote env args rf ≡ some (f, reply)
    → Carry rf f
request_vote-Carry env args rf f reply h = elim (request_vote-reached env args rf f reply h) [
  | inl e ↦ rw e (Carry-refl rf)
  | inr more ↦
      let (c, p, q) = >>=-eq-some (catch_up_term env args.term rf) (decide_vote env args) more in
      let (i, l, t) = decide_vote-Carry env args c f reply q in
      Carry-trans rf c f
        (TermStep-Carry args.term rf c (catch_up_term-TermStep env args.term rf c p))
        (same_log c f i l (omega arith))
]

pub start_election-Carry :
    (env : Env) (rf f : Raft) (election : Election) (acts : List Action)
    → rf.current_term + 1 < 18446744073709551616
    → start_election env rf ≡ some (f, election, acts)
    → Carry rf f
start_election-Carry env rf f election acts small p =
    let (st, t, v, i, m, l) =
      become_candidate-inv env rf f (start_election-inv env rf f election acts p) in
    same_log rf f i l (omega (arith, u64_small (rf.current_term + 1) small))

append_founding-Carry : (env : Env) (rf : Raft) → Carry rf (append_founding env rf)
unfolding append_founding
append_founding-Carry env rf =
    elim (Bool-cases ((get_last_log_info rf).0 == 0 && not (length rf.bootstrap_cluster == 0))) [
      | inl founding ↦ rw founding (record {
        id = refl;
        below = λ b. Below-append rf.current_term rf.log _ b (
            founding_entries-Below env rf.current_term rf.bootstrap_cluster
              (sorted_bootstrap_ids rf.bootstrap_cluster));
      })
      | inr plain ↦ rw plain (Carry-refl rf)
    ]

pub with_entry :
    (rf f : Raft) (e : LogEntry)
    → SameCore f (record rf { log = rf.log ++ e ∷ [] })
    → e.term ≤ rf.current_term
    → Carry rf f
with_entry rf f e c h = record {
  id = c.id;
  below = λ b. rw (c.current_term, c.log) (Below-append rf.current_term rf.log (e ∷ []) b (h, tt));
}

begin_term-Carry : (env : Env) (led : Raft) → Carry led (begin_term env led)
unfolding begin_term
begin_term-Carry env led =
    let next' = u64 ((get_last_log_info led).0 + 1) in
    let started = reset_progress env.now next' (keys led.peers) led in
    let core = reset_progress-core env.now next' (keys led.peers) led in
    Carry-trans led started (begin_term env led) (SameCore-Carry led started core) (
      with_entry started (begin_term env led) (no_op started.current_term) (SameCore-refl _)
        (omega arith))

become_leader-Carry : (env : Env) (rf : Raft) → Carry rf (become_leader env rf).0
unfolding become_leader take_office
become_leader-Carry env rf = elim (Bool-cases (is_leader rf.state)) [
  | inl already ↦ rw already (Carry-refl rf)
  | inr new' ↦
      let led = record rf { state = leader; hint_leader_id = rf.id } in
      let founded = append_founding-Carry env led in
      let begun' = begin_term-Carry env (append_founding env led) in
      rw new' (record { id = begun'.id ∙ founded.id; below = λ b. begun'.below (founded.below b) })
]

pub handle_vote_reply-Carry :
    (env : Env) (reply : RequestVoteReply) (before after : Election) (rf f : Raft)
    (acts : List Action)
    → handle_vote_reply env (some reply) before rf ≡ some (f, after, acts)
    → Carry rf f
handle_vote_reply-Carry env reply before after rf f acts p =
    elim (handle_vote_reply-inv env reply before after rf f acts p) [
      | inl e ↦ rw e (Carry-refl rf)
      | inr (inl (up, down)) ↦ become_follower-Carry env reply.term rf f down (omega arith)
      | inr (inr (cand, term, granted, e)) ↦ elim (count_vote-inv env before rf) [
        | inl same ↦ rw (e, same) (Carry-refl rf)
        | inr (full, led) ↦ rw (e, led) (become_leader-Carry env rf)
      ]
    ]
