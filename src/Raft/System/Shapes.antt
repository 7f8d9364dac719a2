-- ===== src/Raft/System/Shapes.antt =====
-- What a section does to a node's role and log: nothing, a step down, or one more entry of a leader.
use raft_thesis.Base.{
  >>=-eq-some, Bool-cases, String, [], ap, arith, inl, inr, refl, some, true, ◌++◌, ◌∙◌, ◌∷◌, ◌≡◌,
  ◌⊎◌,
}
use raft_thesis.Raft.Api.{add_node, catch_up_tick, reconfigure, remove_node, submit}
use raft_thesis.Raft.Membership.Core.{rebuild_volatile_peers-core}
use raft_thesis.Raft.Node.{Raft, get_last_log_info}
use raft_thesis.Raft.Replication.{clear_in_flight}
use raft_thesis.Raft.Service.{catch_up_term, request_vote}
use raft_thesis.Raft.Service.Votes.{
  TermStep, become_follower-inv, catch_up_term-TermStep, risen, stayed,
}
use raft_thesis.Raft.System.{
  Alone, on_add, on_apply, on_check, on_clear, on_leave, on_promote, on_remove, on_reply, on_submit,
}
use raft_thesis.Raft.Transitions.{become_follower}
use raft_thesis.Raft.Types.{
  Command, EntryType, Env, LogEntry, NodeId, RequestVoteArgs, RequestVoteReply, Term,
  entry_add_learner, entry_add_voter, entry_remove_node, follower, is_leader, leader,
}
use raft_thesis.Raft.Voting.Leading.{
  Kept, add_node-cases, catch_up_tick-cases, clear_in_flight-Kept, handle_append_reply-cases,
  maybe_step_down_leader-cases, remove_node-cases, removed_self-cases,
}
use raft_thesis.Raft.Voting.Replies.{leader_of}
use raft_thesis.Raft.Voting.Requests.{decide_vote-Decided, request_vote-cases}

pub data Shape (rf f : Raft) : Type 0 where
  shape_kept : f.state ≡ rf.state → f.current_term ≡ rf.current_term → f.log ≡ rf.log → Shape rf f
  shape_lowered : f.state ≡ follower → f.log ≡ rf.log → Shape rf f
  shape_grown :
      (e : LogEntry)
      → rf.state ≡ leader
      → f.state ≡ rf.state
      → f.current_term ≡ rf.current_term
      → e.term ≡ rf.current_term
      → f.log ≡ rf.log ++ e ∷ []
      → Shape rf f

Shape-refl : (rf : Raft) → Shape rf rf
Shape-refl rf = shape_kept refl refl refl

Kept-Shape : (f rf : Raft) → Kept f rf → Shape rf f
Kept-Shape f rf k = shape_kept k.state k.term k.log

pub become_follower-Shape :
    (env : Env) (t : Term) (rf f : Raft) → become_follower env t rf ≡ some f → Shape rf f
become_follower-Shape env t rf f p =
    let (term, v, st, i, l, m) = become_follower-inv env t rf f p in shape_lowered st l

submit-Shape : (command : Command) (rf : Raft) → Shape rf (submit command rf).0
unfolding submit
submit-Shape command rf = elim (Bool-cases (is_leader rf.state)) [
  | inr idle ↦ rw idle (Shape-refl rf)
  | inl leads ↦ rw leads (shape_grown _ (leader_of rf.state leads) refl refl refl refl)
]

-- A configuration request: only a leader appends its entry.
reconfigured-Shape :
    (env : Env) (type : EntryType) (cmd : Command) (f rf : Raft)
    → (f ≡ rf) ⊎ (is_leader rf.state ≡ true)
    → (f ≡ rf) ⊎ (f ≡ reconfigure env type cmd rf)
    → Shape rf f
unfolding reconfigure
reconfigured-Shape env type cmd f rf a (inl e) = rw e (Shape-refl rf)
reconfigured-Shape env type cmd f rf (inl e) (inr e') = rw e (Shape-refl rf)
reconfigured-Shape env type cmd f rf (inr leads) (inr e) =
    let entry : LogEntry = record { type = type; term = rf.current_term; command = cmd } in
    let longer = record rf { log = rf.log ++ entry ∷ [] } in
    let core = rebuild_volatile_peers-core env (get_last_log_info longer).0 longer in
    rw e (shape_grown entry (leader_of rf.state leads) core.state core.current_term refl core.log)

add_node_leads :
    (env : Env) (id : NodeId) (addr : String) (rf : Raft)
    → ((add_node env id addr rf).0 ≡ rf) ⊎ (is_leader rf.state ≡ true)
unfolding add_node
add_node_leads env id addr rf = ground arith

remove_node_leads :
    (env : Env) (id : NodeId) (rf : Raft)
    → ((remove_node env id rf).0 ≡ rf) ⊎ (is_leader rf.state ≡ true)
unfolding remove_node
remove_node_leads env id rf = ground arith

catch_up_tick_leads :
    (env : Env) (id : NodeId) (rf : Raft)
    → ((catch_up_tick env id rf).0 ≡ rf) ⊎ (is_leader rf.state ≡ true)
unfolding catch_up_tick
catch_up_tick_leads env id rf = ground arith

pub Alone-Shape : (rf f : Raft) → Alone rf f → Shape rf f
Alone-Shape rf f (on_reply env peer args reply ok acts p) =
    elim (handle_append_reply-cases env peer args reply rf f ok acts p) [
      | inl (up, down) ↦ become_follower-Shape env reply.term rf f down
      | inr k ↦ Kept-Shape f rf k
    ]
Alone-Shape rf f (on_check env p) = elim (maybe_step_down_leader-cases env rf f p) [
  | inl e ↦ rw e (Shape-refl rf)
  | inr (leads, down) ↦ become_follower-Shape env rf.current_term rf f down
]
Alone-Shape rf f (on_leave env id leads p) = elim (removed_self-cases env id rf f p) [
  | inl e ↦ rw e (Shape-refl rf)
  | inr down ↦ become_follower-Shape env rf.current_term rf f down
]
Alone-Shape rf f (on_submit command e) = rw e (submit-Shape command rf)
Alone-Shape rf f (on_add env id addr e) = rw e (
    reconfigured-Shape env entry_add_learner _ (add_node env id addr rf).0 rf
      (add_node_leads env id addr rf) (add_node-cases env id addr rf))
Alone-Shape rf f (on_remove env id e) = rw e (
    reconfigured-Shape env entry_remove_node _ (remove_node env id rf).0 rf
      (remove_node_leads env id rf) (remove_node-cases env id rf))
Alone-Shape rf f (on_promote env id e) = rw e (
    reconfigured-Shape env entry_add_voter _ (catch_up_tick env id rf).0 rf
      (catch_up_tick_leads env id rf) (catch_up_tick-cases env id rf))
Alone-Shape rf f (on_clear peer e) =
    rw e (Kept-Shape (clear_in_flight peer rf) rf (clear_in_flight-Kept peer rf))
Alone-Shape rf f (on_apply futures applied e) = rw e (shape_kept refl refl refl)

-- A vote request: the role and the log stay, or the node steps down.
pub request_vote-Shape :
    (env : Env) (args : RequestVoteArgs) (rf f : Raft) (reply : RequestVoteReply)
    → request_vote env args rf ≡ some (f, reply)
    → Shape rf f
request_vote-Shape env args rf f reply p = elim (request_vote-cases env args rf f reply p) [
  | inl (e, no') ↦ rw e (Shape-refl rf)
  | inr (low, q) ↦
      let (c, up, decided) = >>=-eq-some (catch_up_term env args.term rf) _ q in
      let d = decide_vote-Decided env args c f reply decided in
      go c (catch_up_term-TermStep env args.term rf c up) d.state d.term d.log
]
  where
    go :
        (c : Raft)
        → TermStep args.term rf c
        → f.state ≡ c.state
        → f.current_term ≡ c.current_term
        → f.log ≡ c.log
        → Shape rf f
    go c (stayed low e) s t l =
        shape_kept (s ∙ ap (λ x. x.state) e) (t ∙ ap (λ x. x.current_term) e)
          (l ∙ ap (λ x. x.log) e)
    go c (risen low t v st i l m) s t' l' = shape_lowered (s ∙ st) (l' ∙ l)
