-- ===== src/Raft/System/Solo.antt =====
-- What a node does alone, and the AppendEntries that it receives, carry over its id and its log's terms.
use raft_thesis.Base.{
  Bool, Bool-cases, List, Option, [], arith, inl, inr, refl, some, ◌++◌, ◌∷◌, ◌≡◌, ◌⊎◌,
}
use raft_thesis.Raft.Api.{add_node, catch_up_tick, reconfigure, remove_node, submit}
use raft_thesis.Raft.Membership.Core.{rebuild_volatile_peers-core}
use raft_thesis.Raft.Node.{Raft, get_last_log_info}
use raft_thesis.Raft.Node.Core.{SameCore-refl}
use raft_thesis.Raft.Replication.{
  clear_in_flight, handle_append_reply, prepare_append, update_commit_index,
}
use raft_thesis.Raft.Service.Votes.{become_follower-inv}
use raft_thesis.Raft.System.{
  Alone, on_add, on_apply, on_check, on_clear, on_leave, on_promote, on_remove, on_reply, on_submit,
}
use raft_thesis.Raft.System.Carry.{Carry, Carry-refl, become_follower-Carry, same_log, with_entry}
use raft_thesis.Raft.Transitions.{become_follower}
use raft_thesis.Raft.Types.{
  Action, AppendEntriesArgs, AppendEntriesReply, Command, EntryType, Env, LogEntry, NodeId,
  entry_add_learner, entry_add_voter, entry_remove_node, is_leader,
}
use raft_thesis.Raft.Voting.Leading.{
  Kept, add_node-cases, catch_up_tick-cases, clear_in_flight-Kept, handle_append_reply-cases,
  maybe_step_down_leader-cases, prepare_append-Kept, remove_node-cases, removed_self-cases,
}

Kept-Carry : (f rf : Raft) → f.id ≡ rf.id → Kept f rf → Carry rf f
Kept-Carry f rf i k = same_log rf f i k.log (omega (arith, k.term))

handle_append_reply-id :
    (env : Env) (peer : NodeId) (args : AppendEntriesArgs) (reply : AppendEntriesReply)
    (rf f : Raft) (ok : Bool) (acts : List Action)
    → handle_append_reply env peer args (some reply) rf ≡ some (f, ok, acts)
    → (become_follower env reply.term rf ≡ some f) ⊎ (f.id ≡ rf.id)
unfolding handle_append_reply update_commit_index
handle_append_reply-id env peer args reply rf f ok acts h = ground arith

handle_append_reply-Carry :
    (env : Env) (peer : NodeId) (args : AppendEntriesArgs) (reply : AppendEntriesReply)
    (rf f : Raft) (ok : Bool) (acts : List Action)
    → handle_append_reply env peer args (some reply) rf ≡ some (f, ok, acts)
    → Carry rf f
handle_append_reply-Carry env peer args reply rf f ok acts p =
    elim (handle_append_reply-cases env peer args reply rf f ok acts p) [
      | inl (up, down) ↦ become_follower-Carry env reply.term rf f down (omega arith)
      | inr k ↦ elim (handle_append_reply-id env peer args reply rf f ok acts p) [
        | inl down ↦
            let (_, _, _, i, _, _) = become_follower-inv env reply.term rf f down in
            Kept-Carry f rf i k
        | inr i ↦ Kept-Carry f rf i k
      ]
    ]

stepped_down :
    (env : Env) (rf f : Raft) → become_follower env rf.current_term rf ≡ some f → Carry rf f
stepped_down env rf f down = become_follower-Carry env rf.current_term rf f down (omega arith)

submit-Carry : (command : Command) (rf : Raft) → Carry rf (submit command rf).0
unfolding submit
submit-Carry command rf = elim (Bool-cases (is_leader rf.state)) [
  | inr idle ↦ rw idle (Carry-refl rf)
  | inl leads ↦ rw leads (with_entry rf _ _ (SameCore-refl _) (omega arith))
]

reconfigured :
    (env : Env) (type : EntryType) (cmd : Command) (f rf : Raft)
    → (f ≡ rf) ⊎ (f ≡ reconfigure env type cmd rf)
    → Carry rf f
unfolding reconfigure
reconfigured env type cmd f rf (inl e) = rw e (Carry-refl rf)
reconfigured env type cmd f rf (inr e) =
    let entry : LogEntry = record { type = type; term = rf.current_term; command = cmd } in
    let longer = record rf { log = rf.log ++ entry ∷ [] } in
    rw e (
      with_entry rf (reconfigure env type cmd rf) entry
        (rebuild_volatile_peers-core env (get_last_log_info longer).0 longer) (omega arith))

prepare_append-id :
    (peer : NodeId) (rf f : Raft) (args : Option AppendEntriesArgs)
    → prepare_append peer rf ≡ some (f, args)
    → f.id ≡ rf.id
unfolding prepare_append
prepare_append-id peer rf f args h = ground arith

pub prepare_append-Carry :
    (peer : NodeId) (rf f : Raft) (args : Option AppendEntriesArgs)
    → prepare_append peer rf ≡ some (f, args)
    → Carry rf f
prepare_append-Carry peer rf f args h =
    Kept-Carry f rf (prepare_append-id peer rf f args h) (prepare_append-Kept peer rf f args h)

clear_in_flight-id : (peer : NodeId) (rf : Raft) → (clear_in_flight peer rf).id ≡ rf.id
unfolding clear_in_flight
clear_in_flight-id peer rf = ground arith

pub Alone-Carry : (rf f : Raft) → Alone rf f → Carry rf f
Alone-Carry rf f (on_reply env peer args reply ok acts p) =
    handle_append_reply-Carry env peer args reply rf f ok acts p
Alone-Carry rf f (on_check env p) = elim (maybe_step_down_leader-cases env rf f p) [
  | inl e ↦ rw e (Carry-refl rf)
  | inr (leads, down) ↦ stepped_down env rf f down
]
Alone-Carry rf f (on_leave env id leads p) = elim (removed_self-cases env id rf f p) [
  | inl e ↦ rw e (Carry-refl rf)
  | inr down ↦ stepped_down env rf f down
]
Alone-Carry rf f (on_submit command e) = rw e (submit-Carry command rf)
Alone-Carry rf f (on_add env id addr e) = rw e (
    reconfigured env entry_add_learner _ (add_node env id addr rf).0 rf
      (add_node-cases env id addr rf))
Alone-Carry rf f (on_remove env id e) = rw e (
    reconfigured env entry_remove_node _ (remove_node env id rf).0 rf (remove_node-cases env id rf))
Alone-Carry rf f (on_promote env id e) = rw e (
    reconfigured env entry_add_voter _ (catch_up_tick env id rf).0 rf
      (catch_up_tick-cases env id rf))
Alone-Carry rf f (on_clear peer e) = rw e (
    Kept-Carry (clear_in_flight peer rf) rf (clear_in_flight-id peer rf)
      (clear_in_flight-Kept peer rf))
Alone-Carry rf f (on_apply futures applied e) = rw e (record { id = refl; below = λ b. b })
