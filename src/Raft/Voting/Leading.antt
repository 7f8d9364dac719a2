-- ===== src/Raft/Voting/Leading.antt =====
-- The invariant of the votes through what a leader does.
use raft_thesis.Base.{
  int_eq, Bool, Bool-cases, List, Option, String, [], ap, arith, get_or, inl, inr, lookup, refl,
  some, sym, true, ◌++◌, ◌<◌, ◌∷◌, ◌≡◌, ◌⊎◌,
}
use raft_thesis.Raft.Api.{add_node, catch_up_tick, reconfigure, remove_node, removed_self, submit}
use raft_thesis.Raft.Membership.Core.{rebuild_volatile_peers-core}
use raft_thesis.Raft.Node.{Raft, get_last_log_info, last_log_info}
use raft_thesis.Raft.Node.Log.{last_log_info-append}
use raft_thesis.Raft.Replication.{
  clear_in_flight, handle_append_reply, prepare_append, update_commit_index,
}
use raft_thesis.Raft.Run.{maybe_step_down_leader}
use raft_thesis.Raft.Transitions.{become_follower}
use raft_thesis.Raft.Types.{
  Action, AppendEntriesArgs, AppendEntriesReply, Command, EntryType, Env, LogEntry, LogIndex,
  NodeId, Term, entry_add_learner, entry_add_voter, entry_remove_node, is_leader, leader,
}
use raft_thesis.Raft.Voting.Invariant.{Inv-logged, TracedInv}
use raft_thesis.Raft.Voting.Replies.{leader_of, resigned-Inv, risen-Inv}

-- The ballot and the log's last term, as they were.
pub record Kept (a b : Raft) : Type 0 where
  pub state : a.state ≡ b.state
  pub term : a.current_term ≡ b.current_term
  pub voted : a.voted_for ≡ b.voted_for
  pub log : a.log ≡ b.log

pub Kept-Inv :
    (f rf : Raft) (votes : List (Term × NodeId)) (led : Option Term)
    → Kept f rf
    → TracedInv (record { node = rf; votes = votes; led = led })
    → TracedInv (record { node = f; votes = votes; led = led })
unfolding get_last_log_info
Kept-Inv f rf votes led k h = rw (k.state, k.term, k.voted, k.log) h

pub handle_append_reply-cases :
    (env : Env) (peer : NodeId) (args : AppendEntriesArgs) (reply : AppendEntriesReply)
    (rf f : Raft) (ok : Bool) (acts : List Action)
    → handle_append_reply env peer args (some reply) rf ≡ some (f, ok, acts)
    → ((rf.current_term < reply.term) × (become_follower env reply.term rf ≡ some f)) ⊎ Kept f rf
unfolding handle_append_reply update_commit_index
handle_append_reply-cases env peer args reply rf f ok acts h = ground arith

pub handle_append_reply-Inv :
    (env : Env) (peer : NodeId) (args : AppendEntriesArgs) (reply : AppendEntriesReply)
    (rf f : Raft) (ok : Bool) (acts : List Action) (votes : List (Term × NodeId))
    (led : Option Term)
    → handle_append_reply env peer args (some reply) rf ≡ some (f, ok, acts)
    → TracedInv (record { node = rf; votes = votes; led = led })
    → TracedInv (record { node = f; votes = votes; led = led })
handle_append_reply-Inv env peer args reply rf f ok acts votes led p h =
    elim (handle_append_reply-cases env peer args reply rf f ok acts p) [
      | inl (up, down) ↦ risen-Inv env reply.term rf f votes led up down h
      | inr k ↦ Kept-Inv f rf votes led k h
    ]

pub maybe_step_down_leader-cases :
    (env : Env) (rf f : Raft)
    → maybe_step_down_leader env rf ≡ some f
    → (f ≡ rf) ⊎ ((is_leader rf.state ≡ true) × (become_follower env rf.current_term rf ≡ some f))
unfolding maybe_step_down_leader
maybe_step_down_leader-cases env rf f h = ground arith

pub maybe_step_down_leader-Inv :
    (env : Env) (rf f : Raft) (votes : List (Term × NodeId)) (led : Option Term)
    → maybe_step_down_leader env rf ≡ some f
    → TracedInv (record { node = rf; votes = votes; led = led })
    → TracedInv (record { node = f; votes = votes; led = led })
maybe_step_down_leader-Inv env rf f votes led p h = elim (maybe_step_down_leader-cases env rf f p) [
  | inl e ↦ rw e h
  | inr (yes', down) ↦ resigned-Inv env rf f votes led (leader_of rf.state yes') down h
]

pub removed_self-cases :
    (env : Env) (id : NodeId) (rf f : Raft)
    → removed_self env id rf ≡ some f
    → (f ≡ rf) ⊎ (become_follower env rf.current_term rf ≡ some f)
unfolding removed_self
removed_self-cases env id rf f h = ground arith

pub removed_self-Inv :
    (env : Env) (id : NodeId) (rf f : Raft) (votes : List (Term × NodeId)) (led : Option Term)
    → rf.state ≡ leader
    → removed_self env id rf ≡ some f
    → TracedInv (record { node = rf; votes = votes; led = led })
    → TracedInv (record { node = f; votes = votes; led = led })
removed_self-Inv env id rf f votes led leads p h = elim (removed_self-cases env id rf f p) [
  | inl e ↦ rw e h
  | inr down ↦ resigned-Inv env rf f votes led leads down h
]

-- An entry of the present term at the end of the log.
record Extended (f rf : Raft) : Type 0 where
  state : f.state ≡ rf.state
  term : f.current_term ≡ rf.current_term
  voted : f.voted_for ≡ rf.voted_for
  last : (get_last_log_info f).1 ≡ rf.current_term

Extended-Inv :
    (f rf : Raft) (votes : List (Term × NodeId)) (led : Option Term)
    → Extended f rf
    → TracedInv (record { node = rf; votes = votes; led = led })
    → TracedInv (record { node = f; votes = votes; led = led })
Extended-Inv f rf votes led e h =
    let logged =
      Inv-logged rf.current_term rf.voted_for rf.state (get_last_log_info rf).1
        (get_last_log_info f).1 votes led h (λ mine. e.last) in
    rw (sym e.state, sym e.term, sym e.voted) at logged

submit-cases :
    (command : Command) (rf : Raft)
    → ((submit command rf).0 ≡ rf) ⊎ Extended (submit command rf).0 rf
unfolding submit get_last_log_info
submit-cases command rf = elim (Bool-cases (is_leader rf.state)) [
  | inr no' ↦ inl (rw no')
  | inl yes' ↦ inr (
      rw yes' (record {
        state = refl;
        term = refl;
        voted = refl;
        last = ap (λ (p : LogIndex × Term). p.1) (last_log_info-append rf.log _);
      }))
]

reconfigure-Extended :
    (env : Env) (type : EntryType) (cmd : Command) (rf : Raft)
    → Extended (reconfigure env type cmd rf) rf
unfolding reconfigure get_last_log_info
reconfigure-Extended env type cmd rf =
    let entry : LogEntry = record { type = type; term = rf.current_term; command = cmd } in
    let appended = record rf { log = rf.log ++ entry ∷ [] } in
    let core = rebuild_volatile_peers-core env (last_log_info appended.log).0 appended in
    record {
      state = core.state;
      term = core.current_term;
      voted = core.voted_for;
      last = rw core.log (ap (λ (p : LogIndex × Term). p.1) (last_log_info-append rf.log entry));
    }

-- A configuration request leaves the node alone, or appends its entry.
pub add_node-cases :
    (env : Env) (id : NodeId) (addr : String) (rf : Raft)
    → ((add_node env id addr rf).0 ≡ rf)
      ⊎ ((add_node env id addr rf).0
          ≡ reconfigure env entry_add_learner (env.encode_config_add id addr) rf)
unfolding add_node
add_node-cases env id addr rf = ground arith

pub remove_node-cases :
    (env : Env) (id : NodeId) (rf : Raft)
    → ((remove_node env id rf).0 ≡ rf)
      ⊎ ((remove_node env id rf).0
          ≡ reconfigure env entry_remove_node (env.encode_config_remove id) rf)
unfolding remove_node
remove_node-cases env id rf = ground arith

pub catch_up_tick-cases :
    (env : Env) (id : NodeId) (rf : Raft)
    → ((catch_up_tick env id rf).0 ≡ rf)
      ⊎ ((catch_up_tick env id rf).0
          ≡ reconfigure env entry_add_voter
              (env.encode_config_add id (get_or (lookup id rf.member_addrs) ""))
              rf)
unfolding catch_up_tick
catch_up_tick-cases env id rf = ground arith

-- Any of these: the node as it was, or with one more configuration entry.
changed-Inv :
    (env : Env) (type : EntryType) (cmd : Command) (f rf : Raft) (votes : List (Term × NodeId))
    (led : Option Term)
    → (f ≡ rf) ⊎ (f ≡ reconfigure env type cmd rf)
    → TracedInv (record { node = rf; votes = votes; led = led })
    → TracedInv (record { node = f; votes = votes; led = led })
changed-Inv env type cmd f rf votes led (inl e) h = rw e h
changed-Inv env type cmd f rf votes led (inr e) h = rw e (
    Extended-Inv (reconfigure env type cmd rf) rf votes led (reconfigure-Extended env type cmd rf)
      h)

module _ (env : Env) (id : NodeId) (rf : Raft) (votes : List (Term × NodeId)) (led : Option Term)
    (h : TracedInv (record { node = rf; votes = votes; led = led })) where
  pub add_node-Inv :
      (addr : String)
      → TracedInv (record { node = (add_node env id addr rf).0; votes = votes; led = led })
  add_node-Inv addr =
      changed-Inv env entry_add_learner (env.encode_config_add id addr) (add_node env id addr rf).0
        rf votes led (add_node-cases env id addr rf) h

  pub remove_node-Inv :
      TracedInv (record { node = (remove_node env id rf).0; votes = votes; led = led })
  remove_node-Inv =
      changed-Inv env entry_remove_node (env.encode_config_remove id) (remove_node env id rf).0 rf
        votes led (remove_node-cases env id rf) h

  pub catch_up_tick-Inv :
      TracedInv (record { node = (catch_up_tick env id rf).0; votes = votes; led = led })
  catch_up_tick-Inv =
      changed-Inv env entry_add_voter
        (env.encode_config_add id (get_or (lookup id rf.member_addrs) ""))
        (catch_up_tick env id rf).0 rf votes led (catch_up_tick-cases env id rf) h

pub submit-Inv :
    (command : Command) (rf : Raft) (votes : List (Term × NodeId)) (led : Option Term)
    → TracedInv (record { node = rf; votes = votes; led = led })
    → TracedInv (record { node = (submit command rf).0; votes = votes; led = led })
submit-Inv command rf votes led h = elim (submit-cases command rf) [
  | inl e ↦ rw e h
  | inr e ↦ Extended-Inv (submit command rf).0 rf votes led e h
]

pub prepare_append-Kept :
    (peer : NodeId) (rf f : Raft) (args : Option AppendEntriesArgs)
    → prepare_append peer rf ≡ some (f, args)
    → Kept f rf
unfolding prepare_append
prepare_append-Kept peer rf f args h = ground arith

pub clear_in_flight-Kept : (peer : NodeId) (rf : Raft) → Kept (clear_in_flight peer rf) rf
unfolding clear_in_flight
clear_in_flight-Kept peer rf = ground arith
