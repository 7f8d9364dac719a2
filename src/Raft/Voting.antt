-- ===== src/Raft/Voting.antt =====
-- One vote per term. A node with the votes that it has cast, run through its critical sections in any
-- order. A vote is a granted RequestVote or the candidacy of the node itself. Stepping down in the same
-- term clears votedFor, so the invariant has to say why an old leader cannot vote again in its term.
pub mod Invariant
pub mod Requests
pub mod Appends
pub mod Replies
pub mod Leading
pub mod OneVote
pub mod Cluster
use raft_thesis.Base.{
  Bool, List, Map, Option, String, [], false, if◌then◌else◌, some, ◌+◌, ◌<◌, ◌∷◌, ◌≡◌, ◌≢◌,
}
use raft_thesis.Raft.Api.{add_node, catch_up_tick, remove_node, removed_self, submit}
use raft_thesis.Raft.Election.{Election, handle_vote_reply, start_election}
use raft_thesis.Raft.Node.{Raft}
use raft_thesis.Raft.Replication.{clear_in_flight, handle_append_reply, prepare_append}
use raft_thesis.Raft.Run.{maybe_step_down_leader}
use raft_thesis.Raft.Service.{append_entries, request_vote}
use raft_thesis.Raft.Types.{
  Action, AppendEntriesArgs, AppendEntriesReply, Command, Env, IndexFuture, LogIndex, NodeId,
  RequestVoteArgs, RequestVoteReply, Term, is_leader, leader, no_node,
}

-- The node, the votes it cast (term and candidate), and the last term that it led.
pub record Traced : Type 0 where
  pub node : Raft
  pub votes : List (Term × NodeId)
  pub led : Option Term

abbrev pub cast : Bool → Term × NodeId → List (Term × NodeId) → List (Term × NodeId)
cast granted v votes = if granted then v ∷ votes else votes

-- The last term led, once the node is `f`.
abbrev pub led_after : Raft → Option Term → Option Term
led_after f led = if is_leader f.state then some f.current_term else led

-- A request of a candidate: its term is newer than its log, and it is a node.
pub record IsCandidacy (args : RequestVoteArgs) : Type 0 where
  pub newer : args.last_log_term < args.term
  pub someone : args.candidate_id ≢ no_node

-- The critical sections. What is assumed of the other nodes stands in them: requests for votes come from
-- candidates, and no other node leads a term that this node led. The node's term does not wrap. The end
-- of a self-removal finds the node still leading. The applier and its waiters write what they apply and
-- the futures, and nothing else.
pub data Step (s u : Traced) : Type 0 where
  requested :
      (env : Env) (args : RequestVoteArgs) (f : Raft) (reply : RequestVoteReply)
      → IsCandidacy args
      → request_vote env args s.node ≡ some (f, reply)
      → u ≡ record {
        node = f;
        votes = cast reply.vote_granted (reply.term, args.candidate_id) s.votes;
        led = s.led;
      }
      → Step s u
  appended :
      (env : Env) (args : AppendEntriesArgs) (f : Raft) (reply : AppendEntriesReply)
      (acts : List Action)
      → s.led ≢ some args.term
      → append_entries env args s.node ≡ some (f, reply, acts)
      → u ≡ record { node = f; votes = s.votes; led = s.led }
      → Step s u
  stood :
      (env : Env) (f : Raft) (election : Election) (acts : List Action)
      → s.node.id ≢ no_node
      → s.node.current_term + 1 < 18446744073709551616
      → is_leader s.node.state ≡ false
      → start_election env s.node ≡ some (f, election, acts)
      → u ≡ record { node = f; votes = (f.current_term, f.id) ∷ s.votes; led = s.led }
      → Step s u
  counted :
      (env : Env) (reply : RequestVoteReply) (before after : Election) (f : Raft)
      (acts : List Action)
      → handle_vote_reply env (some reply) before s.node ≡ some (f, after, acts)
      → u ≡ record { node = f; votes = s.votes; led = led_after f s.led }
      → Step s u
  replied :
      (env : Env) (peer : NodeId) (args : AppendEntriesArgs) (reply : AppendEntriesReply) (f : Raft)
      (ok : Bool) (acts : List Action)
      → handle_append_reply env peer args (some reply) s.node ≡ some (f, ok, acts)
      → u ≡ record { node = f; votes = s.votes; led = s.led }
      → Step s u
  checked :
      (env : Env) (f : Raft)
      → maybe_step_down_leader env s.node ≡ some f
      → u ≡ record { node = f; votes = s.votes; led = s.led }
      → Step s u
  left :
      (env : Env) (id : NodeId) (f : Raft)
      → s.node.state ≡ leader
      → removed_self env id s.node ≡ some f
      → u ≡ record { node = f; votes = s.votes; led = s.led }
      → Step s u
  submitted :
      (command : Command)
      → u ≡ record { node = (submit command s.node).0; votes = s.votes; led = s.led }
      → Step s u
  added :
      (env : Env) (id : NodeId) (addr : String)
      → u ≡ record { node = (add_node env id addr s.node).0; votes = s.votes; led = s.led }
      → Step s u
  removed :
      (env : Env) (id : NodeId)
      → u ≡ record { node = (remove_node env id s.node).0; votes = s.votes; led = s.led }
      → Step s u
  promoted :
      (env : Env) (id : NodeId)
      → u ≡ record { node = (catch_up_tick env id s.node).0; votes = s.votes; led = s.led }
      → Step s u
  prepared :
      (peer : NodeId) (f : Raft) (args : Option AppendEntriesArgs)
      → prepare_append peer s.node ≡ some (f, args)
      → u ≡ record { node = f; votes = s.votes; led = s.led }
      → Step s u
  cleared :
      (peer : NodeId)
      → u ≡ record { node = clear_in_flight peer s.node; votes = s.votes; led = s.led }
      → Step s u
  applying :
      (futures : Map LogIndex IndexFuture) (applied : LogIndex)
      → u ≡ record {
        node = record s.node { last_applied = applied; apply_futures = futures };
        votes = s.votes;
        led = s.led;
      }
      → Step s u

pub data Steps (s : Traced) : Traced → Type 0 where
  start : Steps s s
  next : {t u : Traced} → Steps s t → Step t u → Steps s u

-- Every vote of the list satisfies a predicate.
abbrev pub All : (Term × NodeId → Type 0) → List (Term × NodeId) → Type 0
All P [] = Unit {0}
All P (v ∷ vs) = P v × All P vs

-- No two votes of one term go to different candidates.
abbrev pub OnePerTerm : List (Term × NodeId) → Type 0
OnePerTerm [] = Unit {0}
OnePerTerm (v ∷ vs) = All (λ w. w.0 ≡ v.0 → w.1 ≡ v.1) vs × OnePerTerm vs
