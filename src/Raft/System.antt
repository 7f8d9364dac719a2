-- ===== src/Raft/System.antt =====
-- A cluster: the nodes of raft-consensus/internal/raft with the calls between them. A vote call is known
-- by its candidate, its term and its peer, since a node stands once in a term; it is asked, returned and
-- then used or lost. An AppendEntries call is prepared under the lock (`sent` has all that were), waits
-- without the lock, and is encoded (`wire`); what was encoded may arrive late, again or never, and the
-- replies that reach a leader are any. The entries of a waiting call share the sender's log.
pub mod Wire
pub mod Encoding
pub mod Logs
pub mod Carry
pub mod Solo
pub mod Receipt
pub mod Invariant
pub mod Turns
pub mod Local
pub mod Standing
pub mod Calls
pub mod Counting
pub mod Safety
pub mod Writing
pub mod Shapes
pub mod Copies
pub mod Founded
pub mod Matching
pub mod Sending
pub mod Quiet
pub mod Electing
pub mod SameLogs
use raft_thesis.Base.{
  int_eq, Bool, List, Map, Option, String, [], false, if◌then◌else◌, length, none, some, ◌++◌, ◌+◌,
  ◌<◌, ◌==◌, ◌=?◌, ◌∷◌, ◌≡◌, ◌≢◌,
}
use raft_thesis.Raft.Api.{add_node, catch_up_tick, remove_node, removed_self, submit}
use raft_thesis.Raft.Election.{Election, handle_vote_reply, start_election}
use raft_thesis.Raft.Node.{Raft}
use raft_thesis.Raft.Replication.{
  clear_in_flight, encode_append, handle_append_reply, prepare_append,
}
use raft_thesis.Raft.Run.{maybe_step_down_leader}
use raft_thesis.Raft.Service.{append_entries, request_vote}
use raft_thesis.Raft.Types.{
  Action, AppendEntriesArgs, AppendEntriesReply, Command, Env, IndexFuture, LogIndex, NodeId,
  RequestVoteArgs, RequestVoteReply, Term, entry_normal, is_leader, leader, no_node,
  send_request_vote,
}
use raft_thesis.Raft.Voting.{Traced, cast, led_after}
use raft_thesis.Raft.Voting.OneVote.{fresh}

-- One goroutine of an election; `used` says whether its reply granted a vote.
pub data VoteCall : Type 0 where
  unasked : VoteCall
  asked : RequestVoteArgs → VoteCall
  returned : RequestVoteReply → VoteCall
  used : Bool → VoteCall

pub record Cluster : Type 0 where
  pub nodes : NodeId → Traced
  pub elections : NodeId → Term → Option Election
  pub calls : NodeId → Term → NodeId → VoteCall
  pub sent : List (NodeId × AppendEntriesArgs)
  pub waiting : List (NodeId × NodeId × AppendEntriesArgs)
  pub wire : List (NodeId × AppendEntriesArgs)

abbrev pub put {ℓ} : {A : Type ℓ} → NodeId → A → (NodeId → A) → NodeId → A
put i x f j = if j =? i then x else f j

abbrev pub put_at {ℓ} : {A : Type ℓ} → NodeId → Term → A → (NodeId → Term → A) → NodeId → Term → A
put_at i t x f j u = if j =? i then (if u == t then x else f j u) else f j u

-- The calls that an election starts.
unfoldable pub place : List Action → NodeId → VoteCall
place [] v = unasked
place (send_request_vote w args ∷ acts) v = if v =? w then asked args else place acts v
place (_ ∷ acts) v = place acts v

abbrev pub set_call :
    NodeId → Term → NodeId → VoteCall → Cluster → NodeId → Term → NodeId → VoteCall
set_call i t v call c = put_at i t (put v call (c.calls i t)) c.calls

-- What a node does alone, or on a reply to an AppendEntries, whatever the reply. The applier and its
-- waiters write what they apply and the futures, and nothing else.
pub data Alone (rf f : Raft) : Type 0 where
  on_reply :
      (env : Env) (peer : NodeId) (args : AppendEntriesArgs) (reply : AppendEntriesReply)
      (ok : Bool) (acts : List Action)
      → handle_append_reply env peer args (some reply) rf ≡ some (f, ok, acts)
      → Alone rf f
  on_check : (env : Env) → maybe_step_down_leader env rf ≡ some f → Alone rf f
  on_leave :
      (env : Env) (id : NodeId) → rf.state ≡ leader → removed_self env id rf ≡ some f → Alone rf f
  on_submit : (command : Command) → f ≡ (submit command rf).0 → Alone rf f
  on_add : (env : Env) (id : NodeId) (addr : String) → f ≡ (add_node env id addr rf).0 → Alone rf f
  on_remove : (env : Env) (id : NodeId) → f ≡ (remove_node env id rf).0 → Alone rf f
  on_promote : (env : Env) (id : NodeId) → f ≡ (catch_up_tick env id rf).0 → Alone rf f
  on_clear : (peer : NodeId) → f ≡ clear_in_flight peer rf → Alone rf f
  on_apply :
      (futures : Map LogIndex IndexFuture) (applied : LogIndex)
      → f ≡ record rf { last_applied = applied; apply_futures = futures }
      → Alone rf f

pub data Sent {A : Type 0} (m : A) : List A → Type 0 where
  first : {ms : List A} → Sent m (m ∷ ms)
  further : {n : A} {ms : List A} → Sent m ms → Sent m (n ∷ ms)

-- One critical section of one node of a cluster with the voters `voters`, which it leaves the voters. A
-- log that is sent from is no longer than an index can count.
pub data Turn (voters : List NodeId) (c d : Cluster) : Type 0 where
  standing :
      (i : NodeId) (env : Env) (f : Raft) (election : Election) (acts : List Action)
      → i ≢ no_node
      → (c.nodes i).node.current_term + 1 < 18446744073709551616
      → is_leader (c.nodes i).node.state ≡ false
      → start_election env (c.nodes i).node ≡ some (f, election, acts)
      → f.voter_members ≡ voters
      → d ≡ record c {
        nodes =
            put i
              (record (c.nodes i) { node = f; votes = (f.current_term, f.id) ∷ (c.nodes i).votes })
              c.nodes;
        elections = put_at i f.current_term (some election) c.elections;
        calls = put_at i f.current_term (place acts) c.calls;
      }
      → Turn voters c d
  voting :
      (i v : NodeId) (t : Term) (env : Env) (args : RequestVoteArgs) (f : Raft)
      (reply : RequestVoteReply)
      → c.calls i t v ≡ asked args
      → request_vote env args (c.nodes v).node ≡ some (f, reply)
      → f.voter_members ≡ voters
      → d ≡ record c {
        nodes =
            put v
              (record (c.nodes v) {
                node = f;
                votes = cast reply.vote_granted (reply.term, args.candidate_id) (c.nodes v).votes;
              })
              c.nodes;
        calls = set_call i t v (returned reply) c;
      }
      → Turn voters c d
  counting :
      (i v : NodeId) (t : Term) (env : Env) (reply : RequestVoteReply) (before after : Election)
      (f : Raft) (acts : List Action)
      → c.calls i t v ≡ returned reply
      → c.elections i t ≡ some before
      → handle_vote_reply env (some reply) before (c.nodes i).node ≡ some (f, after, acts)
      → f.voter_members ≡ voters
      → d ≡ record c {
        nodes = put i (record (c.nodes i) { node = f; led = led_after f (c.nodes i).led }) c.nodes;
        elections = put_at i t (some after) c.elections;
        calls = set_call i t v (used reply.vote_granted) c;
      }
      → Turn voters c d
  sending :
      (i peer : NodeId) (f : Raft) (args : AppendEntriesArgs)
      → i ≢ peer
      → length (c.nodes i).node.log < 18446744073709551615
      → prepare_append peer (c.nodes i).node ≡ some (f, some args)
      → f.voter_members ≡ voters
      → d ≡ record c {
        nodes = put i (record (c.nodes i) { node = f }) c.nodes;
        sent = (peer, args) ∷ c.sent;
        waiting = (i, peer, args) ∷ c.waiting;
      }
      → Turn voters c d
  encoding :
      (i peer : NodeId) (args : AppendEntriesArgs)
      (before after : List (NodeId × NodeId × AppendEntriesArgs))
      → c.waiting ≡ before ++ (i, peer, args) ∷ after
      → d ≡ record c {
        waiting = before ++ after;
        wire = (peer, encode_append (c.nodes i).node.log args) ∷ c.wire;
      }
      → Turn voters c d
  receiving :
      (v : NodeId) (env : Env) (args : AppendEntriesArgs) (f : Raft) (reply : AppendEntriesReply)
      (acts : List Action)
      → Sent (v, args) c.wire
      → append_entries env args (c.nodes v).node ≡ some (f, reply, acts)
      → f.voter_members ≡ voters
      → d ≡ record c { nodes = put v (record (c.nodes v) { node = f }) c.nodes }
      → Turn voters c d
  acting :
      (i : NodeId) (f : Raft)
      → Alone (c.nodes i).node f
      → f.voter_members ≡ voters
      → d ≡ record c { nodes = put i (record (c.nodes i) { node = f }) c.nodes }
      → Turn voters c d

-- A node before its first critical section.
pub record IsNew (voters : List NodeId) (i : NodeId) (s : Traced) : Type 0 where
  pub id : s.node.id ≡ i
  pub members : s.node.voter_members ≡ voters
  pub quiet : s.node.state ≢ leader
  pub sentinel : s.node.log ≡ record { type = entry_normal; term = 0; command = none } ∷ []
  pub unvoted : s ≡ fresh s.node

-- No entry of a request that waits to be encoded was overwritten in its sender's log.
pub record Intact (c : Cluster) : Type 0 where
  pub unwritten :
      (i peer : NodeId) (args : AppendEntriesArgs)
      → Sent (i, peer, args) c.waiting
      → encode_append (c.nodes i).node.log args ≡ args

-- Any number of turns of a cluster in which every node starts new and nothing was sent, each of which
-- leaves the requests that wait to be encoded intact.
pub data Reached (voters : List NodeId) : Cluster → Type 0 where
  begun :
      (nodes : NodeId → Traced)
      → ((i : NodeId) → IsNew voters i (nodes i))
      → Reached voters (record {
        nodes = nodes;
        elections = λ i t. none;
        calls = λ i t v. unasked;
        sent = [];
        waiting = [];
        wire = [];
      })
  turned : {c d : Cluster} → Reached voters c → Turn voters c d → Intact d → Reached voters d

-- The same turns from one state of the cluster to another.
pub data Later (voters : List NodeId) (c : Cluster) : Cluster → Type 0 where
  no_later : Later voters c c
  more_turns : {d e : Cluster} → Later voters c d → Turn voters d e → Intact e → Later voters c e
