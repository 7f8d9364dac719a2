-- ===== src/Raft/System/Safety.antt =====
-- Election safety of a cluster.
use mathlib.Core.Path.{subst}
use raft_thesis.Base.{List, [], ap, arith, none, refl, some, sym, ◌∙◌, ◌≡◌, ◌≢◌}
use raft_thesis.Raft.System.{
  Cluster, IsNew, Later, Reached, Turn, acting, begun, counting, encoding, more_turns, no_later,
  receiving, sending, standing, turned, unasked, voting,
}
use raft_thesis.Raft.System.Calls.{voted_grown, voting-Safe}
use raft_thesis.Raft.System.Counting.{counting-Safe}
use raft_thesis.Raft.System.Invariant.{Grows, Safe, Won_mono, Won_unique}
use raft_thesis.Raft.System.Local.{acting-Safe, receiving-Safe, sending-Safe}
use raft_thesis.Raft.System.Standing.{standing-Safe, stood_grown}
use raft_thesis.Raft.System.Turns.{Grows-same}
use raft_thesis.Raft.System.Wire.{Linked, Reached-Linked, unsent}
use raft_thesis.Raft.Types.{NodeId, Term, leader}
use raft_thesis.Raft.Voting.{Traced, led_after}
use raft_thesis.Raft.Voting.Invariant.{TracedInv}
use raft_thesis.Raft.Voting.OneVote.{fresh-Inv}

begun-Safe :
    (voters : List NodeId) (nodes : NodeId → Traced)
    → ((i : NodeId) → IsNew voters i (nodes i))
    → Safe voters (record {
      nodes = nodes;
      elections = λ i t. none;
      calls = λ i t v. unasked;
      sent = [];
      waiting = [];
      wire = [];
    })
begun-Safe voters nodes new' = record {
  member = λ i.
      let s = new' i in
      record {
        id = s.id;
        members = s.members;
        ballots = subst TracedInv (sym s.unvoted) (fresh-Inv (nodes i).node s.quiet);
        below = rw s.sentinel (omega arith, tt);
      };
  led = λ i t e. absurd (unled i t (new' i) e);
  call = λ i t v. tt;
  election = λ i t. tt;
  sent = λ to args s. absurd (unsent s refl);
}
  where
    unled : (i : NodeId) (t : Term) → IsNew voters i (nodes i) → (nodes i).led ≢ some t
    unled i t s e = let none' : (nodes i).led ≡ none = ap (λ x. x.led) s.unvoted in cc

Turn-Safe :
    (voters : List NodeId) (c d : Cluster)
    → Turn voters c d
    → Linked c
    → Safe voters c
    → Safe voters d
Turn-Safe voters c d (standing i env f election acts someone small idle p same e) l h =
    rw e (standing-Safe voters c h i env f election acts someone small idle p same)
Turn-Safe voters c d (voting i v t env args f reply call p same e) l h =
    rw e (voting-Safe voters c h i v t env args f reply call p same)
Turn-Safe voters c d (counting i v t env reply before after f acts call election p same e) l h =
    rw e (counting-Safe voters c h i v t env reply before after f acts call election p same)
Turn-Safe voters c d (sending i peer f args other short p same e) l h =
    rw e (sending-Safe voters c h i peer f args other p same)
Turn-Safe voters c d (receiving v env args f reply acts s p same e) l h =
    rw e (receiving-Safe voters c h v env args f reply acts (l.prepared (v, args) s) p same)
Turn-Safe voters c d (encoding i peer args before after at e) l h =
    rw e (record {
      member = h.member;
      led = h.led;
      call = h.call;
      election = h.election;
      sent = h.sent;
    })
Turn-Safe voters c d (acting i f a same e) l h = rw e (acting-Safe voters c h i f a same)

pub Reached-Safe : (voters : List NodeId) (c : Cluster) → Reached voters c → Safe voters c
Reached-Safe voters _ (begun nodes new') = begun-Safe voters nodes new'
Reached-Safe voters d (turned {c} r t intact) =
    Turn-Safe voters c d t (Reached-Linked voters c r) (Reached-Safe voters c r)

-- No turn takes a vote back.
Turn-Grows :
    (voters : List NodeId) (c d : Cluster) → Turn voters c d → Safe voters c → Grows c.nodes d.nodes
Turn-Grows voters c d (standing i env f election acts someone small idle p same e) h =
    rw e (stood_grown voters c h i env f election acts someone small idle p same)
Turn-Grows voters c d (voting i v t env args f reply call p same e) h =
    rw e (voted_grown voters c h i v t env args f reply call p same)
Turn-Grows voters c d (counting i v t env reply before after f acts call election p same e) h =
    rw e (
      Grows-same c.nodes i (record (c.nodes i) { node = f; led = led_after f (c.nodes i).led })
        refl)
Turn-Grows voters c d (sending i peer f args other short p same e) h =
    rw e (Grows-same c.nodes i (record (c.nodes i) { node = f }) refl)
Turn-Grows voters c d (encoding i peer args before after at e) h = rw e (λ t a v yes'. yes')
Turn-Grows voters c d (receiving v env args f reply acts s p same e) h =
    rw e (Grows-same c.nodes v (record (c.nodes v) { node = f }) refl)
Turn-Grows voters c d (acting i f a same e) h =
    rw e (Grows-same c.nodes i (record (c.nodes i) { node = f }) refl)

Later-Reached :
    (voters : List NodeId) (c d : Cluster) → Reached voters c → Later voters c d → Reached voters d
Later-Reached voters c _ reached no_later = reached
Later-Reached voters c e reached (more_turns {d} rest t intact) =
    turned (Later-Reached voters c d reached rest) t intact

Later-Grows :
    (voters : List NodeId) (c d : Cluster)
    → Reached voters c
    → Later voters c d
    → Grows c.nodes d.nodes
Later-Grows voters c _ reached no_later = λ t a v yes'. yes'
Later-Grows voters c e reached (more_turns {d} rest t intact) =
    let old = Later-Grows voters c d reached rest in
    let more =
      Turn-Grows voters d e t (Reached-Safe voters d (Later-Reached voters c d reached rest)) in
    λ t a v yes'. more t a v (old t a v yes')

-- Start a cluster from new nodes and let its nodes take turns in any order: they stand, answer vote
-- requests, count the replies, prepare and encode AppendEntries, receive what was encoded late, again or
-- never, and act on any other reply or request. While the voters stay the same, the terms do not wrap, a
-- removed node still leads when its removal is applied, no log that is sent from is longer than an index
-- can count, and no entry of a request that waits to be encoded is overwritten in its sender's log, two
-- nodes that lead in one term, at the same moment or one later than the other, are the same node.
pub Reached-OneLeader :
    (voters : List NodeId) (c d : Cluster) (i j : NodeId)
    → Reached voters c
    → Later voters c d
    → (c.nodes i).node.state ≡ leader
    → (d.nodes j).node.state ≡ leader
    → (c.nodes i).node.current_term ≡ (d.nodes j).node.current_term
    → i ≡ j
Reached-OneLeader voters c d i j reached rest a b same =
    let h = Reached-Safe voters c reached in
    let k = Reached-Safe voters d (Later-Reached voters c d reached rest) in
    let t = (d.nodes j).node.current_term in
    let won = h.led i t ((h.member i).ballots.leading a ∙ ap some same) in
    Won_unique voters d.nodes t i j k.member
      (Won_mono voters c.nodes d.nodes t i (Later-Grows voters c d reached rest) won)
      (k.led j t ((k.member j).ballots.leading b))
