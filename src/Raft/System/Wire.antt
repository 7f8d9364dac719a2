-- ===== src/Raft/System/Wire.antt =====
-- What was encoded is what was prepared, as long as no log overwrites a request that waits.
use raft_thesis.Base.{List, [], ap, refl, ◌++◌, ◌∷◌, ◌≡◌, ◌≢◌}
use raft_thesis.Raft.Replication.{encode_append}
use raft_thesis.Raft.System.{
  Cluster, Intact, Reached, Sent, Turn, acting, begun, counting, encoding, first, further,
  receiving, sending, standing, turned, voting,
}
use raft_thesis.Raft.Types.{AppendEntriesArgs, NodeId}
use raft_thesis.Raft.Voting.{Traced}

pub record Linked (c : Cluster) : Type 0 where
  pub queued :
      (i to : NodeId) (args : AppendEntriesArgs)
      → Sent (i, to, args) c.waiting
      → Sent (to, args) c.sent
  pub prepared : (m : NodeId × AppendEntriesArgs) → Sent m c.wire → Sent m c.sent

module _ {A : Type 0} {m : A} where
  Sent-rest : (n : A) (ms ns : List A) → Sent m (ms ++ ns) → Sent m (ms ++ n ∷ ns)
  Sent-rest n [] ns s = further s
  Sent-rest n (x ∷ ms) ns first = first
  Sent-rest n (x ∷ ms) ns (further s) = further (Sent-rest n ms ns s)

  Sent-middle : (ms ns : List A) → Sent m (ms ++ m ∷ ns)
  Sent-middle [] ns = first
  Sent-middle (x ∷ ms) ns = further (Sent-middle ms ns)

pub unsent : {A : Type 0} {m : A} {ms : List A} → Sent m ms → ms ≢ []
unsent first e = cc
unsent (further s) e = cc

kept : (c : Cluster) (nodes : NodeId → Traced) → Linked c → Linked (record c { nodes = nodes })
kept c nodes h = record { queued = h.queued; prepared = h.prepared }

Turn-Linked :
    (voters : List NodeId) (c d : Cluster) → Turn voters c d → Intact c → Linked c → Linked d
Turn-Linked voters c d (standing i env f election acts someone small idle p same e) intact h =
    rw e (record { queued = h.queued; prepared = h.prepared })
Turn-Linked voters c d (voting i v t env args f reply call p same e) intact h =
    rw e (record { queued = h.queued; prepared = h.prepared })
Turn-Linked voters c d (counting i v t env reply b a f acts call election p same e) intact h =
    rw e (record { queued = h.queued; prepared = h.prepared })
Turn-Linked voters c d (sending i peer f args other short p same e) intact h =
    rw e (record { queued = queued; prepared = λ m s. further (h.prepared m s) })
  where
    queued :
        (j to : NodeId) (a : AppendEntriesArgs)
        → Sent (j, to, a) ((i, peer, args) ∷ c.waiting)
        → Sent (to, a) ((peer, args) ∷ c.sent)
    queued _ _ _ first = first
    queued j to a (further s) = further (h.queued j to a s)
Turn-Linked voters c d (encoding i peer args before after at e) intact h = rw e (record {
  queued = λ j to a s. h.queued j to a (rw at (Sent-rest (i, peer, args) before after s));
  prepared = prepared;
})
  where
    found : Sent (i, peer, args) c.waiting
    found = rw at (Sent-middle before after)

    encoded :
        ◌≡◌ {A = NodeId × AppendEntriesArgs}
          (peer, encode_append (c.nodes i).node.log args)
          (peer, args)
    encoded = ap (λ a. (peer, a)) (intact.unwritten i peer args found)

    prepared :
        (m : NodeId × AppendEntriesArgs)
        → Sent m ((peer, encode_append (c.nodes i).node.log args) ∷ c.wire)
        → Sent m c.sent
    prepared _ first = rw encoded (h.queued i peer args found)
    prepared m (further s) = h.prepared m s
Turn-Linked voters c d (receiving v env args f reply acts s p same e) intact h = rw e (kept c _ h)
Turn-Linked voters c d (acting i f a same e) intact h = rw e (kept c _ h)

Reached-Intact : (voters : List NodeId) (c : Cluster) → Reached voters c → Intact c
Reached-Intact voters _ (begun nodes new') = record {
  unwritten = λ i peer args s. absurd (unsent s refl);
}
Reached-Intact voters d (turned {c} r t intact) = intact

pub Reached-Linked : (voters : List NodeId) (c : Cluster) → Reached voters c → Linked c
Reached-Linked voters _ (begun nodes new') = record {
  queued = λ i to args s. absurd (unsent s refl);
  prepared = λ m s. absurd (unsent s refl);
}
Reached-Linked voters d (turned {c} r t intact) =
    Turn-Linked voters c d t (Reached-Intact voters c r) (Reached-Linked voters c r)
