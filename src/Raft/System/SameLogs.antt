-- ===== src/Raft/System/SameLogs.antt =====
-- Log Matching of a cluster.
use mathlib.Core.Path.{subst}
use raft_thesis.Base.{
  List, [], ap, inl, int_eq, none, refl, some, some_inj, suc, sym, take, zero, ℕ_discrete, ◌∙◌, ◌∷◌,
  ◌≡◌, ◌≢◌,
}
use raft_thesis.Raft.Election.Leadership.{become_candidate-inv}
use raft_thesis.Raft.Node.{term_at}
use raft_thesis.Raft.Service.Merging.{LogMatching}
use raft_thesis.Raft.System.{
  Cluster, IsNew, Reached, Turn, acting, begun, counting, encoding, receiving, sending, standing,
  turned, voting,
}
use raft_thesis.Raft.System.Calls.{voted_grown, voted_node, voting-Safe}
use raft_thesis.Raft.System.Copies.{Follows-LogMatching}
use raft_thesis.Raft.System.Counting.{counting-Safe, earlier}
use raft_thesis.Raft.System.Electing.{counts, receives}
use raft_thesis.Raft.System.Invariant.{Safe}
use raft_thesis.Raft.System.Local.{acting-Safe}
use raft_thesis.Raft.System.Matching.{Matched}
use raft_thesis.Raft.System.Quiet.{sends, shaped, stands}
use raft_thesis.Raft.System.Safety.{Reached-Safe}
use raft_thesis.Raft.System.Shapes.{Alone-Shape, request_vote-Shape}
use raft_thesis.Raft.System.Standing.{newer, stood_grown}
use raft_thesis.Raft.System.Turns.{Grows-same}
use raft_thesis.Raft.System.Wire.{Linked, Reached-Linked, unsent}
use raft_thesis.Raft.System.Writing.{Follows, History, write, write-at, write-other}
use raft_thesis.Raft.Types.{LogEntry, NodeId, Term, entry_normal}
use raft_thesis.Raft.Voting.{Traced}
use raft_thesis.Raft.Voting.Replies.{start_election-inv}

-- Before the first turn every log is the sentinel, of term 0.
abbrev begun_log : List LogEntry
begun_log = record { type = entry_normal; term = 0; command = none } ∷ []

abbrev begun_history : History
begun_history = write 0 begun_log (λ t. [])

begun_log-Follows : Follows begun_history begun_log
unfolding term_at
begun_log-Follows zero t at =
    let same : 0 ≡ t = some_inj at in
    ap (take 1) (sym (ap begun_history (sym same) ∙ write-at (λ u. []) 0 begun_log))
begun_log-Follows (suc k) t at = cc

begun_self : (t : Term) → Follows begun_history (begun_history t)
unfolding term_at
begun_self t = elim (ℕ_discrete t 0) [
  | yes same ↦
      subst (Follows begun_history) (sym (ap begun_history same ∙ write-at (λ u. []) 0 begun_log))
        begun_log-Follows
  | no other ↦
      subst (Follows begun_history) (sym (write-other (λ u. []) 0 t begun_log other)) (λ k u at. cc)
]

begun-Matched :
    (voters : List NodeId) (nodes : NodeId → Traced)
    → ((i : NodeId) → IsNew voters i (nodes i))
    → Matched voters nodes [] begun_history
begun-Matched voters nodes new' = record {
  follows = λ i. subst (Follows begun_history) (sym (new' i).sentinel) begun_log-Follows;
  self = begun_self;
  lead = λ i e. absurd ((new' i).quiet e);
  owned = λ t nz. inl (write-other (λ u. []) 0 t begun_log nz);
  runs = λ i e mine. unled i (new' i) mine;
  cut = λ to args s. absurd (unsent s refl);
}
  where
    unled :
        (i : NodeId) → IsNew voters i (nodes i) → (nodes i).led ≢ some (nodes i).node.current_term
    unled i s e = let none' : (nodes i).led ≡ none = ap (λ x. x.led) s.unvoted in cc

abbrev Follow : List NodeId → Cluster → Type 0
Follow voters c = (h : History) × Matched voters c.nodes c.sent h

Turn-Matched :
    (voters : List NodeId) (c d : Cluster)
    → Turn voters c d
    → Linked c
    → Safe voters c
    → Follow voters c
    → Follow voters d
Turn-Matched voters c d (standing i env f election acts someone small idle p same e) l safe (h, m) =
    let s : Traced = record (c.nodes i) {
      node = f;
      votes = (f.current_term, f.id) ∷ (c.nodes i).votes;
    } in
    let (up, id, l) = newer voters c safe i env f election acts someone small idle p same in
    let (st, _, _, _, _, _) =
      become_candidate-inv env (c.nodes i).node f
        (start_election-inv env (c.nodes i).node f election acts p) in
    rw e (
      h,
      stands voters c safe h m i s refl
          (stood_grown voters c safe i env f election acts someone small idle p same) st up l,
    )
Turn-Matched voters c d (voting i v t env args f reply call p same e) l safe (h, m) =
    let after = voting-Safe voters c safe i v t env args f reply call p same in
    rw e (
      shaped voters c safe h m v (voted_node voters c safe i v t env args f reply call p same) refl
        (voted_grown voters c safe i v t env args f reply call p same) after.member
        (request_vote-Shape env args (c.nodes v).node f reply p))
Turn-Matched voters c d (counting i v t env reply before after f acts call election p same e) l safe
      (h, m) =
    let next' =
      counting-Safe voters c safe i v t env reply before after f acts call election p same in
    rw e (
      counts voters c safe h m i v t env reply before after f acts
        (earlier voters c safe i v t env reply before after f acts call election p same) p
        next'.member (λ u q. next'.led i u (rw ((int_eq.beq_iff i i).1 refl) q)))
Turn-Matched voters c d (sending i peer f args other short p same e) l safe (h, m) =
    rw e (h, sends voters c safe h m i peer f args short p)
Turn-Matched voters c d (receiving v env args f reply acts s p same e) l safe (h, m) =
    rw e (h, receives voters c safe h m v env args f reply acts (l.prepared (v, args) s) p)
Turn-Matched voters c d (encoding i peer args before after at e) l safe (h, m) = rw e (h, m)
Turn-Matched voters c d (acting i f a same e) l safe (h, m) =
    let after = acting-Safe voters c safe i f a same in
    rw e (
      shaped voters c safe h m i (record (c.nodes i) { node = f }) refl
        (Grows-same c.nodes i (record (c.nodes i) { node = f }) refl) after.member
        (Alone-Shape (c.nodes i).node f a))

Reached-Matched : (voters : List NodeId) (c : Cluster) → Reached voters c → Follow voters c
Reached-Matched voters _ (begun nodes new') = (begun_history, begun-Matched voters nodes new')
Reached-Matched voters d (turned {c} r t intact) =
    Turn-Matched voters c d t (Reached-Linked voters c r) (Reached-Safe voters c r)
      (Reached-Matched voters c r)

-- Start a cluster from new nodes and let its nodes take turns in any order, with AppendEntries calls that
-- arrive late, again or never. While the voters stay the same, the terms do not wrap, no log that is sent
-- from is longer than an index can count, a removed node still leads when its removal is applied, and no
-- entry of a request that waits to be encoded is overwritten in its sender's log: if
-- the logs of two nodes have an entry with the same index and term, then they are equal up to that index.
pub Reached-LogMatching :
    (voters : List NodeId) (c : Cluster) (i j : NodeId)
    → Reached voters c
    → LogMatching (c.nodes i).node.log (c.nodes j).node.log
Reached-LogMatching voters c i j reached =
    let (h, m) = Reached-Matched voters c reached in
    Follows-LogMatching h (c.nodes i).node.log (c.nodes j).node.log (m.follows i) (m.follows j)
