-- ===== src/Raft/System/Quiet.antt =====
-- The turns that write no log keep the logs matched: elections, votes, AppendEntries, and a leader's own
-- entries.
use mathlib.Core.Path.{subst}
use raft_thesis.Base.{
  List, Option, [], ap, arith, length, refl, some, sym, take, take-append_left, take_all, ◌++◌, ◌+◌,
  ◌<◌, ◌∙◌, ◌∷◌, ◌≡◌, ◌≢◌,
}
use raft_thesis.Raft.Node.{Raft}
use raft_thesis.Raft.Replication.{prepare_append}
use raft_thesis.Raft.Service.Replicates.{CutFrom}
use raft_thesis.Raft.System.{Cluster, Sent, first, further, put}
use raft_thesis.Raft.System.Invariant.{Grows, IsMember, Safe, Won, Won_mono}
use raft_thesis.Raft.System.Matching.{Matched, Rises, unwritten, written}
use raft_thesis.Raft.System.Sending.{prepare_append-CutFrom}
use raft_thesis.Raft.System.Shapes.{Shape, shape_grown, shape_kept, shape_lowered}
use raft_thesis.Raft.System.Turns.{Grows-same}
use raft_thesis.Raft.System.Writing.{History}
use raft_thesis.Raft.Types.{AppendEntriesArgs, NodeId, State, Term, candidate, follower, leader}
use raft_thesis.Raft.Voting.{Traced}
use raft_thesis.Raft.Voting.Leading.{prepare_append-Kept}

pub Rises-refl : (led : Option Term) → Rises led led
Rises-refl led u e = (u, e, omega arith)

pub follower_not : (st : State) → st ≡ follower → (st ≢ leader) × (st ≢ candidate)
follower_not st p = ((λ q. not_leader' (sym p ∙ q)), (λ q. not_candidate (sym p ∙ q)))
  where
    not_leader' : follower ≢ leader
    not_leader' e = cc

    not_candidate : follower ≢ candidate
    not_candidate e = cc

module _ (voters : List NodeId) (c : Cluster) (safe : Safe voters c) (h : History)
    (m : Matched voters c.nodes c.sent h) where
  wins :
      (j : NodeId)
      → (c.nodes j).node.state ≡ leader
      → Won voters c.nodes (c.nodes j).node.current_term j
  wins j e = safe.led j (c.nodes j).node.current_term ((safe.member j).ballots.leading e)

  -- A node acts by a shape, votes or not, and led no other term.
  pub shaped :
      (i : NodeId) (s : Traced)
      → s.led ≡ (c.nodes i).led
      → Grows c.nodes (put i s c.nodes)
      → ((j : NodeId) → IsMember voters j (put i s c.nodes j))
      → Shape (c.nodes i).node s.node
      → (h' : History) × Matched voters (put i s c.nodes) c.sent h'
  shaped i s led grows members (shape_kept st te lo) = (
    h,
    unwritten voters c.nodes i s grows (subst (Rises (c.nodes i).led) (sym led) (Rises-refl _))
        c.sent c.sent h m (rw lo (m.follows i)) (λ e. rw (te, lo) (m.lead i (sym st ∙ e)))
        (λ e. rw (te, led) (m.runs i (sym st ∙ e))) m.cut,
  )
  shaped i s led grows members (shape_lowered st lo) = (
    h,
    unwritten voters c.nodes i s grows (subst (Rises (c.nodes i).led) (sym led) (Rises-refl _))
        c.sent c.sent h m (rw lo (m.follows i)) (λ e. absurd ((follower_not s.node.state st).0 e))
        (λ e. absurd ((follower_not s.node.state st).1 e)) m.cut,
  )
  shaped i s led grows members (shape_grown e leads st te own lo) =
      let rf = (c.nodes i).node in
      let mine : s.led ≡ some s.node.current_term =
        led ∙ (safe.member i).ballots.leading leads ∙ ap some (sym te) in
      let whole : h s.node.current_term ≡ rf.log = ap h te ∙ m.lead i leads in
      (
        _,
        written voters c.nodes i s grows (subst (Rises (c.nodes i).led) (sym led) (Rises-refl _))
            c.sent c.sent h m rf.log (e ∷ []) lo (own ∙ sym te, tt)
            (ap (λ l. take (length l) (rf.log ++ e ∷ [])) whole
              ∙ take-append_left (length rf.log) rf.log (e ∷ []) (omega arith)
              ∙ take_all (length rf.log) rf.log (omega arith)
              ∙ sym whole)
            (m.follows i) (st ∙ leads) mine members
            (Won_mono voters c.nodes (put i s c.nodes) s.node.current_term i grows (
              safe.led i s.node.current_term
                ((safe.member i).ballots.leading leads ∙ ap some (sym te))))
            wins,
      )

  -- A node stands: its new term is above all that it led.
  pub stands :
      (i : NodeId) (s : Traced)
      → s.led ≡ (c.nodes i).led
      → Grows c.nodes (put i s c.nodes)
      → s.node.state ≡ candidate
      → s.node.current_term ≡ (c.nodes i).node.current_term + 1
      → s.node.log ≡ (c.nodes i).node.log
      → Matched voters (put i s c.nodes) c.sent h
  stands i s led grows st te lo =
      unwritten voters c.nodes i s grows (subst (Rises (c.nodes i).led) (sym led) (Rises-refl _))
        c.sent c.sent h m (rw lo (m.follows i)) (λ e. absurd (differ (sym st ∙ e)))
        (λ e mine.
          absurd
            (omega (arith, te, (safe.member i).ballots.ruled s.node.current_term (sym led ∙ mine))))
        m.cut
    where
      differ : candidate ≢ leader
      differ e = cc

  -- A leader sends a part of its log.
  pub sends :
      (i peer : NodeId) (f : Raft) (args : AppendEntriesArgs)
      → length (c.nodes i).node.log < 18446744073709551615
      → prepare_append peer (c.nodes i).node ≡ some (f, some args)
      → Matched voters (put i (record (c.nodes i) { node = f }) c.nodes) ((peer, args) ∷ c.sent) h
  sends i peer f args short p =
      let rf = (c.nodes i).node in
      let k = prepare_append-Kept peer rf f (some args) p in
      let s : Traced = record (c.nodes i) { node = f } in
      unwritten voters c.nodes i s (Grows-same c.nodes i s refl) (Rises-refl _) c.sent
        ((peer, args) ∷ c.sent) h m (rw (k.log) (m.follows i))
        (λ e. rw (k.term, k.log) (m.lead i (sym k.state ∙ e)))
        (λ e. rw (k.term) (m.runs i (sym k.state ∙ e)))
        (sent_more (prepare_append-CutFrom peer rf f args short p))
    where
      sent_more :
          ((c.nodes i).node.state ≡ leader)
            × (args.term ≡ (c.nodes i).node.current_term)
            × CutFrom (c.nodes i).node.log args
          → (to : NodeId) (a : AppendEntriesArgs) → Sent (to, a) ((peer, args) ∷ c.sent)
          → CutFrom (h a.term) a
      sent_more (leads, term, cut) _ _ first =
          subst (λ l. CutFrom l args) (sym (ap h term ∙ m.lead i leads)) cut
      sent_more facts to a (further s) = m.cut to a s
