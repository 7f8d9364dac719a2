-- ===== src/Raft/System/Electing.antt =====
-- The turns that receive an AppendEntries or count a vote keep the logs matched. A new leader begins the
-- history of its term.
use mathlib.Core.Path.{subst}
use raft_thesis.Base.{
  Bool-cases, List, [], ap, arith, false, inl, inr, refl, some, sym, ◌++◌, ◌<◌, ◌∙◌, ◌≡◌, ◌≢◌, ◌≤◌,
}
use raft_thesis.Raft.Election.{Election, handle_vote_reply}
use raft_thesis.Raft.Election.Leadership.{candidate_of, count_vote-inv, handle_vote_reply-inv}
use raft_thesis.Raft.Node.{Raft}
use raft_thesis.Raft.Service.{append_entries}
use raft_thesis.Raft.Service.Votes.{become_follower-inv}
use raft_thesis.Raft.System.{Cluster, Sent, put}
use raft_thesis.Raft.System.Copies.{Role, append_entries-Follows}
use raft_thesis.Raft.System.Founded.{AllOf, become_leader-added}
use raft_thesis.Raft.System.Invariant.{Grows, IsElection, IsMember, Safe, Won, Won_mono, Won_unique}
use raft_thesis.Raft.System.Matching.{Matched, Rises, unwritten, written}
use raft_thesis.Raft.System.Quiet.{Rises-refl, follower_not}
use raft_thesis.Raft.System.Turns.{Grows-same}
use raft_thesis.Raft.System.Writing.{Follows, History}
use raft_thesis.Raft.Transitions.{become_leader}
use raft_thesis.Raft.Transitions.Office.{become_leader-ballot}
use raft_thesis.Raft.Types.{
  Action, AppendEntriesArgs, AppendEntriesReply, Env, NodeId, RequestVoteReply, State, Term,
  candidate, follower, is_leader, leader,
}
use raft_thesis.Raft.Voting.{Traced, led_after}
use raft_thesis.Raft.Voting.Replies.{not_leader_of}

module _ (voters : List NodeId) (c : Cluster) (safe : Safe voters c) (h : History)
    (m : Matched voters c.nodes c.sent h) where
  -- A receiver does not lead the term of the message.
  pub receives :
      (v : NodeId) (env : Env) (args : AppendEntriesArgs) (f : Raft) (reply : AppendEntriesReply)
      (acts : List Action)
      → Sent (v, args) c.sent
      → append_entries env args (c.nodes v).node ≡ some (f, reply, acts)
      → Matched voters (put v (record (c.nodes v) { node = f }) c.nodes) c.sent h
  receives v env args f reply acts s p =
      let rf = (c.nodes v).node in
      let u : Traced = record (c.nodes v) { node = f } in
      let (follows, role) =
        append_entries-Follows h env args (m.cut v args s) (m.self args.term) rf f reply acts
          (m.follows v) p in
      unwritten voters c.nodes v u (Grows-same c.nodes v u refl) (Rises-refl _) c.sent c.sent h m
        follows (leads role follows) (stands role) m.cut
    where
      other : (c.nodes v).led ≢ some args.term
      other mine =
          let k = safe.sent v args s in
          k.other (
            Won_unique voters c.nodes args.term args.leader_id v safe.member k.won
              (safe.led v args.term mine))

      leads :
          Role (c.nodes v).node f args.term
          → Follows h f.log
          → f.state ≡ leader
          → h f.current_term ≡ f.log
      leads (inl e) follows q = rw e (m.lead v (ap (λ x. x.state) (sym e) ∙ q))
      leads (inr (inl down)) follows q = absurd ((follower_not f.state down).0 q)
      leads (inr (inr (same, at, te))) follows q =
          absurd (other ((safe.member v).ballots.leading (sym same ∙ q) ∙ ap some at))

      stands :
          Role (c.nodes v).node f args.term
          → f.state ≡ candidate
          → (c.nodes v).led ≢ some f.current_term
      stands (inl e) q mine =
          m.runs v (ap (λ x. x.state) (sym e) ∙ q) (mine ∙ ap (λ (x : Raft). some x.current_term) e)
      stands (inr (inl down)) q mine = absurd ((follower_not f.state down).1 q)
      stands (inr (inr (same, at, te))) q mine = m.runs v (sym same ∙ q) (mine ∙ ap some te)

  module _ (i : NodeId) (f : Raft)
      (members : (j : NodeId)
        → IsMember voters j (
            put i
              (record (c.nodes i) { node = f; led = led_after f (c.nodes i).led })
              c.nodes
              j)) where
    abbrev counted_node : Traced
    counted_node = record (c.nodes i) { node = f; led = led_after f (c.nodes i).led }

    rises : (c.nodes i).node.current_term ≤ f.current_term → Rises (c.nodes i).led counted_node.led
    rises up u e = elim (Bool-cases (is_leader f.state)) [
      | inl yes' ↦ (f.current_term, rw yes' refl, omega (arith, (safe.member i).ballots.ruled u e))
      | inr no' ↦ (u, rw no' e, omega arith)
    ]

    grows : Grows c.nodes (put i counted_node c.nodes)
    grows = Grows-same c.nodes i counted_node refl

    unled : (st : State) → st ≡ candidate → is_leader st ≡ false
    unled follower e = refl
    unled candidate e = refl
    unled leader e = cc

    -- The count changes nothing, or the node steps down.
    steady : f ≡ (c.nodes i).node → Matched voters (put i counted_node c.nodes) c.sent h
    steady e =
        unwritten voters c.nodes i counted_node grows
          (rises (omega (arith, ap (λ (x : Raft). x.current_term) e))) c.sent c.sent h m
          (rw e (m.follows i)) (λ q. rw e (m.lead i (ap (λ x. x.state) (sym e) ∙ q)))
          (λ q mine.
            m.runs i (ap (λ x. x.state) (sym e) ∙ q)
              (rw (unled f.state q) at mine ∙ ap (λ (x : Raft). some x.current_term) e))
          m.cut

    lowered :
        f.state ≡ follower
        → (c.nodes i).node.current_term ≤ f.current_term
        → f.log ≡ (c.nodes i).node.log
        → Matched voters (put i counted_node c.nodes) c.sent h
    lowered down up lo =
        unwritten voters c.nodes i counted_node grows (rises up) c.sent c.sent h m
          (rw lo (m.follows i)) (λ q. absurd ((follower_not f.state down).0 q))
          (λ q. absurd ((follower_not f.state down).1 q)) m.cut

    -- No leader wrote in the term of a candidate that wins it.
    unwritten_term :
        (c.nodes i).node.state ≡ candidate
        → 0 < (c.nodes i).node.current_term
        → Won voters (put i counted_node c.nodes) (c.nodes i).node.current_term i
        → h (c.nodes i).node.current_term ≡ []
    unwritten_term runs positive won =
        let t = (c.nodes i).node.current_term in
        elim (m.owned t (λ e. omega (arith, e))) [
          | inl none' ↦ none'
          | inr (a, u, won', led, up) ↦
              let same =
                Won_unique voters (put i counted_node c.nodes) t a i members
                  (Won_mono voters c.nodes (put i counted_node c.nodes) t a grows won') won in
              let mine : (c.nodes i).led ≡ some u = ap (λ n. (c.nodes n).led) (sym same) ∙ led in
              let top : u ≡ t = omega (arith, (safe.member i).ballots.ruled u mine) in
              absurd (m.runs i runs (mine ∙ ap some top))
        ]

    elected :
        (env : Env)
        → f ≡ (become_leader env (c.nodes i).node).0
        → (c.nodes i).node.state ≡ candidate
        → 0 < (c.nodes i).node.current_term
        → Won voters (put i counted_node c.nodes) (c.nodes i).node.current_term i
        → (h' : History) × Matched voters (put i counted_node c.nodes) c.sent h'
    elected env e runs positive won =
        let rf = (c.nodes i).node in
        let idle = unled rf.state runs in
        let (st, te, _, _) = become_leader-ballot env rf idle in
        let (es, lo, own) = become_leader-added env rf idle in
        let leads : f.state ≡ leader = ap (λ (x : Raft). x.state) e ∙ st in
        let at : f.current_term ≡ rf.current_term = ap (λ (x : Raft). x.current_term) e ∙ te in
        let log : f.log ≡ rf.log ++ es = ap (λ (x : Raft). x.log) e ∙ lo in
        let empty' : h f.current_term ≡ [] = ap h at ∙ unwritten_term runs positive won in
        (
          _,
          written voters c.nodes i counted_node grows (rises (omega (arith, at))) c.sent c.sent h m
              rf.log es log (subst (λ t. AllOf t es) (sym at) own) (rw empty' refl) (m.follows i)
              leads (rw (ap is_leader leads) refl) members
              (subst (λ t. Won voters (put i counted_node c.nodes) t i) (sym at) won)
              (λ j q. safe.led j (c.nodes j).node.current_term ((safe.member j).ballots.leading q)),
        )

  pub counts :
      (i v : NodeId) (t : Term) (env : Env) (reply : RequestVoteReply) (before after : Election)
      (f : Raft) (acts : List Action)
      → IsElection voters c.nodes (c.calls i t) i t before
      → handle_vote_reply env (some reply) before (c.nodes i).node ≡ some (f, after, acts)
      → let s = record (c.nodes i) { node = f; led = led_after f (c.nodes i).led } in
        ((j : NodeId) → IsMember voters j (put i s c.nodes j))
        → ((u : Term) → s.led ≡ some u → Won voters (put i s c.nodes) u i)
        → (h' : History) × Matched voters (put i s c.nodes) c.sent h'
  counts i v t env reply before after f acts running p members wins =
      let rf = (c.nodes i).node in
      elim (handle_vote_reply-inv env reply before after rf f acts p) [
        | inl e ↦ (h, steady i f members e)
        | inr (inl (up, down)) ↦
            let (te, _, st, _, lo, _) = become_follower-inv env reply.term rf f down in
            (h, lowered i f members st (omega (arith, te)) lo)
        | inr (inr (cand, term, granted, e)) ↦ elim (count_vote-inv env before rf) [
          | inl same ↦ (h, steady i f members (e ∙ same))
          | inr (full, office) ↦
              let (st, te, _, _) = become_leader-ballot env rf (not_leader_of rf.state cand) in
              let leads : f.state ≡ leader = ap (λ (x : Raft). x.state) (e ∙ office) ∙ st in
              let at : f.current_term ≡ rf.current_term =
                ap (λ (x : Raft). x.current_term) (e ∙ office) ∙ te in
              elected i f members env (e ∙ office) (candidate_of rf.state cand)
                (omega (arith, term, running.term, running.positive))
                (wins rf.current_term (rw (ap is_leader leads) (ap some at)))
        ]
      ]
