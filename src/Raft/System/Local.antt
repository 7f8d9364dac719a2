-- ===== src/Raft/System/Local.antt =====
-- The turns of a node alone, and the AppendEntries calls.
use raft_thesis.Base.{
  List, [], arith, drop, get_or, inl, inr, int_eq, lookup, refl, some, sym, true, ◌∙◌, ◌∷◌, ◌≡◌,
  ◌≢◌, ◌⊎◌,
}
use raft_thesis.Raft.Node.{Raft}
use raft_thesis.Raft.Replication.{prepare_append}
use raft_thesis.Raft.Service.{append_entries}
use raft_thesis.Raft.System.{
  Alone, Cluster, Sent, first, further, on_add, on_apply, on_check, on_clear, on_leave, on_promote,
  on_remove, on_reply, on_submit, put,
}
use raft_thesis.Raft.System.Invariant.{IsSent, Safe, Won_unique}
use raft_thesis.Raft.System.Logs.{Below, Below-drop}
use raft_thesis.Raft.System.Receipt.{append_entries-Carry}
use raft_thesis.Raft.System.Solo.{Alone-Carry, prepare_append-Carry}
use raft_thesis.Raft.System.Turns.{changed_alone, stepped}
use raft_thesis.Raft.Types.{Action, AppendEntriesArgs, AppendEntriesReply, Env, NodeId, is_leader}
use raft_thesis.Raft.Voting.{
  Step, Traced, added, appended, applying, checked, cleared, left, prepared, promoted, removed,
  replied, submitted,
}
use raft_thesis.Raft.Voting.Replies.{leader_of}

Alone-Step : (s : Traced) (f : Raft) → Alone s.node f → Step s (record s { node = f })
Alone-Step s f (on_reply env peer args reply ok acts p) =
    replied env peer args reply f ok acts p refl
Alone-Step s f (on_check env p) = checked env f p refl
Alone-Step s f (on_leave env id leads p) = left env id f leads p refl
Alone-Step s f (on_submit command e) = submitted command (rw e refl)
Alone-Step s f (on_add env id addr e) = added env id addr (rw e refl)
Alone-Step s f (on_remove env id e) = removed env id (rw e refl)
Alone-Step s f (on_promote env id e) = promoted env id (rw e refl)
Alone-Step s f (on_clear peer e) = cleared peer (rw e refl)
Alone-Step s f (on_apply futures applied e) = applying futures applied (rw e refl)

prepare_append-inv :
    (peer : NodeId) (rf f : Raft) (args : AppendEntriesArgs)
    → prepare_append peer rf ≡ some (f, some args)
    → (is_leader rf.state ≡ true)
      × (args.term ≡ rf.current_term)
      × (args.leader_id ≡ rf.id)
      × ((args.entries ≡ []) ⊎ (args.entries ≡ drop (get_or (lookup peer rf.next_index) 0) rf.log))
unfolding prepare_append
prepare_append-inv peer rf f args h = ground arith

module _ (voters : List NodeId) (c : Cluster) (h : Safe voters c) where
  pub acting-Safe :
      (i : NodeId) (f : Raft)
      → Alone (c.nodes i).node f
      → f.voter_members ≡ voters
      → Safe voters (record c { nodes = put i (record (c.nodes i) { node = f }) c.nodes })
  acting-Safe i f a same = changed_alone voters c i f h (
      stepped voters i (c.nodes i) _ (h.member i) (Alone-Step (c.nodes i) f a)
        (Alone-Carry (c.nodes i).node f a) same)

  -- A receiver that led the sender's term would be the sender.
  pub receiving-Safe :
      (v : NodeId) (env : Env) (args : AppendEntriesArgs) (f : Raft) (reply : AppendEntriesReply)
      (acts : List Action)
      → Sent (v, args) c.sent
      → append_entries env args (c.nodes v).node ≡ some (f, reply, acts)
      → f.voter_members ≡ voters
      → Safe voters (record c { nodes = put v (record (c.nodes v) { node = f }) c.nodes })
  receiving-Safe v env args f reply acts s p same =
      let m = h.sent v args s in
      changed_alone voters c v f h (
        stepped voters v (c.nodes v) _ (h.member v)
          (appended env args f reply acts
            (λ mine. m.other (
              Won_unique voters c.nodes args.term args.leader_id v h.member m.won
                (h.led v args.term mine)))
            p refl)
          (append_entries-Carry env args (c.nodes v).node f reply acts m.below p) same)

  pub sending-Safe :
      (i peer : NodeId) (f : Raft) (args : AppendEntriesArgs)
      → i ≢ peer
      → prepare_append peer (c.nodes i).node ≡ some (f, some args)
      → f.voter_members ≡ voters
      → Safe voters (record c {
        nodes = put i (record (c.nodes i) { node = f }) c.nodes;
        sent = (peer, args) ∷ c.sent;
        waiting = (i, peer, args) ∷ c.waiting;
      })
  sending-Safe i peer f args other p same =
      let s = c.nodes i in
      let m = h.member i in
      let (leads, term, id, entries) = prepare_append-inv peer s.node f args p in
      let d = changed_alone voters c i f h (
        stepped voters i s _ m (prepared peer f (some args) p refl)
          (prepare_append-Carry peer s.node f (some args) p) same) in
      record {
        member = d.member;
        led = d.led;
        call = d.call;
        election = d.election;
        sent = sent_more d.sent (record {
          won = rw (term, id ∙ m.id) (d.led i s.node.current_term (led_here leads));
          other = λ e. other (sym (id ∙ m.id) ∙ e);
          below = rw term (sent_below entries m.below);
        });
      }
    where
      led_here :
          is_leader (c.nodes i).node.state ≡ true
          → (put i (record (c.nodes i) { node = f }) c.nodes i).led
            ≡ some (c.nodes i).node.current_term
      led_here leads =
          rw ((int_eq.beq_iff i i).1 refl)
            ((h.member i).ballots.leading (leader_of (c.nodes i).node.state leads))

      sent_below :
          (args.entries ≡ [])
            ⊎ (args.entries
                ≡ drop (get_or (lookup peer (c.nodes i).node.next_index) 0) (c.nodes i).node.log)
          → Below (c.nodes i).node.current_term (c.nodes i).node.log
          → Below (c.nodes i).node.current_term args.entries
      sent_below (inl e) b = rw e tt
      sent_below (inr e) b = rw e (Below-drop _ _ _ b)

      sent_more :
          {nodes : NodeId → Traced}
          → ((to : NodeId) (a : AppendEntriesArgs) → Sent (to, a) c.sent → IsSent voters nodes to a)
          → IsSent voters nodes peer args
          → (to : NodeId) (a : AppendEntriesArgs) → Sent (to, a) ((peer, args) ∷ c.sent)
          → IsSent voters nodes to a
      sent_more old new' _ _ first = new'
      sent_more old new' to a (further s) = old to a s
