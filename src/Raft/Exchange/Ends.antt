-- ===== src/Raft/Exchange/Ends.antt =====
-- Replication to a follower ends: each refusal moves the next index back, and at an index that both logs
-- have the follower accepts.
use raft_thesis.Base.{
  int_eq, =?_refl, Bool, Option, [], arith, false, inl, inr, insert, length, lookup-insert, none,
  refl, some, suc, take, true, zero, ℕ, ◌-◌, ◌<◌, ◌∙◌, ◌≡◌, ◌≤◌, ◌⊎◌,
}
use raft_thesis.Raft.Exchange.{replicate_to, send_append_entries_to}
use raft_thesis.Raft.Exchange.Accepted.{accepted_round, exchanged}
use raft_thesis.Raft.Exchange.Rounds.{
  Caught, IsReady, caught, flying, prepare_append-ready, refused_round, request_of,
}
use raft_thesis.Raft.Node.{Raft, term_at}
use raft_thesis.Raft.Replication.{clear_in_flight, prepare_append}
use raft_thesis.Raft.Service.{accept_entries, append_entries, check_consistency}
use raft_thesis.Raft.Service.Conflict.{Consistency, check_consistency-Consistency}
use raft_thesis.Raft.Types.{AppendEntriesArgs, AppendEntriesReply, Env, LogIndex, NodeId, Term}

-- After a refused round the two nodes are ready for the next one, from an earlier index.
send_append_entries_to-IsReady :
    (env env' : Env) (peer : NodeId) (n m : LogIndex) (rf target led : Raft)
    → IsReady peer n rf target
    → Caught target led rf.current_term
    → 0 < m
    → m < n
    → IsReady peer m
        (clear_in_flight peer (record rf {
          append_in_flight = insert peer true rf.append_in_flight;
          next_index = insert peer m rf.next_index;
        }))
        led
unfolding clear_in_flight
send_append_entries_to-IsReady env env' peer n m rf target led h k positive earlier = record {
  leads = h.leads;
  client = h.client;
  free =
      rw (lookup-insert peer peer false (insert peer true rf.append_in_flight), =?_refl peer) refl;
  next = lookup-insert peer peer m rf.next_index ∙ rw (=?_refl peer) refl;
  positive = positive;
  within = omega (arith, h.within);
  sound = record {
    committed = h.sound.committed;
    applied = h.sound.applied;
    timeouts = h.sound.timeouts;
  };
  sound' = k.sound;
  old = omega (arith, k.term);
  small = h.small;
  small' = rw (k.log) h.small';
  aligned = rw (k.log) h.aligned;
  match = rw (k.log) h.match;
}

refuses_at :
    (env : Env) (args : AppendEntriesArgs) (led : Raft) (reply : AppendEntriesReply)
    → check_consistency args led ≡ some (some reply)
    → accept_entries env args led ≡ some (led, reply, [])
unfolding accept_entries
refuses_at env args led reply p = rw (accept_entries, p) refl

clear_in_flight-log : (peer : NodeId) (rf : Raft) → (clear_in_flight peer rf).log ≡ rf.log
unfolding clear_in_flight
clear_in_flight-log peer rf = refl

module _ (env env' : Env) (peer : NodeId) where
  -- The follower has the whole log.
  abbrev Done : Raft → Option (Raft × Raft × Bool) → Type 0
  Done rf r =
      (l : Raft) × (f : Raft) × (r ≡ some (l, f, true)) × (take (length rf.log) f.log ≡ rf.log)

  -- One round: accepted, or ready for an earlier one.
  abbrev Round : LogIndex → Raft → Raft → Type 0
  Round n rf target =
      Done rf (send_append_entries_to env env' peer rf target)
      ⊎ ((l : Raft) × (f : Raft) × (m : LogIndex) × (send_append_entries_to env env' peer rf target
            ≡ some (l, f, false))
          × (m < n)
          × IsReady peer m l f
          × (l.log ≡ rf.log))

  one_round : (n : LogIndex) (rf target : Raft) → IsReady peer n rf target → Round n rf target
  one_round n rf target h =
      let (t, at, prepared) = prepare_append-ready peer n rf target h in
      let (led, same, k) = caught env' (request_of rf n t) target h.sound' h.old in
      let (r, p, c) =
        check_consistency-Consistency (request_of rf n t) led
          (rw (k.log) (omega (arith, h.sound'.committed))) in
      go t led at prepared same k r p c
    where
      go :
          (t : Term) (led : Raft)
          → term_at rf.log (n - 1) ≡ some t
          → prepare_append peer rf
            ≡ some (flying env env' peer n rf target h, some (request_of rf n t))
          → append_entries env' (request_of rf n t) target
            ≡ accept_entries env' (request_of rf n t) led
          → Caught target led rf.current_term
          → (r : Option AppendEntriesReply) → check_consistency (request_of rf n t) led ≡ some r
          → Consistency (request_of rf n t) led r
          → Round n rf target
      go t led at prepared same k none p c =
          inl (accepted_round env env' peer n rf target h t led at prepared same k p)
      go t led at prepared same k (some reply) p c =
          let (m, positive, earlier, r) =
            refused_round env env' peer n rf target h t led reply at k c in
          let back = record rf {
            append_in_flight = insert peer true rf.append_in_flight;
            next_index = insert peer m rf.next_index;
          } in
          inr (
            clear_in_flight peer back,
            led,
            m,
            exchanged env env' peer rf _ target led back (request_of rf n t) reply false [] []
                prepared (same ∙ refuses_at env' (request_of rf n t) led reply p) r,
            earlier,
            send_append_entries_to-IsReady env env' peer n m rf target led h k positive earlier,
            clear_in_flight-log peer back,
          )

  -- Between a leader and a follower that is not ahead of its term, with sound nodes and logs that agree as
  -- Raft's logs do, let the rounds of sendAppendEntries follow each other with nothing in between. After
  -- no more rounds than the next index of the peer one is accepted, without a panic, and the follower's
  -- log then begins with the leader's whole log.
  pub replicate_to_ends :
      (rounds : ℕ) (n : LogIndex) (rf target : Raft)
      → IsReady peer n rf target
      → n ≤ rounds
      → (l : Raft) × (f : Raft) × (replicate_to rounds env env' peer rf target ≡ some (l, f, true))
        × (take (length rf.log) f.log ≡ rf.log)
  unfolding replicate_to
  replicate_to_ends zero n rf target h enough = absurd (omega (arith, h.positive))
  replicate_to_ends (suc rounds) n rf target h enough = elim (one_round n rf target h) [
    | inl (l, f, p, holds) ↦ (l, f, rw p refl, holds)
    | inr (l, f, m, p, earlier, ready, same) ↦
        let (l', f', q, holds) = replicate_to_ends rounds m l f ready (omega arith) in
        (l', f', rw p q, rw same at holds)
  ]
