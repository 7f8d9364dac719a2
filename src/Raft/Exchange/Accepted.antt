-- ===== src/Raft/Exchange/Accepted.antt =====
-- A round that the follower accepts: it then holds the leader's log.
use raft_thesis.Base.{
  >>=-eq-some, Bool, List, ap, arith, false≢true, inl, inr, length, le→ltb_false, none, refl, some,
  sym, take, take_all, true, ◌-◌, ◌∙◌, ◌≡◌,
}
use raft_thesis.Raft.Exchange.{send_append_entries_to}
use raft_thesis.Raft.Exchange.Rounds.{Caught, IsReady, flying, request-CutFrom, request_of}
use raft_thesis.Raft.Node.{Raft, term_at}
use raft_thesis.Raft.Replication.{clear_in_flight, handle_append_reply, prepare_append}
use raft_thesis.Raft.Replication.Success.{handle_append_reply_returns}
use raft_thesis.Raft.Service.{
  accept_entries, answer, append_entries, check_consistency, store_entries,
}
use raft_thesis.Raft.Service.Replicates.{accept_entries-Replicates}
use raft_thesis.Raft.Types.{
  Action, AppendEntriesArgs, AppendEntriesReply, Env, LogIndex, NodeId, Term,
}

accept_entries_answers :
    (env : Env) (args : AppendEntriesArgs) (led f : Raft) (reply : AppendEntriesReply)
    (acts : List Action)
    → check_consistency args led ≡ some none
    → accept_entries env args led ≡ some (f, reply, acts)
    → reply ≡ answer led.current_term true
unfolding accept_entries
accept_entries_answers env args led f reply acts quiet h =
    let (stored, p, q) = >>=-eq-some (store_entries env args led) _ (rw quiet at h) in cc

pub exchanged :
    (env env' : Env) (peer : NodeId) (rf sent target f l : Raft) (args : AppendEntriesArgs)
    (reply : AppendEntriesReply) (ok : Bool) (acts acts' : List Action)
    → prepare_append peer rf ≡ some (sent, some args)
    → append_entries env' args target ≡ some (f, reply, acts)
    → handle_append_reply env peer args (some reply) sent ≡ some (l, ok, acts')
    → send_append_entries_to env env' peer rf target ≡ some (clear_in_flight peer l, f, ok)
unfolding send_append_entries_to
exchanged env env' peer rf sent target f l args reply ok acts acts' p q r =
    rw (send_append_entries_to, p, q, r) refl

module _ (env env' : Env) (peer : NodeId) (n : LogIndex) (rf target : Raft)
    (h : IsReady peer n rf target) where
  pub accepted_round :
      (t : Term) (led : Raft)
      → term_at rf.log (n - 1) ≡ some t
      → prepare_append peer rf ≡ some (flying env env' peer n rf target h, some (request_of rf n t))
      → append_entries env' (request_of rf n t) target ≡ accept_entries env' (request_of rf n t) led
      → Caught target led rf.current_term
      → check_consistency (request_of rf n t) led ≡ some none
      → (l : Raft) × (f : Raft) × (send_append_entries_to env env' peer rf target
          ≡ some (l, f, true))
        × (take (length rf.log) f.log ≡ rf.log)
  accepted_round t led at prepared same k quiet =
      let args = request_of rf n t in
      let (cut, end) = request-CutFrom n rf t h.positive h.within h.small at in
      let (f, reply, acts, p, after) =
        accept_entries-Replicates env' args led rf.log
          (rw (k.log) (omega (arith, h.sound'.committed))) cut (rw (k.log) h.match) in
      let answers = accept_entries_answers env' args led f reply acts quiet p in
      let (l, acts', r) =
        handle_append_reply_returns env peer args (flying env env' peer n rf target h) reply h.leads
          (record {
            committed = h.sound.committed;
            applied = h.sound.applied;
            timeouts = h.sound.timeouts;
          })
          (omega (arith, h.small))
          (rw (ap (λ (a : AppendEntriesReply). a.term) answers ∙ k.term)
            (le→ltb_false rf.current_term rf.current_term (omega arith)))
          (ap (λ (a : AppendEntriesReply). a.success) answers) in
      (
        clear_in_flight peer l,
        f,
        exchanged env env' peer rf _ target f l args reply true acts acts' prepared (same ∙ p) r,
        elim after.holds [
          | inl refuses ↦
              absurd (false≢true (sym refuses ∙ ap (λ (a : AppendEntriesReply). a.success) answers))
          | inr holds ↦
              ap (λ k'. take k' f.log) (sym end)
              ∙ holds
              ∙ ap (λ k'. take k' rf.log) end
              ∙ take_all (length rf.log) rf.log (omega arith)
        ],
      )
