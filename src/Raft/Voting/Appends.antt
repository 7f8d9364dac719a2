-- ===== src/Raft/Voting/Appends.antt =====
-- The invariant of the votes through AppendEntries and the replies.
use raft_thesis.Base.{
  >>=-eq-some, Bool, List, Option, [], ap, arith, false, if◌then◌else◌, inl, inr, none, refl, some,
  some_inj, true, ◌+◌, ◌>>=◌, ◌∙◌, ◌≡◌, ◌≢◌, ◌≤◌, ◌⊎◌,
}
use raft_thesis.Raft.Membership.{rebuild_volatile_peers}
use raft_thesis.Raft.Membership.Core.{rebuild_volatile_peers-core}
use raft_thesis.Raft.Node.{Raft, get_last_log_info, reset_election_timer}
use raft_thesis.Raft.Node.Core.{SameCore}
use raft_thesis.Raft.Service.{
  accept_entries, answer, append_entries, catch_up_term, check_consistency, follow_commit,
  merge_entries, store_entries,
}
use raft_thesis.Raft.Service.Votes.{catch_up_term-TermStep}
use raft_thesis.Raft.Types.{
  Action, AppendEntriesArgs, AppendEntriesReply, Env, LogEntry, NodeId, Term, u64,
}
use raft_thesis.Raft.Voting.Invariant.{Inv-logged, TracedInv}
use raft_thesis.Raft.Voting.Requests.{TermStep-Inv, TermStep-term}

-- The parts of a node that the votes are about, but for the log.
pub record SameBallot (a b : Raft) : Type 0 where
  pub state : a.state ≡ b.state
  pub term : a.current_term ≡ b.current_term
  pub voted : a.voted_for ≡ b.voted_for

SameCore-ballot : (a b : Raft) → SameCore a b → SameBallot a b
SameCore-ballot a b c = record { state = c.state; term = c.current_term; voted = c.voted_for }

rebuilt-ballot :
    (env : Env) (l : List LogEntry) (c : Raft) (rebuild : Bool)
    → let stored = record c { log = l } in
      SameBallot
        (if rebuild then rebuild_volatile_peers env (get_last_log_info stored).0 stored else stored)
        c
rebuilt-ballot env l c true =
    let stored = record c { log = l } in
    let core = rebuild_volatile_peers-core env (get_last_log_info stored).0 stored in
    record { state = core.state; term = core.current_term; voted = core.voted_for }
rebuilt-ballot env l c false = record { state = refl; term = refl; voted = refl }

store_entries-ballot :
    (env : Env) (args : AppendEntriesArgs) (c f : Raft)
    → store_entries env args c ≡ some f
    → SameBallot f c
unfolding store_entries
store_entries-ballot env args c f h =
    let (m, p, q) =
      >>=-eq-some
        (merge_entries (u64 (args.prev_log_index + 1)) args.entries
          (record { log = c.log; rebuild = false }))
        _ h in
    rw (← some_inj q) (rebuilt-ballot env m.log c m.rebuild)

follow_commit-ballot : (args : AppendEntriesArgs) (f : Raft) → SameBallot (follow_commit args f).0 f
unfolding follow_commit
follow_commit-ballot args f = ground arith

pub accept_entries-ballot :
    (env : Env) (args : AppendEntriesArgs) (c f : Raft) (reply : AppendEntriesReply)
    (acts : List Action)
    → accept_entries env args c ≡ some (f, reply, acts)
    → SameBallot f c
unfolding accept_entries
accept_entries-ballot env args c f reply acts h =
    let (r, p, q) = >>=-eq-some (check_consistency args c) _ h in go r q
  where
    finish : (g : Raft) → SameBallot g c → (follow_commit args g).0 ≡ f → SameBallot f c
    finish g s e =
        let t = follow_commit-ballot args g in
        rw (← e)
          (record { state = t.state ∙ s.state; term = t.term ∙ s.term; voted = t.voted ∙ s.voted })

    go :
        (r : Option AppendEntriesReply)
        → ◌≡◌ {A = Option (Raft × AppendEntriesReply × List Action)}
            (elim r [
              | some reply' ↦ some (c, reply', [])
              | none ↦ store_entries env args c >>= λ stored. some (
                (follow_commit args stored).0,
                answer c.current_term true,
                (follow_commit args stored).1,
              )
            ])
            (some (f, reply, acts))
        → SameBallot f c
    go (some reply') q =
        let e : c ≡ f = cc in rw (← e) (record { state = refl; term = refl; voted = refl })
    go none q =
        let (g, s, t) = >>=-eq-some (store_entries env args c) _ q in
        finish g (store_entries-ballot env args c g s) (cc)

pub reset_election_timer-inv :
    (env : Env) (rf t : Raft)
    → reset_election_timer env rf ≡ some t
    → (t.state ≡ rf.state)
      × (t.current_term ≡ rf.current_term)
      × (t.voted_for ≡ rf.voted_for)
      × (t.log ≡ rf.log)
unfolding reset_election_timer
reset_election_timer-inv env rf t h = ground arith

pub append_entries-cases :
    (env : Env) (args : AppendEntriesArgs) (rf f : Raft) (reply : AppendEntriesReply)
    (acts : List Action)
    → append_entries env args rf ≡ some (f, reply, acts)
    → (f ≡ rf)
      ⊎ ((rf.current_term ≤ args.term)
          × ((reset_election_timer env rf >>= λ touched.
                catch_up_term env args.term touched >>= λ current.
                accept_entries env args (record current { hint_leader_id = args.leader_id }))
              ≡ some (f, reply, acts)))
unfolding append_entries
append_entries-cases env args rf f reply acts h = ground arith

accepted-Inv :
    (args : AppendEntriesArgs) (c f : Raft) (votes : List (Term × NodeId)) (led : Option Term)
    → led ≢ some args.term
    → c.current_term ≡ args.term
    → SameBallot f c
    → TracedInv (record { node = c; votes = votes; led = led })
    → TracedInv (record { node = f; votes = votes; led = led })
unfolding get_last_log_info
accepted-Inv args c f votes led other now' s h =
    rw (s.state, s.term, s.voted)
      (Inv-logged c.current_term c.voted_for c.state (get_last_log_info c).1 (get_last_log_info f).1
        votes led h (λ mine. absurd (other (mine ∙ ap some now'))))

pub append_entries-Inv :
    (env : Env) (args : AppendEntriesArgs) (rf f : Raft) (reply : AppendEntriesReply)
    (acts : List Action) (votes : List (Term × NodeId)) (led : Option Term)
    → led ≢ some args.term
    → append_entries env args rf ≡ some (f, reply, acts)
    → TracedInv (record { node = rf; votes = votes; led = led })
    → TracedInv (record { node = f; votes = votes; led = led })
unfolding get_last_log_info
append_entries-Inv env args rf f reply acts votes led other p h =
    elim (append_entries-cases env args rf f reply acts p) [
      | inl e ↦ rw e h
      | inr (low, q) ↦
          let (t, reset, q') = >>=-eq-some (reset_election_timer env rf) _ q in
          let (c, up, q'') = >>=-eq-some (catch_up_term env args.term t) _ q' in
          let (st, te, vo, lo) = reset_election_timer-inv env rf t reset in
          let step = catch_up_term-TermStep env args.term t c up in
          let s = accept_entries-ballot env args _ f reply acts q'' in
          accepted-Inv args c f votes led other (TermStep-term args.term t c (rw te low) step)
            (record { state = s.state; term = s.term; voted = s.voted })
            (TermStep-Inv args.term t c votes led step (rw (st, te, vo, lo) h))
    ]
