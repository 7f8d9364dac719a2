-- ===== src/Raft/System/Receipt.antt =====
-- AppendEntries carries over a node's id and its log's terms, when no entry sent is newer than its term.
use raft_thesis.Base.{
  >>=-eq-some, Bool, List, Option, [], arith, false, if◌then◌else◌, inl, inr, none, refl, some,
  some_inj, true, ◌+◌, ◌>>=◌, ◌≡◌, ◌⊎◌,
}
use raft_thesis.Raft.Membership.{rebuild_volatile_peers}
use raft_thesis.Raft.Membership.Core.{rebuild_volatile_peers-core}
use raft_thesis.Raft.Node.{Raft, get_last_log_info, reset_election_timer}
use raft_thesis.Raft.Service.{
  accept_entries, answer, append_entries, catch_up_term, check_consistency, follow_commit,
  merge_entries, store_entries,
}
use raft_thesis.Raft.Service.Votes.{catch_up_term-TermStep}
use raft_thesis.Raft.System.Carry.{Carry, Carry-refl, Carry-trans, TermStep-Carry, same_log}
use raft_thesis.Raft.System.Logs.{Below, merge_entries-Below}
use raft_thesis.Raft.Types.{Action, AppendEntriesArgs, AppendEntriesReply, Env, LogEntry, u64}
use raft_thesis.Raft.Voting.Appends.{append_entries-cases}
use raft_thesis.Raft.Voting.Requests.{TermStep-term}

rebuilt-Carry :
    (env : Env) (l : List LogEntry) (c : Raft) (rebuild : Bool)
    → (Below c.current_term c.log → Below c.current_term l)
    → let stored = record c { log = l } in
      Carry c
        (if rebuild then rebuild_volatile_peers env (get_last_log_info stored).0 stored else stored)
rebuilt-Carry env l c true h =
    let stored = record c { log = l } in
    let core = rebuild_volatile_peers-core env (get_last_log_info stored).0 stored in
    record { id = core.id; below = λ b. rw (core.current_term, core.log) (h b) }
rebuilt-Carry env l c false h = record { id = refl; below = h }

store_entries-Carry :
    (env : Env) (args : AppendEntriesArgs) (c f : Raft)
    → Below c.current_term args.entries
    → store_entries env args c ≡ some f
    → Carry c f
unfolding store_entries
store_entries-Carry env args c f sound h =
    let (m, p, q) =
      >>=-eq-some
        (merge_entries (u64 (args.prev_log_index + 1)) args.entries
          (record { log = c.log; rebuild = false }))
        _ h in
    rw (← some_inj q) (
      rebuilt-Carry env m.log c m.rebuild (
        merge_entries-Below c.current_term (u64 (args.prev_log_index + 1)) args.entries
          (record { log = c.log; rebuild = false }) m p sound))

pub follow_commit_kept :
    (args : AppendEntriesArgs) (f : Raft)
    → ((follow_commit args f).0.id ≡ f.id)
      × ((follow_commit args f).0.log ≡ f.log)
      × ((follow_commit args f).0.current_term ≡ f.current_term)
unfolding follow_commit
follow_commit_kept args f = ground arith

follow_commit-Carry : (args : AppendEntriesArgs) (f : Raft) → Carry f (follow_commit args f).0
follow_commit-Carry args f =
    let (i, l, t) = follow_commit_kept args f in
    same_log f (follow_commit args f).0 i l (omega arith)

pub accept_entries-cases :
    (env : Env) (args : AppendEntriesArgs) (c f : Raft) (reply : AppendEntriesReply)
    (acts : List Action)
    → accept_entries env args c ≡ some (f, reply, acts)
    → (c ≡ f)
      ⊎ ((g : Raft) × (check_consistency args c ≡ some none)
          × (store_entries env args c ≡ some g)
          × ((follow_commit args g).0 ≡ f))
unfolding accept_entries
accept_entries-cases env args c f reply acts h =
    let (r, p, q) = >>=-eq-some (check_consistency args c) _ h in go r p q
  where
    go :
        (r : Option AppendEntriesReply)
        → check_consistency args c ≡ some r
        → ◌≡◌ {A = Option (Raft × AppendEntriesReply × List Action)}
            (elim r [
              | some reply' ↦ some (c, reply', [])
              | none ↦ store_entries env args c >>= λ stored. some (
                (follow_commit args stored).0,
                answer c.current_term true,
                (follow_commit args stored).1,
              )
            ])
            (some (f, reply, acts))
        → (c ≡ f)
          ⊎ ((g : Raft) × (check_consistency args c ≡ some none)
              × (store_entries env args c ≡ some g)
              × ((follow_commit args g).0 ≡ f))
    go (some reply') p q = inl (cc)
    go none p q = let (g, s, t) = >>=-eq-some (store_entries env args c) _ q in inr (g, p, s, cc)

accept_entries-Carry :
    (env : Env) (args : AppendEntriesArgs) (c f : Raft) (reply : AppendEntriesReply)
    (acts : List Action)
    → Below c.current_term args.entries
    → accept_entries env args c ≡ some (f, reply, acts)
    → Carry c f
accept_entries-Carry env args c f reply acts sound h =
    elim (accept_entries-cases env args c f reply acts h) [
      | inl e ↦ rw (← e) (Carry-refl c)
      | inr (g, quiet, p, q) ↦ rw (← q) (
          Carry-trans c g (follow_commit args g).0 (store_entries-Carry env args c g sound p)
            (follow_commit-Carry args g))
    ]

reset_election_timer_kept :
    (env : Env) (rf t : Raft)
    → reset_election_timer env rf ≡ some t
    → (t.id ≡ rf.id) × (t.log ≡ rf.log) × (t.current_term ≡ rf.current_term)
unfolding reset_election_timer
reset_election_timer_kept env rf t h = ground arith

pub append_entries-Carry :
    (env : Env) (args : AppendEntriesArgs) (rf f : Raft) (reply : AppendEntriesReply)
    (acts : List Action)
    → Below args.term args.entries
    → append_entries env args rf ≡ some (f, reply, acts)
    → Carry rf f
append_entries-Carry env args rf f reply acts sound p =
    elim (append_entries-cases env args rf f reply acts p) [
      | inl e ↦ rw e (Carry-refl rf)
      | inr (low, q) ↦
          let (t, reset, q') = >>=-eq-some (reset_election_timer env rf) _ q in
          let (c, up, q'') = >>=-eq-some (catch_up_term env args.term t) _ q' in
          let (i, l, te) = reset_election_timer_kept env rf t reset in
          let step = catch_up_term-TermStep env args.term t c up in
          let now' = TermStep-term args.term t c (rw te low) step in
          let k = record c { hint_leader_id = args.leader_id } in
          Carry-trans rf t f (same_log rf t i l (omega arith)) (
            Carry-trans t c f (TermStep-Carry args.term t c step)
              (Carry-after (accept_entries-Carry env args k f reply acts (rw now' sound) q'')))
    ]
  where
    Carry-after : {c : Raft} → Carry (record c { hint_leader_id = args.leader_id }) f → Carry c f
    Carry-after k = record { id = k.id; below = k.below }
