-- ===== src/Raft/System/Copies.antt =====
-- AppendEntries against the history: a log that follows it follows it after the call.
use raft_thesis.Base.{
  >>=-eq-some, Bool, List, [], ap, arith, false, get_elem?, if◌then◌else◌, inl, inr, length,
  length-append, length-take, none, refl, some, some_inj, suc, sym, take, take_all, true, ◌+◌, ◌<◌,
  ◌∙◌, ◌∷◌, ◌≡◌, ◌≤◌, ◌⊎◌,
}
use raft_thesis.Raft.Membership.{rebuild_volatile_peers}
use raft_thesis.Raft.Membership.Core.{rebuild_volatile_peers-core}
use raft_thesis.Raft.Node.{Raft, get_last_log_info, reset_election_timer, term_at}
use raft_thesis.Raft.Node.Core.{u64_small}
use raft_thesis.Raft.Node.Log.{term_at-lt}
use raft_thesis.Raft.Service.{
  Merge, accept_entries, append_entries, catch_up_term, check_consistency, merge_entries,
  store_entries,
}
use raft_thesis.Raft.Service.Agreement.{merge_entry-agrees, merge_entry_grows}
use raft_thesis.Raft.Service.Merging.{
  LogMatching, MergeCase, Slice, entry_appended, entry_cut, entry_kept, merge_entry-cases,
}
use raft_thesis.Raft.Service.Replicates.{CutFrom}
use raft_thesis.Raft.Service.Votes.{TermStep, catch_up_term-TermStep, risen, stayed}
use raft_thesis.Raft.System.Receipt.{accept_entries-cases, follow_commit_kept}
use raft_thesis.Raft.System.Writing.{Follows, Follows-take, History}
use raft_thesis.Raft.Types.{
  Action, AppendEntriesArgs, AppendEntriesReply, Env, LogEntry, LogIndex, Term, follower, u64,
}
use raft_thesis.Raft.Voting.Appends.{
  accept_entries-ballot, append_entries-cases, reset_election_timer-inv,
}

-- Two logs that follow one history match each other.
pub Follows-LogMatching :
    (h : History) (l m : List LogEntry) → Follows h l → Follows h m → LogMatching l m
Follows-LogMatching h l m f g k t at at' = f k t at ∙ sym (g k t at')

merge_entry-Follows :
    (h : History) (i : LogIndex) (e : LogEntry) (m n : Merge) (l : List LogEntry)
    → i ≤ length m.log
    → take i m.log ≡ take i l
    → get_elem? l i ≡ some e
    → Follows h l
    → Follows h m.log
    → MergeCase i e m n
    → Follows h n.log × (take (suc i) n.log ≡ take (suc i) l)
merge_entry-Follows h i e m n l low agree at fl fm c =
    let (same, match) =
      merge_entry-agrees i e m n l low agree at (Follows-LogMatching h m.log l fm fl) c in
    (go c same, same)
  where
    prefix : length n.log ≤ suc i → take (suc i) n.log ≡ take (suc i) l → Follows h n.log
    prefix short same = rw (sym (take_all (suc i) n.log short) ∙ same) (Follows-take h (suc i) l fl)

    go : MergeCase i e m n → take (suc i) n.log ≡ take (suc i) l → Follows h n.log
    go (entry_kept p term) same = rw p fm
    go (entry_appended p end) same =
        prefix (omega (arith, ap length p, length-append m.log (e ∷ []))) same
    go (entry_cut t term other p) same =
        prefix
          (omega (arith, ap length p, length-append (take i m.log) (e ∷ []), length-take i m.log))
          same

merge_entries-Follows :
    (h : History) (i : LogIndex) (es : List LogEntry) (m n : Merge) (l : List LogEntry)
    → i ≤ length m.log
    → i + length es < 18446744073709551616
    → take i m.log ≡ take i l
    → Slice l i es
    → Follows h l
    → Follows h m.log
    → merge_entries i es m ≡ some n
    → Follows h n.log
unfolding merge_entries
merge_entries-Follows h i [] m n l low b agree s fl fm p = rw (← some_inj p) fm
merge_entries-Follows h i (e ∷ es) m n l low b agree (at, s) fl fm p =
    let (k, q, c) = merge_entry-cases i e m low in
    let (grown, _, _) = merge_entry_grows i e m k low c in
    let (fk, agree') = merge_entry-Follows h i e m k l low agree at fl fm c in
    let one : i + 1 ≡ suc i = omega arith in
    merge_entries-Follows h (i + 1) es k n l (omega arith) (omega arith) (rw one agree') s fl fk
      (rw (q, u64_small (i + 1) (omega arith)) at p)

check_consistency-matches :
    (args : AppendEntriesArgs) (rf : Raft)
    → check_consistency args rf ≡ some none
    → term_at rf.log args.prev_log_index ≡ some args.prev_log_term
unfolding check_consistency
check_consistency-matches args rf h = ground arith

rebuilt-log :
    (env : Env) (l : List LogEntry) (c : Raft) (rebuild : Bool)
    → let stored = record c { log = l } in
      (if rebuild
        then rebuild_volatile_peers env (get_last_log_info stored).0 stored
        else stored).log
      ≡ l
rebuilt-log env l c true =
    let stored = record c { log = l } in
    (rebuild_volatile_peers-core env (get_last_log_info stored).0 stored).log
rebuilt-log env l c false = refl

-- The role after AppendEntries.
abbrev pub Role : Raft → Raft → Term → Type 0
Role rf f t =
    (f ≡ rf)
    ⊎ (f.state ≡ follower)
    ⊎ ((f.state ≡ rf.state) × (rf.current_term ≡ t) × (f.current_term ≡ rf.current_term))

module _ (h : History) (env : Env) (args : AppendEntriesArgs) (cut : CutFrom (h args.term) args)
    (own : Follows h (h args.term)) where
  store_entries-Follows :
      (c f : Raft)
      → term_at c.log args.prev_log_index ≡ some args.prev_log_term
      → Follows h c.log
      → store_entries env args c ≡ some f
      → Follows h f.log
  unfolding store_entries
  store_entries-Follows c f at fc p =
      let (m, q, r) =
        >>=-eq-some
          (merge_entries (u64 (args.prev_log_index + 1)) args.entries
            (record { log = c.log; rebuild = false }))
          _ p in
      let start = u64_small (args.prev_log_index + 1) (omega (arith, cut.small)) in
      let one : suc args.prev_log_index ≡ args.prev_log_index + 1 = omega arith in
      let agree : take (args.prev_log_index + 1) c.log
          ≡ take (args.prev_log_index + 1) (h args.term) =
        rw one at (
          fc args.prev_log_index args.prev_log_term at
          ∙ sym (own args.prev_log_index args.prev_log_term cut.previous)) in
      let fm =
        merge_entries-Follows h (args.prev_log_index + 1) args.entries
          (record { log = c.log; rebuild = false }) m (h args.term)
          (omega (arith, term_at-lt c.log args.prev_log_index at)) cut.small agree cut.slice own fc
          (rw start at q) in
      rw (sym (ap (λ (x : Raft). x.log) (some_inj r)) ∙ rebuilt-log env m.log c m.rebuild) fm

  accept_entries-Follows :
      (c f : Raft) (reply : AppendEntriesReply) (acts : List Action)
      → Follows h c.log
      → accept_entries env args c ≡ some (f, reply, acts)
      → Follows h f.log
  accept_entries-Follows c f reply acts fc p =
      elim (accept_entries-cases env args c f reply acts p) [
        | inl e ↦ rw (← e) fc
        | inr (g, quiet, q, r) ↦
            let (i, l, t) = follow_commit_kept args g in
            let fg = store_entries-Follows c g (check_consistency-matches args c quiet) fc q in
            rw (← r) (rw l fg)
      ]

  -- The log after the call, and the role: a step down, or the role of a node that was in the term.
  pub append_entries-Follows :
      (rf f : Raft) (reply : AppendEntriesReply) (acts : List Action)
      → Follows h rf.log
      → append_entries env args rf ≡ some (f, reply, acts)
      → Follows h f.log × Role rf f args.term
  append_entries-Follows rf f reply acts fr p =
      elim (append_entries-cases env args rf f reply acts p) [
        | inl e ↦ (rw e fr, inl e)
        | inr (low, q) ↦
            let (t, reset, q') = >>=-eq-some (reset_election_timer env rf) _ q in
            let (c, up, q'') = >>=-eq-some (catch_up_term env args.term t) _ q' in
            let (st, te, vo, lo) = reset_election_timer-inv env rf t reset in
            let k = record c { hint_leader_id = args.leader_id } in
            let s = accept_entries-ballot env args k f reply acts q'' in
            let (fc, role) =
              caught_up t c (catch_up_term-TermStep env args.term t c up) (rw lo fr) in
            (
              accept_entries-Follows k f reply acts fc q'',
              elim role [
                | inl down ↦ inr (inl (s.state ∙ down))
                | inr (same, same', at) ↦
                    let now' : t.current_term ≡ args.term = omega (arith, at, te, low) in
                    inr (inr (s.state ∙ same ∙ st, sym te ∙ now', s.term ∙ same' ∙ te))
              ],
            )
      ]
    where
      caught_up :
          (t c : Raft)
          → TermStep args.term t c
          → Follows h t.log
          → Follows h c.log
            × ((c.state ≡ follower)
                ⊎ ((c.state ≡ t.state)
                    × (c.current_term ≡ t.current_term)
                    × (args.term ≤ t.current_term)))
      caught_up t c (stayed low e) ft =
          (rw e ft, inr (ap (λ x. x.state) e, ap (λ x. x.current_term) e, low))
      caught_up t c (risen low u v st i l m) ft = (rw l ft, inl st)
