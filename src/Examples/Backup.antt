-- ===== src/Examples/Backup.antt =====
-- A refusal by a follower that has an older term where the leader has a newer one.
use raft_thesis.Base.{
  int_eq, List, [], arith, false, int_beq, lookup, pos, refl, some, some_inj, suc, sym, take, true,
  zero, ℕ, ◌∙◌, ◌∷◌, ◌≡◌, ◌≢◌, ◌≤◌,
}
use raft_thesis.Examples.{entry, sample_env, sample_node, sentinel}
use raft_thesis.Raft.Exchange.{replicate_to}
use raft_thesis.Raft.Exchange.Ends.{replicate_to_ends}
use raft_thesis.Raft.Exchange.Rounds.{IsReady}
use raft_thesis.Raft.Node.{Raft, get_last_log_info, term_at}
use raft_thesis.Raft.Replication.{handle_append_reply}
use raft_thesis.Raft.Replication.Backup.{Earlier, IsAligned, handle_append_reply-Earlier}
use raft_thesis.Raft.Service.{check_consistency, conflict_start, refusal}
use raft_thesis.Raft.Types.{AppendEntriesArgs, LogEntry, LogIndex, Term, leader}

abbrev newer_log : List LogEntry
newer_log = sentinel ∷ entry 1 (7 ∷ []) ∷ entry 2 (8 ∷ []) ∷ []

abbrev older_log : List LogEntry
older_log = sentinel ∷ entry 1 (7 ∷ []) ∷ entry 1 (9 ∷ []) ∷ []

older_aligned :
    (t : Term) (i j : LogIndex)
    → term_at older_log j ≡ some t
    → term_at newer_log i ≡ some t
    → j ≤ i
    → term_at newer_log j ≡ some t
unfolding term_at
older_aligned t i zero h k low = h
older_aligned t i (suc zero) h k low = h
older_aligned t (suc (suc zero)) (suc (suc zero)) h k low = k
older_aligned t i (suc (suc (suc j))) h k low = cc
older_aligned t (suc (suc (suc i))) (suc (suc zero)) h k low = cc
older_aligned t zero (suc (suc zero)) h k low = absurd (omega arith)
older_aligned t (suc zero) (suc (suc zero)) h k low = absurd (omega arith)

older_log-IsAligned : IsAligned newer_log older_log
unfolding term_at
older_log-IsAligned = record { first = refl; first' = refl; aligned = older_aligned }

abbrev asked : AppendEntriesArgs
asked = record {
  term = 3;
  leader_id = pos 1;
  prev_log_index = 2;
  prev_log_term = 2;
  entries = [];
  leader_commit = 0;
}

handle_append_reply-Earlier_example :
    (f : Raft) × (n : LogIndex) × (handle_append_reply sample_env
        (pos 2)
        asked
        (some (refusal 2 1 1))
        (record sample_node { state = leader; current_term = 3; log = newer_log })
      ≡ some (f, false, []))
    × (lookup (pos 2) f.next_index ≡ some n)
    × Earlier asked n
unfolding term_at check_consistency conflict_start get_last_log_info
handle_append_reply-Earlier_example =
    handle_append_reply-Earlier sample_env (pos 2) asked
      (record sample_node { state = leader; current_term = 3; log = newer_log })
      (record sample_node { current_term = 2; log = older_log }) (refusal 2 1 1) refl (omega arith)
      older_log-IsAligned (omega arith) refl refl

abbrev ahead : Raft
ahead = record sample_node {
  state = leader;
  current_term = 3;
  log = newer_log;
  next_index = (pos 2, 3) ∷ (pos 3, 3) ∷ [];
}

abbrev behind_node : Raft
behind_node = record sample_node { id = pos 2; current_term = 2; log = older_log }

older_matches :
    (j : LogIndex) (t : Term)
    → term_at older_log j ≡ some t
    → term_at newer_log j ≡ some t
    → take (suc j) older_log ≡ take (suc j) newer_log
unfolding term_at
older_matches zero t h k = refl
older_matches (suc zero) t h k = refl
older_matches (suc (suc zero)) t h k = absurd (one_two (some_inj (h ∙ sym k)))
  where
    one_two : ◌≢◌ {A = ℕ} 1 2
    one_two e = omega (arith, e)
older_matches (suc (suc (suc j))) t h k = cc

ready : IsReady (pos 2) 3 ahead behind_node
unfolding lookup int_beq
ready = record {
  leads = refl;
  client = refl;
  free = refl;
  next = refl;
  positive = omega arith;
  within = omega arith;
  sound = record { committed = omega arith; applied = omega arith; timeouts = omega arith };
  sound' = record { committed = omega arith; applied = omega arith; timeouts = omega arith };
  old = omega arith;
  small = omega arith;
  small' = omega arith;
  aligned = older_log-IsAligned;
  match = older_matches;
}

replicate_to_ends_example :
    (l : Raft) × (f : Raft) × (replicate_to 3 sample_env sample_env (pos 2) ahead behind_node
      ≡ some (l, f, true))
    × (take 3 f.log ≡ newer_log)
replicate_to_ends_example =
    replicate_to_ends sample_env sample_env (pos 2) 3 3 ahead behind_node ready (omega arith)
