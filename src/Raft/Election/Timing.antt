-- ===== src/Raft/Election/Timing.antt =====
-- The election timer: its bounds, and what it means for the next election.
use raft_thesis.Base.{
  int_eq, List, [], arith, contains, false, inl, inr, length, nat_ne, pos, pos_part, refl, some,
  sub_ℕ, suc, true, ℕ, ℤ, ◌+ℤ◌, ◌-ℤ◌, ◌<ℤ◌, ◌<◌, ◌==◌, ◌∷◌, ◌≡◌, ◌≤ℤ◌, ◌⊎◌,
}
use raft_thesis.Raft.Election.{should_start_election}
use raft_thesis.Raft.Node.{Raft, get_random_duration, is_voter, reset_election_timer}
use raft_thesis.Raft.Types.{Env, NodeId, Time, is_leader}

-- What a reset at a time means for the checks of the ticker afterwards.
pub record IsTimed (now' : Time) (rf f : Raft) : Type 0 where
  pub lower : rf.cfg.min_election_timeout ≤ℤ f.election_timeout
  pub upper : f.election_timeout <ℤ rf.cfg.max_election_timeout
  pub waits :
      (env : Env)
      → (should_start_election env f ≡ false) ⊎ (rf.cfg.min_election_timeout ≤ℤ sub_ℕ env.now now')
  pub stands :
      (env : Env)
      → (should_start_election env f ≡ true)
        ⊎ (sub_ℕ env.now now' <ℤ rf.cfg.max_election_timeout)
        ⊎ (is_leader rf.state ≡ true)
        ⊎ (is_voter rf rf.id ≡ false)

some_voter : (rf : Raft) → ((length rf.voter_members == 0) ≡ false) ⊎ (is_voter rf rf.id ≡ false)
unfolding is_voter contains
some_voter rf = go rf.voter_members
  where
    go : (vs : List NodeId) → ((length vs == 0) ≡ false) ⊎ (contains rf.id vs ≡ false)
    go [] = inr refl
    go (v ∷ vs) = inl (nat_ne (suc (length vs)) 0 (λ e. omega (arith, e)))

drawn :
    (env : Env) (rf : Raft) (d : ℤ)
    → rf.cfg.min_election_timeout ≤ℤ d
    → d <ℤ rf.cfg.max_election_timeout
    → IsTimed env.now rf (record rf { last_activity = env.now; election_timeout = d })
unfolding should_start_election is_voter
drawn env rf d low high = record {
  lower = low;
  upper = high;
  waits = λ env'. ground arith;
  stands = λ env'. ground (arith, some_voter rf);
}

-- Let the random source give a number below its argument, and the configured timeouts leave a range. A
-- reset of the election timer returns, and the timeout is at least the minimum and below the maximum.
-- After it, when the ticker starts an election the minimum has passed, and when it starts none the maximum
-- has not passed, or the node leads or is no voter.
pub reset_election_timer-IsTimed :
    (env : Env) (rf : Raft)
    → ((n : ℕ) → 0 < n → env.int64_n n < n)
    → rf.cfg.min_election_timeout <ℤ rf.cfg.max_election_timeout
    → (f : Raft) × (reset_election_timer env rf ≡ some f) × IsTimed env.now rf f
unfolding reset_election_timer get_random_duration
reset_election_timer-IsTimed env rf random range =
    let span = rf.cfg.max_election_timeout -ℤ rf.cfg.min_election_timeout in
    let below = random (pos_part span) (ground arith) in
    let d = pos (env.int64_n (pos_part span)) +ℤ rf.cfg.min_election_timeout in
    (
      record rf { last_activity = env.now; election_timeout = d },
      ground arith,
      drawn env rf d (ground arith) (ground (arith, below)),
    )
