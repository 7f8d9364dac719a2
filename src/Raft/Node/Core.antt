-- ===== src/Raft/Node/Core.antt =====
-- The part of a node that membership changes and progress records leave alone, and what is always true
-- of it.
use raft_thesis.Base.{arith, length, pos, pos_part, some, ℕ, ◌+ℤ◌, ◌-ℤ◌, ◌<ℤ◌, ◌<◌, ◌∙◌, ◌≡◌, ◌≤◌}
use raft_thesis.Raft.Node.{Raft, get_random_duration, reset_election_timer}
use raft_thesis.Raft.Types.{Duration, Env, u64}

pub record SameCore (a b : Raft) : Type 0 where
  pub id : a.id ≡ b.id
  pub bootstrap_cluster : a.bootstrap_cluster ≡ b.bootstrap_cluster
  pub cfg : a.cfg ≡ b.cfg
  pub current_term : a.current_term ≡ b.current_term
  pub voted_for : a.voted_for ≡ b.voted_for
  pub log : a.log ≡ b.log
  pub commit_index : a.commit_index ≡ b.commit_index
  pub last_applied : a.last_applied ≡ b.last_applied
  pub state : a.state ≡ b.state
  pub hint_leader_id : a.hint_leader_id ≡ b.hint_leader_id
  pub apply_futures : a.apply_futures ≡ b.apply_futures

pub SameCore-refl : (a : Raft) → SameCore a a
SameCore-refl a = ground arith

pub SameCore-trans : (a b c : Raft) → SameCore a b → SameCore b c → SameCore a c
SameCore-trans a b c p q = record {
  id = p.id ∙ q.id;
  bootstrap_cluster = p.bootstrap_cluster ∙ q.bootstrap_cluster;
  cfg = p.cfg ∙ q.cfg;
  current_term = p.current_term ∙ q.current_term;
  voted_for = p.voted_for ∙ q.voted_for;
  log = p.log ∙ q.log;
  commit_index = p.commit_index ∙ q.commit_index;
  last_applied = p.last_applied ∙ q.last_applied;
  state = p.state ∙ q.state;
  hint_leader_id = p.hint_leader_id ∙ q.hint_leader_id;
  apply_futures = p.apply_futures ∙ q.apply_futures;
}

-- The indexes point into the log, in order, and the election timeout can be drawn.
pub record IsSound (rf : Raft) : Type 0 where
  pub committed : rf.commit_index < length rf.log
  pub applied : rf.last_applied ≤ rf.commit_index
  pub timeouts : rf.cfg.min_election_timeout <ℤ rf.cfg.max_election_timeout

-- Under a sound configuration the timer resets, and nothing else changes.
pub reset_election_timer_lem :
    (env : Env) (rf : Raft)
    → rf.cfg.min_election_timeout <ℤ rf.cfg.max_election_timeout
    → (d : Duration) × (reset_election_timer env rf
        ≡ some (record rf { last_activity = env.now; election_timeout = d }))
unfolding reset_election_timer get_random_duration
reset_election_timer_lem env rf h = (
  pos (env.int64_n (pos_part (rf.cfg.max_election_timeout -ℤ rf.cfg.min_election_timeout)))
      +ℤ rf.cfg.min_election_timeout,
  ground arith,
)

pub u64_small : (n : ℕ) → n < 18446744073709551616 → u64 n ≡ n
u64_small n h = omega arith
