-- ===== src/Raft/Run.antt =====
-- raft-consensus/internal/raft/run.go: what the two tickers do.
use raft_thesis.Base.{List, Option, [], if◌then◌else◌, ltb, none, not, some, ◌>>=◌}
use raft_thesis.Raft.Election.{Election, should_start_election, start_election}
use raft_thesis.Raft.Node.{Raft, quorum_votes}
use raft_thesis.Raft.ReadIndex.{live_count}
use raft_thesis.Raft.Transitions.{become_follower, broadcast_append_entries}
use raft_thesis.Raft.Types.{Action, Env, is_leader}

unfoldable pub maybe_step_down_leader : Env → Raft → Option Raft
maybe_step_down_leader env rf =
    if not (is_leader rf.state)
    then some rf
    else if ltb (live_count env.now rf.cfg.leader_quorum_liveness_timeout rf) (quorum_votes rf)
    then become_follower env rf.current_term rf
    else some rf

-- The election ticker: a leader checks its quorum, another node its timer.
unfoldable pub election_tick : Env → Raft → Option (Raft × Option Election × List Action)
election_tick env rf =
    if is_leader rf.state
    then (do kept ← maybe_step_down_leader env rf; some (kept, none, []))
    else if should_start_election env rf
    then (do
      (standing, election, actions) ← start_election env rf
      some (standing, some election, actions))
    else some (rf, none, [])

unfoldable pub heartbeat_tick : Raft → List Action
heartbeat_tick rf = if is_leader rf.state then broadcast_append_entries rf else []
