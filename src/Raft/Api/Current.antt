-- ===== src/Raft/Api/Current.antt =====
-- The addresses and voters that bootstrap and log spell out: a new node of NewRaft has them, and
-- so does a node that appends a configuration entry (raft.go, membership.go).
use raft_thesis.Base.{
  int_eq, >>=-eq-some, List, Map, String, [], arith, length, length-append, lookup, refl, some,
  take_all, ◌++◌, ◌<◌, ◌∙◌, ◌∷◌, ◌≡◌,
}
use raft_thesis.Raft.Api.{append_entry, blank_raft, new_raft, reconfigure}
use raft_thesis.Raft.Config.{Config}
use raft_thesis.Raft.Membership.{
  Roster, bootstrap_roster, rebuild_volatile_peers, replay, replay_entry, roster_at,
}
use raft_thesis.Raft.Membership.Core.{rebuild_volatile_peers-core}
use raft_thesis.Raft.Membership.InForce.{
  InForce, is_voter-InForce, rebuild_volatile_peers-InForce, replay-append, votes_in,
}
use raft_thesis.Raft.Node.{
  Raft, get_last_log_info, get_random_duration, is_voter, last_log_info, reset_election_timer,
}
use raft_thesis.Raft.Node.Core.{SameCore}
use raft_thesis.Raft.Node.Log.{last_log_info-length}
use raft_thesis.Raft.Types.{Command, EntryType, Env, LogEntry, NodeId}

-- The roster of the whole log.
unfoldable pub last_roster : Env → Raft → Roster
unfolding roster_at get_last_log_info
last_roster env rf = roster_at env rf (get_last_log_info rf).0

-- It replays every entry behind the sentinel.
last_roster-all :
    (env : Env) (rf : Raft) (e : LogEntry) (es : List LogEntry)
    → rf.log ≡ e ∷ es
    → last_roster env rf ≡ replay env es (bootstrap_roster rf.bootstrap_cluster)
unfolding last_roster roster_at get_last_log_info
last_roster-all env rf e es log =
    let last = last_log_info-length (e ∷ es) (omega arith) in
    let all = take_all (last_log_info (e ∷ es)).0 es (omega (arith, last)) in rw (log, all)

-- An entry behind the log's end is replayed last.
last_roster-append :
    (env : Env) (type : EntryType) (cmd : Command) (rf : Raft)
    → 0 < length rf.log
    → last_roster env (append_entry type cmd rf) ≡ replay_entry env type cmd (last_roster env rf)
unfolding replay
last_roster-append env type cmd rf some_entry = after rf.log refl some_entry
  where
    after :
        (log : List LogEntry)
        → rf.log ≡ log
        → 0 < length log
        → last_roster env (append_entry type cmd rf)
          ≡ replay_entry env type cmd (last_roster env rf)
    after [] same h = absurd (omega arith)
    after (e ∷ es) same h =
        let entry : LogEntry = record { type = type; term = rf.current_term; command = cmd } in
        last_roster-all env (append_entry type cmd rf) e (es ++ entry ∷ []) (rw same)
        ∙ replay-append env es (entry ∷ []) (bootstrap_roster rf.bootstrap_cluster)
        ∙ rw (last_roster-all env rf e es same)

-- The addresses and the voters of a node are those that its bootstrap and its whole log spell
-- out, in whatever order its maps hold them.
pub record IsCurrent (env : Env) (rf : Raft) : Type 0 where
  pub addrs : (j : NodeId) → lookup j rf.member_addrs ≡ lookup j (last_roster env rf).members
  pub voters : (j : NodeId) → is_voter rf j ≡ votes_in (last_roster env rf) j
  pub founded : 0 < length rf.log

pub InForce-IsCurrent :
    (env : Env) (rf : Raft) → InForce (last_roster env rf) rf → 0 < length rf.log → IsCurrent env rf
unfolding last_roster
InForce-IsCurrent env rf h founded = record {
  addrs = λ j. rw h.member_addrs refl;
  voters = λ j. is_voter-InForce (last_roster env rf) rf j h;
  founded = founded;
}

last_roster-same : (env : Env) (a b : Raft) → SameCore a b → last_roster env a ≡ last_roster env b
unfolding last_roster roster_at get_last_log_info
last_roster-same env a b same = rw (same.log, same.bootstrap_cluster)

pub reconfigure-roster :
    (env : Env) (type : EntryType) (cmd : Command) (rf : Raft)
    → 0 < length rf.log
    → last_roster env (reconfigure env type cmd rf) ≡ replay_entry env type cmd (last_roster env rf)
unfolding reconfigure
reconfigure-roster env type cmd rf some_entry =
    let appended = append_entry type cmd rf in
    last_roster-same env (reconfigure env type cmd rf) appended
      (rebuild_volatile_peers-core env (get_last_log_info appended).0 appended)
    ∙ last_roster-append env type cmd rf some_entry

InForce-same : (r s : Roster) (rf : Raft) → r ≡ s → InForce s rf → InForce r rf
InForce-same r s rf same h = rw same h

pub reconfigure-IsCurrent :
    (env : Env) (type : EntryType) (cmd : Command) (rf : Raft)
    → 0 < length rf.log
    → IsCurrent env (reconfigure env type cmd rf)
unfolding reconfigure last_roster
reconfigure-IsCurrent env type cmd rf some_entry =
    let appended = append_entry type cmd rf in
    let after = reconfigure env type cmd rf in
    let last = (get_last_log_info appended).0 in
    let core = rebuild_volatile_peers-core env last appended in
    InForce-IsCurrent env after
      (InForce-same (last_roster env after) (last_roster env appended) after
        (last_roster-same env after appended core)
        (rebuild_volatile_peers-InForce env last appended))
      (rw core.log (omega (arith, length-append rf.log _)))

reset_election_timer-IsCurrent :
    (env : Env) (a b : Raft)
    → reset_election_timer env a ≡ some b
    → IsCurrent env a
    → IsCurrent env b
unfolding reset_election_timer last_roster is_voter roster_at get_last_log_info
reset_election_timer-IsCurrent env a b reset h =
    let (timeout, drawn, same) =
      >>=-eq-some (get_random_duration env a.cfg.min_election_timeout a.cfg.max_election_timeout)
        (λ t. some (record a { last_activity = env.now; election_timeout = t })) reset in
    let timed : Raft = record a { last_activity = env.now; election_timeout = timeout } in
    let still : IsCurrent env timed = record {
      addrs = h.addrs;
      voters = h.voters;
      founded = h.founded;
    } in
    let reached : timed ≡ b = cc in rw⁻¹ reached still

-- A new node starts that way.
pub new_raft-IsCurrent :
    (env : Env) (id : NodeId) (cluster : Map NodeId String) (cfg : Config) (rf : Raft)
    → new_raft env id cluster cfg ≡ some rf
    → IsCurrent env rf
unfolding new_raft last_roster get_last_log_info last_log_info
new_raft-IsCurrent env id cluster cfg rf started =
    let blank = blank_raft id cluster cfg in
    let built = rebuild_volatile_peers env 0 blank in
    let core = rebuild_volatile_peers-core env 0 blank in
    reset_election_timer-IsCurrent env built rf started (
      InForce-IsCurrent env built
        (InForce-same (last_roster env built) (last_roster env blank) built
          (last_roster-same env built blank core) (rebuild_volatile_peers-InForce env 0 blank))
        (rw core.log (omega arith)))
