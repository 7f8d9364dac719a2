-- ===== src/Raft/Membership/Progress.antt =====
-- The progress records after a rebuild: one for each other member, old ones kept, no other.
use raft_thesis.Base.{
  int_eq, Bool, List, Option, [], arith, contains, false, if◌then◌else◌, int_beq_iff, keys, lookup,
  lookup-delete, lookup-insert, none, not, refl, some, true, ◌&&◌, ◌+◌, ◌=?◌, ◌||◌, ◌∙◌, ◌∷◌, ◌≡◌,
}
use raft_thesis.Raft.Membership.{add_one, add_progress, drop_one, drop_progress, rebuild_progress}
use raft_thesis.Raft.Membership.InForce.{contains-keys, present}
use raft_thesis.Raft.Node.{Raft, get_last_log_info}
use raft_thesis.Raft.Types.{Env, LogIndex, NodeId, Time, u64}

-- What a loop leaves alone while it works on the progress records.
pub record SameMembers (a b : Raft) : Type 0 where
  pub id : a.id ≡ b.id
  pub active_members : a.active_members ≡ b.active_members

-- A progress record is dropped if its id is no member, or this node.
abbrev pub is_dropped : Raft → NodeId → Bool
is_dropped rf id = not (contains id rf.active_members) || id =? rf.id

drop_one-same : (id : NodeId) (rf : Raft) → SameMembers (drop_one id rf) rf
unfolding drop_one
drop_one-same id rf = ground arith

add_one-same :
    (now : Time) (next : LogIndex) (id : NodeId) (rf : Raft)
    → SameMembers (add_one now next id rf) rf
unfolding add_one
add_one-same now next id rf = ground arith

-- nextIndex, matchIndex and lastHeartbeatAck of a node.
abbrev pub Tracked : Type 0
Tracked = Option LogIndex × Option LogIndex × Option Time

abbrev pub tracked : NodeId → Raft → Tracked
tracked j rf = (lookup j rf.next_index, lookup j rf.match_index, lookup j rf.last_heartbeat_ack)

abbrev pub untracked : Tracked
untracked = (none, none, none)

-- An old progress record is kept; a new one starts with nothing known to match.
abbrev pub begin_tracking : Time → LogIndex → Tracked → Tracked
begin_tracking now next (some n, m, ack) = (some n, m, ack)
begin_tracking now next (none, m, ack) = (some next, some 0, some now)

-- An old progress record goes as a whole.
abbrev pub end_tracking : Tracked → Tracked
end_tracking (some n, m, ack) = untracked
end_tracking (none, m, ack) = (none, m, ack)

drop_one-tracked :
    (id j : NodeId) (rf : Raft)
    → tracked j (drop_one id rf) ≡ (if id =? j && is_dropped rf j then untracked else tracked j rf)
unfolding drop_one
drop_one-tracked id j rf = ground (
  arith,
  lookup-delete id j rf.next_index,
  lookup-delete id j rf.match_index,
  lookup-delete id j rf.last_heartbeat_ack,
  int_beq_iff id j,
)

add_one-tracked :
    (now : Time) (next : LogIndex) (id j : NodeId) (rf : Raft)
    → tracked j (add_one now next id rf) ≡ (
        if id =? j && not (j =? rf.id)
        then begin_tracking now next (tracked j rf)
        else tracked j rf)
unfolding add_one
add_one-tracked now next id j rf = ground (
  arith,
  lookup-insert id j next rf.next_index,
  lookup-insert id j 0 rf.match_index,
  lookup-insert id j now rf.last_heartbeat_ack,
  int_beq_iff id j,
)

drop_progress-same : (ids : List NodeId) (rf : Raft) → SameMembers (drop_progress ids rf) rf
unfolding drop_progress
drop_progress-same [] rf = record { id = refl; active_members = refl }
drop_progress-same (id ∷ ids) rf =
    let s = drop_progress-same ids (drop_one id rf) in
    let t = drop_one-same id rf in
    record { id = s.id ∙ t.id; active_members = s.active_members ∙ t.active_members }

is_dropped-same : (a b : Raft) (j : NodeId) → SameMembers a b → is_dropped a j ≡ is_dropped b j
is_dropped-same a b j s = rw (s.id, s.active_members)

drop_progress-tracked :
    (ids : List NodeId) (j : NodeId) (rf : Raft)
    → tracked j (drop_progress ids rf)
      ≡ (if contains j ids && is_dropped rf j then untracked else tracked j rf)
unfolding drop_progress contains
drop_progress-tracked [] j rf = refl
drop_progress-tracked (id ∷ ids) j rf =
    drop_progress-tracked ids j (drop_one id rf)
    ∙ rw (is_dropped-same (drop_one id rf) rf j (drop_one-same id rf), drop_one-tracked id j rf)
        (split (id =? j) (contains j ids) (is_dropped rf j) (tracked j rf))
  where
    split :
        (a b c : Bool) (o : Tracked)
        → (if b && c then untracked else if a && c then untracked else o)
          ≡ (if (a || b) && c then untracked else o)
    split a b c o = ground arith

begin_tracking-twice :
    (now : Time) (next : LogIndex) (o : Tracked)
    → begin_tracking now next (begin_tracking now next o) ≡ begin_tracking now next o
begin_tracking-twice now next (some n, m, ack) = refl
begin_tracking-twice now next (none, m, ack) = refl

add_progress-tracked :
    (now : Time) (next : LogIndex) (ids : List NodeId) (j : NodeId) (rf : Raft)
    → tracked j (add_progress now next ids rf) ≡ (
        if contains j ids && not (j =? rf.id)
        then begin_tracking now next (tracked j rf)
        else tracked j rf)
unfolding add_progress contains
add_progress-tracked now next [] j rf = refl
add_progress-tracked now next (id ∷ ids) j rf =
    add_progress-tracked now next ids j (add_one now next id rf)
    ∙ rw ((add_one-same now next id rf).id, add_one-tracked now next id j rf)
        (split (id =? j) (contains j ids) (not (j =? rf.id)) (tracked j rf))
  where
    split :
        (a b c : Bool) (o : Tracked)
        → (if b && c
            then begin_tracking now next (if a && c then begin_tracking now next o else o)
            else if a && c
            then begin_tracking now next o
            else o)
          ≡ (if (a || b) && c then begin_tracking now next o else o)
    split true true true o = begin_tracking-twice now next o
    split true true false o = refl
    split true false true o = refl
    split true false false o = refl
    split false b c o = refl

-- After the two loops, at every id: another member has a progress record, its old one whole (nextIndex,
-- matchIndex and lastHeartbeatAck) or a new one behind the log's end with a match of 0 and the present
-- time; of any other id, and of this node, an old record is gone whole. An id is on record if it has a
-- nextIndex.
pub rebuild_progress-lookup :
    (env : Env) (rf : Raft) (j : NodeId)
    → tracked j (rebuild_progress env rf) ≡ (
        if contains j rf.active_members && not (j =? rf.id)
        then begin_tracking env.now (u64 ((get_last_log_info rf).0 + 1)) (tracked j rf)
        else end_tracking (tracked j rf))
unfolding rebuild_progress
rebuild_progress-lookup env rf j =
    let dropped = drop_progress (keys rf.next_index) rf in
    let next = u64 ((get_last_log_info rf).0 + 1) in
    let s = drop_progress-same (keys rf.next_index) rf in
    add_progress-tracked env.now next dropped.active_members j dropped
    ∙ rw
        (
          s.id,
          s.active_members,
          drop_progress-tracked (keys rf.next_index) j rf,
          contains-keys j rf.next_index,
        )
        (both next (contains j rf.active_members) (j =? rf.id) (tracked j rf))
  where
    both :
        (next : LogIndex) (member self : Bool) (o : Tracked)
        → (if member && not self
            then begin_tracking env.now next
                (if present o.0 && (not member || self) then untracked else o)
            else if present o.0 && (not member || self)
            then untracked
            else o)
          ≡ (if member && not self then begin_tracking env.now next o else end_tracking o)
    both next true true (none, m, ack) = refl
    both next true true (some n, m, ack) = refl
    both next true false (none, m, ack) = refl
    both next true false (some n, m, ack) = refl
    both next false self (none, m, ack) = refl
    both next false self (some n, m, ack) = refl
