-- ===== src/Raft/System/Sending.antt =====
-- What a leader sends is cut from its log.
use raft_thesis.Base.{
  int_eq, List, [], arith, dec_le, drop, get_or, if◌then◌else◌, leb, length, length-drop, le→leb,
  lookup, lt→leb_false, refl, some, true, ◌+◌, ◌<◌, ◌∙◌, ◌≡◌,
}
use raft_thesis.Raft.Exchange.Rounds.{Slice-drop}
use raft_thesis.Raft.Node.{Raft, get_last_log_info, last_log_info, term_at}
use raft_thesis.Raft.Node.Log.{last_log_info-length, term_at-lt}
use raft_thesis.Raft.Replication.{prepare_append}
use raft_thesis.Raft.Service.Merging.{Slice}
use raft_thesis.Raft.Service.Replicates.{CutFrom}
use raft_thesis.Raft.Types.{
  AppendEntriesArgs, LogEntry, LogIndex, NodeId, is_leader, leader, sub_u64,
}
use raft_thesis.Raft.Voting.Replies.{leader_of}

prepare_append-args :
    (peer : NodeId) (rf f : Raft) (args : AppendEntriesArgs)
    → prepare_append peer rf ≡ some (f, some args)
    → let n = get_or (lookup peer rf.next_index) 0 in
      (is_leader rf.state ≡ true)
      × (args.term ≡ rf.current_term)
      × (args.prev_log_index ≡ sub_u64 n 1)
      × (term_at rf.log args.prev_log_index ≡ some args.prev_log_term)
      × (args.entries ≡ (if leb n (get_last_log_info rf).0 then drop n rf.log else []))
unfolding prepare_append
prepare_append-args peer rf f args h = ground arith

sent_entries :
    (log : List LogEntry) (n prev last : LogIndex) (es : List LogEntry)
    → length log < 18446744073709551615
    → last + 1 ≡ length log
    → prev ≡ sub_u64 n 1
    → prev < length log
    → es ≡ (if leb n last then drop n log else [])
    → (prev + 1 + length es < 18446744073709551616) × Slice log (prev + 1) es
sent_entries log n prev last es small end before at e = elim (dec_le n last) [
  | no past ↦
      let none' : es ≡ [] = e ∙ rw (lt→leb_false n last (omega arith)) refl in
      rw none' (omega arith, tt)
  | yes inside ↦
      let part : es ≡ drop n log = e ∙ rw (le→leb n last inside) refl in
      let next' : prev + 1 ≡ n = omega (arith, before, at, small, inside, end) in
      rw (part, next') (omega (arith, length-drop n log), Slice-drop log n (drop n log) refl)
]

pub prepare_append-CutFrom :
    (peer : NodeId) (rf f : Raft) (args : AppendEntriesArgs)
    → length rf.log < 18446744073709551615
    → prepare_append peer rf ≡ some (f, some args)
    → (rf.state ≡ leader) × (args.term ≡ rf.current_term) × CutFrom rf.log args
unfolding get_last_log_info
prepare_append-CutFrom peer rf f args small p =
    let (leads, term, prev, at, entries) = prepare_append-args peer rf f args p in
    let here' = term_at-lt rf.log args.prev_log_index at in
    let (short, slice) =
      sent_entries rf.log (get_or (lookup peer rf.next_index) 0) args.prev_log_index
        (last_log_info rf.log).0 args.entries small (last_log_info-length rf.log (omega arith)) prev
        here' entries in
    (leader_of rf.state leads, term, record { small = short; previous = at; slice = slice })
