-- ===== src/Raft/Voting/OneVote.antt =====
-- A node votes once in a term.
use raft_thesis.Base.{[], none, refl, ◌≢◌}
use raft_thesis.Raft.Node.{Raft}
use raft_thesis.Raft.Replication.{clear_in_flight}
use raft_thesis.Raft.Types.{leader}
use raft_thesis.Raft.Voting.{
  OnePerTerm, Step, Steps, Traced, added, appended, applying, checked, cleared, counted, left, next,
  prepared, promoted, removed, replied, requested, start, stood, submitted,
}
use raft_thesis.Raft.Voting.Appends.{append_entries-Inv}
use raft_thesis.Raft.Voting.Invariant.{TracedInv}
use raft_thesis.Raft.Voting.Leading.{
  Kept-Inv, add_node-Inv, catch_up_tick-Inv, clear_in_flight-Kept, handle_append_reply-Inv,
  maybe_step_down_leader-Inv, prepare_append-Kept, remove_node-Inv, removed_self-Inv, submit-Inv,
}
use raft_thesis.Raft.Voting.Replies.{handle_vote_reply-Inv, start_election-Inv}
use raft_thesis.Raft.Voting.Requests.{request_vote-Inv}

-- Every critical section keeps the invariant of the votes.
pub Step-Inv : {s u : Traced} → Step s u → TracedInv s → TracedInv u
Step-Inv {s} (requested env args f reply c p e) h =
    rw e (request_vote-Inv env args s.node f reply s.votes s.led c p h)
Step-Inv {s} (appended env args f reply acts o p e) h =
    rw e (append_entries-Inv env args s.node f reply acts s.votes s.led o p h)
Step-Inv {s} (stood env f election acts someone small free p e) h =
    rw e (start_election-Inv env s.node f election acts s.votes s.led someone small p h)
Step-Inv {s} (counted env reply before after f acts p e) h =
    rw e (handle_vote_reply-Inv env reply before after s.node f acts s.votes s.led p h)
Step-Inv {s} (replied env peer args reply f ok acts p e) h =
    rw e (handle_append_reply-Inv env peer args reply s.node f ok acts s.votes s.led p h)
Step-Inv {s} (checked env f p e) h =
    rw e (maybe_step_down_leader-Inv env s.node f s.votes s.led p h)
Step-Inv {s} (left env id f leads p e) h =
    rw e (removed_self-Inv env id s.node f s.votes s.led leads p h)
Step-Inv {s} (submitted command e) h = rw e (submit-Inv command s.node s.votes s.led h)
Step-Inv {s} (added env id addr e) h = rw e (add_node-Inv env id s.node s.votes s.led h addr)
Step-Inv {s} (removed env id e) h = rw e (remove_node-Inv env id s.node s.votes s.led h)
Step-Inv {s} (promoted env id e) h = rw e (catch_up_tick-Inv env id s.node s.votes s.led h)
Step-Inv {s} (prepared peer f args p e) h =
    rw e (Kept-Inv f s.node s.votes s.led (prepare_append-Kept peer s.node f args p) h)
Step-Inv {s} (cleared peer e) h = rw e (
    Kept-Inv (clear_in_flight peer s.node) s.node s.votes s.led (clear_in_flight-Kept peer s.node)
      h)
Step-Inv {s} (applying futures applied e) h = rw e (
    Kept-Inv (record s.node { last_applied = applied; apply_futures = futures }) s.node s.votes
      s.led (record { state = refl; term = refl; voted = refl; log = refl }) h)

Steps-Inv : {s t : Traced} → Steps s t → TracedInv s → TracedInv t
Steps-Inv start h = h
Steps-Inv (next steps step) h = Step-Inv step (Steps-Inv steps h)

-- A node that has cast no vote.
abbrev pub fresh : Raft → Traced
fresh rf = record { node = rf; votes = []; led = none }

pub fresh-Inv : (rf : Raft) → rf.state ≢ leader → TracedInv (fresh rf)
fresh-Inv rf quiet = record {
  once = tt;
  past = tt;
  present = tt;
  leading = λ e. absurd (quiet e);
  ruled = λ t e. cc;
  own = λ e. cc;
}

-- From a node that does not lead, run its critical sections in any order, where requests for votes come
-- from candidates, no other node leads a term that this node led, the term does not wrap and a removed
-- node still leads when its removal is applied. Then no two of the votes that the node has cast, its own
-- candidacies included, are for different candidates in one term. This is so although stepping down in
-- the same term forgets the vote.
pub Steps-OnePerTerm :
    (rf : Raft) (t : Traced) → rf.state ≢ leader → Steps (fresh rf) t → OnePerTerm t.votes
Steps-OnePerTerm rf t quiet steps = (Steps-Inv steps (fresh-Inv rf quiet)).once
