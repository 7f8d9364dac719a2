-- ===== src/Examples/Http.antt =====
-- The answers of a node that knows that node 2 leads.
use raft_thesis.Base.{false, inr, pos, some, true}
use raft_thesis.Kv.Http.{failed_not_leader, get_response, membership_response, put_response}
use raft_thesis.Kv.Http.Answers.{Answers, responses-Answers}

responses-Answers_example :
    Answers
      (pos 2)
      true
      (membership_response (pos 2) (some (failed_not_leader, "raft: not leader")))
    × Answers (pos 2) true (put_response (pos 2) (some (failed_not_leader, "raft: not leader")))
    × Answers (pos 2) false (get_response (pos 2) (inr "1"))
responses-Answers_example =
    responses-Answers (pos 2) (some (failed_not_leader, "raft: not leader")) (inr "1")
