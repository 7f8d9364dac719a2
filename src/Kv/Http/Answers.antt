-- ===== src/Kv/Http/Answers.antt =====
-- raft-consensus/internal/kv/http.go: what the status of an answer says of the call of the service.
use raft_thesis.Base.{
  int_eq, Bool, Bool-cases, Option, String, arith, false, inl, inr, none, refl, some, true, ℕ, ◌=?◌,
  ◌≡◌, ◌≤◌, ◌⊎◌,
}
use raft_thesis.Kv.Http.{
  Failure, Response, failed_already_in_cluster, failed_canceled, failed_config_change,
  failed_deadline, failed_key_not_found, failed_no_quorum, failed_not_in_cluster, failed_not_leader,
  failed_otherwise, get_response, json_error, membership_response, put_response, with_leader_hint,
  write_cluster_membership_err,
}
use raft_thesis.Raft.Types.{NodeId, no_node}

-- A success is 200 and a failure 400 or more; the leader's id goes only with a 503, and only if known.
pub record Answers (hint : NodeId) (failed : Bool) (r : Response) : Type 0 where
  pub outcome : ((failed ≡ false) × (r.status ≡ 200)) ⊎ ((failed ≡ true) × (400 ≤ r.status))
  pub header :
      (r.leader_id ≡ none)
      ⊎ ((r.status ≡ 503) × (r.leader_id ≡ some hint) × ((hint =? no_node) ≡ false))

json_error-Answers :
    (hint : NodeId) (status : ℕ) (message : String)
    → 400 ≤ status
    → Answers hint true (json_error status message)
json_error-Answers hint status message h = record { outcome = inr (refl, h); header = inl refl }

with_leader_hint-Answers :
    (hint : NodeId) (message : String)
    → Answers hint true (with_leader_hint hint (json_error 503 message))
unfolding with_leader_hint
with_leader_hint-Answers hint message = elim (Bool-cases (hint =? no_node)) [
  | inl unknown ↦ rw unknown (record { outcome = inr (refl, omega arith); header = inl refl })
  | inr known ↦
      rw known (record { outcome = inr (refl, omega arith); header = inr (refl, refl, known) })
]

abbrev pub is_failure {ℓ} : {A : Type ℓ} → Option A → Bool
is_failure none = false
is_failure (some e) = true

membership_response-Answers :
    (hint : NodeId) (e : Option (Failure × String))
    → Answers hint (is_failure e) (membership_response hint e)
unfolding membership_response write_cluster_membership_err
membership_response-Answers hint none = record { outcome = inl (refl, refl); header = inl refl }
membership_response-Answers hint (some (failed_not_leader, text)) =
    with_leader_hint-Answers hint "not leader"
membership_response-Answers hint (some (failed_config_change, text)) =
    json_error-Answers hint 409 _ (omega arith)
membership_response-Answers hint (some (failed_canceled, text)) =
    json_error-Answers hint 499 _ (omega arith)
membership_response-Answers hint (some (failed_deadline, text)) =
    json_error-Answers hint 504 _ (omega arith)
membership_response-Answers hint (some (failed_not_in_cluster, text)) =
    json_error-Answers hint 404 _ (omega arith)
membership_response-Answers hint (some (failed_already_in_cluster, text)) =
    json_error-Answers hint 409 _ (omega arith)
membership_response-Answers hint (some (failed_no_quorum, text)) =
    json_error-Answers hint 500 _ (omega arith)
membership_response-Answers hint (some (failed_key_not_found, text)) =
    json_error-Answers hint 500 _ (omega arith)
membership_response-Answers hint (some (failed_otherwise, text)) =
    json_error-Answers hint 500 _ (omega arith)

put_response-Answers :
    (hint : NodeId) (e : Option (Failure × String))
    → Answers hint (is_failure e) (put_response hint e)
unfolding put_response
put_response-Answers hint none = record { outcome = inl (refl, refl); header = inl refl }
put_response-Answers hint (some (failed_not_leader, text)) =
    with_leader_hint-Answers hint "not leader"
put_response-Answers hint (some (failed_no_quorum, text)) =
    json_error-Answers hint 500 _ (omega arith)
put_response-Answers hint (some (failed_config_change, text)) =
    json_error-Answers hint 500 _ (omega arith)
put_response-Answers hint (some (failed_not_in_cluster, text)) =
    json_error-Answers hint 500 _ (omega arith)
put_response-Answers hint (some (failed_already_in_cluster, text)) =
    json_error-Answers hint 500 _ (omega arith)
put_response-Answers hint (some (failed_canceled, text)) =
    json_error-Answers hint 499 _ (omega arith)
put_response-Answers hint (some (failed_deadline, text)) =
    json_error-Answers hint 504 _ (omega arith)
put_response-Answers hint (some (failed_key_not_found, text)) =
    json_error-Answers hint 500 _ (omega arith)
put_response-Answers hint (some (failed_otherwise, text)) =
    json_error-Answers hint 500 _ (omega arith)

abbrev pub is_left {ℓ κ} : {A : Type ℓ} {B : Type κ} → A ⊎ B → Bool
is_left (inl a) = true
is_left (inr b) = false

get_response-Answers :
    (hint : NodeId) (e : (Failure × String) ⊎ String)
    → Answers hint (is_left e) (get_response hint e)
unfolding get_response
get_response-Answers hint (inr value) = record { outcome = inl (refl, refl); header = inl refl }
get_response-Answers hint (inl (failed_not_leader, text)) =
    with_leader_hint-Answers hint "not leader"
get_response-Answers hint (inl (failed_no_quorum, text)) =
    with_leader_hint-Answers hint "read index: no quorum"
get_response-Answers hint (inl (failed_config_change, text)) =
    json_error-Answers hint 500 _ (omega arith)
get_response-Answers hint (inl (failed_not_in_cluster, text)) =
    json_error-Answers hint 500 _ (omega arith)
get_response-Answers hint (inl (failed_already_in_cluster, text)) =
    json_error-Answers hint 500 _ (omega arith)
get_response-Answers hint (inl (failed_canceled, text)) =
    json_error-Answers hint 499 _ (omega arith)
get_response-Answers hint (inl (failed_deadline, text)) =
    json_error-Answers hint 504 _ (omega arith)
get_response-Answers hint (inl (failed_key_not_found, text)) =
    json_error-Answers hint 404 _ (omega arith)
get_response-Answers hint (inl (failed_otherwise, text)) =
    json_error-Answers hint 500 _ (omega arith)

-- The answers to a change of the members, to a Put and to a Get are 200 exactly if the service reported
-- no error, and 400 or more else; the id of the leader is given only with a 503, and only if it is known.
pub responses-Answers :
    (hint : NodeId) (e : Option (Failure × String)) (got : (Failure × String) ⊎ String)
    → Answers hint (is_failure e) (membership_response hint e)
      × Answers hint (is_failure e) (put_response hint e)
      × Answers hint (is_left got) (get_response hint got)
responses-Answers hint e got =
    (membership_response-Answers hint e, put_response-Answers hint e, get_response-Answers hint got)
