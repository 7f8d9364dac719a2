-- ===== src/Kv/Http.antt =====
-- raft-consensus/internal/kv/http.go: which answer each request gets. The parts of a request that net/http
-- parses are arguments; the handlers are a part before the call of the service and one after it.
pub mod Answers
use raft_thesis.Base.{
  int_eq, string_eq, Bool, Option, String, get_or, if◌then◌else◌, inl, inr, leb_ℤ, none, not, pos,
  some, ℕ, ℤ, ◌&&◌, ◌=?◌, ◌⊎◌,
}
use raft_thesis.Raft.Types.{NodeId, no_node}

-- What errors.Is finds in the error of a call of the service.
pub data Failure : Type 0 where
  failed_not_leader failed_no_quorum failed_config_change : Failure
  failed_not_in_cluster failed_already_in_cluster : Failure
  failed_canceled failed_deadline failed_key_not_found failed_otherwise : Failure

-- The status, the body, and the headers Allow and X-Raft-Leader-Id.
pub record Response : Type 0 where
  pub status : ℕ
  pub body : String ⊎ Option String
  pub allow : Option String
  pub leader_id : Option NodeId

abbrev pub status_client_closed : ℕ
status_client_closed = 499

abbrev pub json_error : ℕ → String → Response
json_error status message = record {
  status = status;
  body = inl message;
  allow = none;
  leader_id = none;
}

abbrev pub json_ok : Option String → Response
json_ok value = record { status = 200; body = inr value; allow = none; leader_id = none }

abbrev pub method_not_allowed : String → Response
method_not_allowed allowed = record (json_error 405 "method not allowed") { allow = some allowed }

-- setLeaderHintHeader before writeJSON.
unfoldable pub with_leader_hint : NodeId → Response → Response
with_leader_hint hint r = if not (hint =? no_node) then record r { leader_id = some hint } else r

-- The service call that a request leads to.
pub data ServiceCall : Type 0 where
  call_put : String → String → ServiceCall
  call_get : String → ServiceCall
  call_add : ℤ → String → ServiceCall
  call_remove : ℤ → ServiceCall
  call_partition : Bool → ServiceCall

unfoldable pub handle_put : String → String → String → Response ⊎ ServiceCall
handle_put method key val =
    if not (method =? "GET") && not (method =? "POST") && not (method =? "PUT")
    then inl (method_not_allowed "GET, POST, PUT")
    else if key =? ""
    then inl (json_error 400 "missing key")
    else inr (call_put key val)

-- The failure, with the text of its error.
unfoldable pub put_response : NodeId → Option (Failure × String) → Response
unfolding with_leader_hint
put_response hint none = json_ok none
put_response hint (some (failed_not_leader, text)) =
    with_leader_hint hint (json_error 503 "not leader")
put_response hint (some (failed_canceled, text)) =
    json_error status_client_closed "request canceled"
put_response hint (some (failed_deadline, text)) = json_error 504 "timeout waiting for commit"
put_response hint (some (_, text)) = json_error 500 text

unfoldable pub handle_get : String → String → Response ⊎ ServiceCall
handle_get method key =
    if not (method =? "GET")
    then inl (method_not_allowed "GET")
    else if key =? ""
    then inl (json_error 400 "missing key")
    else inr (call_get key)

unfoldable pub get_response : NodeId → (Failure × String) ⊎ String → Response
unfolding with_leader_hint
get_response hint (inr value) = json_ok (some value)
get_response hint (inl (failed_not_leader, text)) =
    with_leader_hint hint (json_error 503 "not leader")
get_response hint (inl (failed_no_quorum, text)) =
    with_leader_hint hint (json_error 503 "read index: no quorum")
get_response hint (inl (failed_canceled, text)) = json_error status_client_closed "request canceled"
get_response hint (inl (failed_deadline, text)) = json_error 504 "timeout waiting for apply"
get_response hint (inl (failed_key_not_found, text)) = json_error 404 "key not found"
get_response hint (inl (_, text)) = json_error 500 text

-- writeClusterMembershipErr: no answer means that the caller writes its own.
unfoldable pub write_cluster_membership_err : NodeId → Failure → Option Response
unfolding with_leader_hint
write_cluster_membership_err hint failed_not_leader =
    some (with_leader_hint hint (json_error 503 "not leader"))
write_cluster_membership_err hint failed_config_change =
    some (json_error 409 "configuration change already in progress")
write_cluster_membership_err hint failed_canceled =
    some (json_error status_client_closed "request canceled")
write_cluster_membership_err hint failed_deadline =
    some (json_error 504 "timeout waiting for commit")
write_cluster_membership_err hint failed_not_in_cluster =
    some (json_error 404 "node not in cluster")
write_cluster_membership_err hint failed_already_in_cluster =
    some (json_error 409 "node already in cluster")
write_cluster_membership_err hint _ = none

unfoldable pub membership_response : NodeId → Option (Failure × String) → Response
unfolding write_cluster_membership_err
membership_response hint none = json_ok none
membership_response hint (some (failure, text)) =
    get_or (write_cluster_membership_err hint failure) (json_error 500 text)

-- The body of the request, if it is JSON of the right form.
unfoldable pub handle_cluster_add_node : Option (ℤ × String) → Response ⊎ ServiceCall
handle_cluster_add_node none = inl (json_error 400 "invalid JSON body")
handle_cluster_add_node (some (id, addr)) =
    if addr =? ""
    then inl (json_error 400 "missing addr")
    else if leb_ℤ id (pos 0)
    then inl (json_error 400 "id must be positive")
    else inr (call_add id addr)

-- The query's id, and what strconv.ParseInt makes of it.
unfoldable pub handle_cluster_remove_node : String → Option ℤ → Response ⊎ ServiceCall
handle_cluster_remove_node raw parsed =
    if raw =? "" then inl (json_error 400 "missing query id") else elim parsed [
      | none ↦ inl (json_error 400 "id must be a positive integer")
      | some id ↦
          if leb_ℤ id (pos 0)
          then inl (json_error 400 "id must be a positive integer")
          else inr (call_remove id)
    ]

unfoldable pub handle_cluster_nodes :
    String → Option (ℤ × String) → String → Option ℤ → Response ⊎ ServiceCall
unfolding handle_cluster_add_node handle_cluster_remove_node
handle_cluster_nodes method body raw parsed =
    if method =? "POST"
    then handle_cluster_add_node body
    else if method =? "DELETE"
    then handle_cluster_remove_node raw parsed
    else inl (method_not_allowed "POST, DELETE")

-- Whether there is a switch, the query's `isolated`, and what strconv.ParseBool makes of it.
unfoldable pub handle_debug_network_partition :
    String → Bool → String → Option Bool → Response ⊎ ServiceCall
handle_debug_network_partition method configured raw parsed =
    if not (method =? "POST")
    then inl (method_not_allowed "POST")
    else if not configured
    then inl (json_error 404 "network partition toggle not configured")
    else if raw =? ""
    then inl (json_error 400 "missing query isolated=true|false")
    else elim parsed [
      | none ↦ inl (json_error 400 "isolated must be true or false")
      | some partitioned ↦ inr (call_partition partitioned)
    ]
