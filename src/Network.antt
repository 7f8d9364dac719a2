-- ===== src/Network.antt =====
-- raft-consensus/internal/network: the connection pool of a peer (rpc.go), and the switches that cut a
-- node off (fault_rpc_client.go, raft_rpc_server_adapter.go, bidirectional_partition.go). Dialing and
-- net/rpc are parameters.
pub mod Backoff
pub mod Switches
pub mod Pool
use raft_thesis.Base.{
  Bool, List, Option, [], false, get_or, if◌then◌else◌, inl, inr, leb, leb_ℤ, length, ltb, none,
  pos, some, suc, true, zero, ℕ, ◌%◌, ◌*◌, ◌+◌, ◌-◌, ◌==◌, ◌∷◌, ◌⊎◌,
}
use raft_thesis.Raft.Types.{Duration, Time, u64}

abbrev millisecond : ℕ
millisecond = 1000000

abbrev pub initial_dial_backoff : ℕ
initial_dial_backoff = 25 * millisecond

abbrev pub max_dial_backoff : ℕ
max_dial_backoff = 1000 * millisecond

abbrev pub default_rpc_pool_size : ℕ
default_rpc_pool_size = 4

pub data RpcError : Type 0 where
  network_partition rpc_timeout pool_is_empty backoff_active : RpcError
  dial_failed call_failed : ℕ → RpcError

-- A slot of the pool: the client is a number, and the zero time is 0.
pub record RpcConn : Type 0 where
  pub client : Option ℕ
  pub dial_failures : ℕ
  pub retry_after : Time
  pub last_dial_err : Option RpcError

pub record RpcClient : Type 0 where
  pub timeout : Duration
  pub pool : List RpcConn
  pub next_slot : ℕ

abbrev pub empty_conn : RpcConn
empty_conn = record { client = none; dial_failures = 0; retry_after = 0; last_dial_err = none }

unfoldable pub new_rpc_client : Duration → RpcClient
new_rpc_client timeout = record {
  timeout = if leb_ℤ timeout (pos 0) then pos (1000 * millisecond) else timeout;
  pool = empty_conn ∷ empty_conn ∷ empty_conn ∷ empty_conn ∷ [];
  next_slot = 0;
}

-- The index of the slot, and the counter that was raised.
unfoldable pub pick_conn : RpcClient → RpcClient × Option ℕ
pick_conn c = if length c.pool == 0 then (c, none) else (
  record c { next_slot = u64 (c.next_slot + 1) },
  some (u64 (c.next_slot + 1) % length c.pool),
)

-- The rounds of the loop of nextDialBackoff.
unfoldable pub double_backoff : ℕ → ℕ → ℕ
double_backoff zero backoff = backoff
double_backoff (suc rounds) backoff =
    let rest = double_backoff rounds (backoff * 2) in
    if leb max_dial_backoff (backoff * 2) then max_dial_backoff else rest

unfoldable pub next_dial_backoff : ℕ → ℕ
unfolding double_backoff
next_dial_backoff failures =
    if leb failures 0
    then initial_dial_backoff
    else (let backoff = double_backoff (failures - 1) initial_dial_backoff in
        if ltb max_dial_backoff backoff then max_dial_backoff else backoff)

-- getConnection: `dial` is what dialing gives, an error or a client; true if the slot was dialed.
unfoldable pub get_connection : Time → RpcError ⊎ ℕ → RpcConn → RpcConn × (RpcError ⊎ ℕ) × Bool
get_connection time dial slot = elim slot.client [
  | some client ↦ (slot, inr client, false)
  | none ↦
      if ltb time slot.retry_after
      then (slot, inl (get_or slot.last_dial_err backoff_active), false)
      else elim dial [
        | inl e ↦ (
          record slot {
            dial_failures = slot.dial_failures + 1;
            retry_after = time + next_dial_backoff (slot.dial_failures + 1);
            last_dial_err = some e;
          },
          inl e,
          true,
        )
        | inr client ↦ (
          record { client = some client; dial_failures = 0; retry_after = 0; last_dial_err = none },
          inr client,
          true,
        )
      ]
]

unfoldable pub reset_connection : Time → RpcConn → RpcConn
reset_connection time slot = record slot {
  client = none;
  retry_after = time + initial_dial_backoff;
}

-- The end of a call: an error resets the slot, a timeout does not.
pub data CallEnd : Type 0 where
  call_done : CallEnd
  call_error : ℕ → CallEnd
  call_timeout : CallEnd

unfoldable pub finish_call : Time → CallEnd → RpcConn → RpcConn × Option RpcError
finish_call time call_done slot = (slot, none)
finish_call time (call_error e) slot = (reset_connection time slot, some (call_failed e))
finish_call time call_timeout slot = (slot, some rpc_timeout)

-- One call on the slot that was picked.
unfoldable pub call : Time → RpcError ⊎ ℕ → Time → CallEnd → RpcConn → RpcConn × Option RpcError
unfolding get_connection
call time dial done_at end slot =
    let (connected, client, dialed) = get_connection time dial slot in
    elim client [ inl e ↦ (connected, some e) | inr c ↦ finish_call done_at end connected ]
