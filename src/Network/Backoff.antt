-- ===== src/Network/Backoff.antt =====
-- raft-consensus/internal/network/rpc.go: how long a slot waits before it dials again.
use native.Mathlib.Nat.{mul_assoc}
use raft_thesis.Base.{
  ap, arith, dec_lt, le→leb, lt→leb_false, min, suc, sym, zero, ℕ, ◌*◌, ◌+◌, ◌<◌, ◌^◌, ◌∙◌, ◌≡◌,
  ◌≤◌,
}
use raft_thesis.Network.{double_backoff, initial_dial_backoff, max_dial_backoff, next_dial_backoff}

pow_suc : (b r : ℕ) → b * 2 ^ suc r ≡ b * 2 * 2 ^ r
pow_suc b r = ap (λ x. b * x) double ∙ sym (mul_assoc b 2 (2 ^ r))
  where
    double : 2 ^ suc r ≡ 2 * 2 ^ r
    double = ground arith

grows : (b r : ℕ) → b ≤ b * 2 ^ r
grows b zero = omega arith
grows b (suc r) = omega (arith, grows (b * 2) r, pow_suc b r)

double_backoff-min :
    (r b : ℕ) → b < max_dial_backoff → double_backoff r b ≡ min (b * 2 ^ r) max_dial_backoff
unfolding double_backoff
double_backoff-min zero b h = omega arith
double_backoff-min (suc r) b h = elim (dec_lt (b * 2) max_dial_backoff) [
  | yes below ↦
      rw (lt→leb_false max_dial_backoff (b * 2) below, pow_suc b r)
        (double_backoff-min r (b * 2) below)
  | no above ↦
      rw (le→leb max_dial_backoff (b * 2) (omega arith))
        (omega (arith, pow_suc b r, grows (b * 2) r))
]

-- After n + 1 failures in a row a slot waits 25 ms doubled n times, but never more than one second.
pub next_dial_backoff-doubles :
    (n : ℕ) → next_dial_backoff (suc n) ≡ min (initial_dial_backoff * 2 ^ n) max_dial_backoff
unfolding next_dial_backoff
next_dial_backoff-doubles n =
    ground (arith, double_backoff-min n initial_dial_backoff (omega arith))

pub shortest_backoff : (n : ℕ) → initial_dial_backoff ≤ next_dial_backoff (n + 1)
shortest_backoff n =
    let e : n + 1 ≡ suc n = omega arith in
    rw (e, next_dial_backoff-doubles n) (omega (arith, grows initial_dial_backoff n))
