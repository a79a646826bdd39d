-- ===== src/Update/Waits.antt =====
-- The checks' waits (desktop/crates/opad-update/src/schedule.rs).
use native.Mathlib.Decide.{dec_lt}
use Prim.Native.Nat.pow
use opad.Update.Schedule.{
  CheckSchedule, interval, backoff, due_at, record_failure, first_backoff, max_backoff,
}
use opad.Prelude.{ℕ, zero, suc, ◌+◌, ◌-◌, ◌*◌, ◌^◌, ◌≤◌, ◌<◌, ◌≡◌, min, true, String, refl, arith}

pow_positive : (n : ℕ) → 1 ≤ 2 ^ n
pow_positive zero = omega arith
pow_positive (suc n) = omega (arith, pow.suc 2 n, pow_positive n)

backoff-suc : (n : ℕ) → backoff (suc (suc n)) ≡ min (2 * backoff (suc n)) max_backoff
unfolding backoff
backoff-suc n = elim (dec_lt n 8) [
  | yes p ↦
      let e : min n 8 ≡ n = omega arith in
      let e' : min (suc n) 8 ≡ suc n = omega arith in rw (e, e', pow.suc 2 n) (omega arith)
  | no p ↦
      let e : min n 8 ≡ 8 = omega arith in
      let e' : min (suc n) 8 ≡ 8 = omega arith in rw (e, e') refl
]

backoff-bounds : (n : ℕ) → 0 < n → (first_backoff ≤ backoff n) × (backoff n ≤ max_backoff)
unfolding backoff
backoff-bounds zero h = elim h [ ]
backoff-bounds (suc n) h = (omega (arith, pow_positive (min n 8)), omega arith)

-- A further failure doubles the wait, up to six hours.
pub interval-record_failure :
    (s : CheckSchedule) (now : ℕ) (error : String)
    → 0 < s.consecutive_failures
    → s.consecutive_failures < 2 ^ 32 - 1
    → interval (record_failure s now error) ≡ min (2 * interval s) max_backoff
unfolding interval record_failure
interval-record_failure s now error h k = ground (arith, backoff-suc (s.consecutive_failures - 1))

-- After a failed check the next one is due at latest six hours later, and not within fifteen minutes
-- unless the clock goes back.
pub due_at-record_failure :
    (s : CheckSchedule) (now later : ℕ) (error : String)
    → now ≤ later
    → ((due_at (record_failure s now error) later ≡ true) → now + first_backoff ≤ later)
      × (now + max_backoff ≤ later → due_at (record_failure s now error) later ≡ true)
unfolding due_at interval record_failure
due_at-record_failure s now later error h =
    ground (arith, backoff-bounds (min (s.consecutive_failures + 1) (2 ^ 32 - 1)))
