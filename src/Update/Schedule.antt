-- ===== src/Update/Schedule.antt =====
-- When the next check is due (desktop/crates/opad-update/src/schedule.rs). Times are counts of
-- nanoseconds. The waits are far below the limit of `saturating_mul`.
use opad.Prelude.{
  ℕ, suc, zero, ◌+◌, ◌-◌, ◌*◌, ◌^◌, min, max, Bool, true, false, Option, none, some, List, [], ◌∷◌,
  String, str_eq, ltb, leb, if◌then◌else◌,
}

abbrev pub seconds : ℕ → ℕ
seconds n = n * 1000000000

abbrev pub default_interval : ℕ
default_interval = seconds 86400

abbrev pub first_backoff : ℕ
first_backoff = seconds 900

abbrev pub max_backoff : ℕ
max_backoff = seconds 21600

pub record CheckSchedule : Type 0 where
  pub last_check : Option ℕ
  pub last_success : Option ℕ
  pub etag : Option String
  pub consecutive_failures : ℕ
  pub last_error : Option String
  pub channel : Option String
  pub serials : List (String × ℕ)

abbrev pub no_checks : CheckSchedule
no_checks = record {
  last_check = none;
  last_success = none;
  etag = none;
  consecutive_failures = 0;
  last_error = none;
  channel = none;
  serials = [];
}

unfoldable pub backoff : ℕ → ℕ
backoff zero = default_interval
backoff (suc n) = min (first_backoff * 2 ^ min n 8) max_backoff

unfoldable pub interval : CheckSchedule → ℕ
unfolding backoff
interval s = backoff s.consecutive_failures

unfoldable pub due_at : CheckSchedule → ℕ → Bool
unfolding interval
due_at s now = elim s.last_check [
  | none ↦ true
  | some last ↦ if ltb now last then true else leb (interval s) (now - last)
]

abbrev pub or_keep {ℓ} : {A : Type ℓ} → Option A → Option A → Option A
or_keep none b = b
or_keep (some a) b = some a

unfoldable pub record_success : CheckSchedule → ℕ → Option String → CheckSchedule
record_success s now etag = record s {
  last_check = some now;
  last_success = some now;
  consecutive_failures = 0;
  last_error = none;
  etag = or_keep etag s.etag;
}

abbrev pub is_channel : Option String → String → Bool
is_channel none channel = false
is_channel (some own) channel = str_eq own channel

unfoldable pub switch_channel : CheckSchedule → String → CheckSchedule
switch_channel s channel =
    if is_channel s.channel channel
    then s
    else record s { channel = some channel; etag = none; last_check = none }

unfoldable pub etag_for : CheckSchedule → String → Option String
etag_for s channel = if is_channel s.channel channel then s.etag else none

-- `saturating_add` on a `u32`
unfoldable pub record_failure : CheckSchedule → ℕ → String → CheckSchedule
record_failure s now error = record s {
  last_check = some now;
  consecutive_failures = min (s.consecutive_failures + 1) (2 ^ 32 - 1);
  last_error = some error;
}

unfoldable pub serial_of : List (String × ℕ) → String → Option ℕ
serial_of [] channel = none
serial_of ((own, n) ∷ rest) channel =
    let other = serial_of rest channel in if str_eq own channel then some n else other

-- `entry(channel).or_default()`, raised to `serial`
unfoldable pub raise_serial : List (String × ℕ) → String → ℕ → List (String × ℕ)
raise_serial [] channel serial = (channel, max 0 serial) ∷ []
raise_serial ((own, n) ∷ rest) channel serial =
    let others = raise_serial rest channel serial in
    if str_eq own channel then (own, max n serial) ∷ rest else (own, n) ∷ others
