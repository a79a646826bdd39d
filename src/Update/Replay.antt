-- ===== src/Update/Replay.antt =====
-- No feed is accepted that was not signed, asked for and current, or that is older than one accepted
-- before (desktop/crates/opad-update/src/client.rs with schedule.rs).
use text.Mathlib.TextEquality.{eq_iff}
use opad.Update.Manifest.{ReleaseManifest, UpdateError}
use opad.Update.Schedule.{
  CheckSchedule, switch_channel, serial_of, raise_serial, record_success, record_failure,
}
use opad.Update.Client.{
  UpdateClient, fetch_manifest, fetch_manifest_inner, conditional_etag, settle_fetch, checked,
}
use opad.Prelude.{
  ℕ, ◌≤◌, ◌≡◌, max, Bool, Option, none, some, List, [], ◌∷◌, String, str_eq, Result, ok, err, arith,
  unwrap_or, if◌then◌else◌,
}

-- The highest serial accepted on a channel, 0 before the first.
abbrev pub highest : CheckSchedule → String → ℕ
highest s channel = unwrap_or (serial_of s.serials channel) 0

pub raised :
    (serials : List (String × ℕ)) (own channel : String) (n : ℕ)
    → unwrap_or (serial_of (raise_serial serials own n) channel) 0 ≡ (
        if str_eq own channel
        then max (unwrap_or (serial_of serials channel) 0) n
        else unwrap_or (serial_of serials channel) 0)
unfolding serial_of raise_serial
raised [] own channel n = ground arith
raised ((c, m) ∷ rest) own channel n =
    ground (arith, raised rest own channel n, eq_iff c own, eq_iff c channel, eq_iff own channel)

settle_highest :
    (c : UpdateClient) (s : CheckSchedule) (now : ℕ) (channel : String)
    (r : Result UpdateError (Option (ReleaseManifest × Option String)))
    → highest s channel ≤ highest (settle_fetch c s now (checked c s now r)).0 channel
unfolding record_success record_failure
settle_highest c s now channel (ok none) = omega arith
settle_highest c s now channel (err e) = omega arith
settle_highest c s now channel (ok (some (m, etag))) =
    ground (arith, raised s.serials c.channel channel m.serial)

fetch_highest :
    (c : UpdateClient) (s : CheckSchedule) (now : ℕ) (have_cached : Bool) (channel : String)
    → highest s channel ≤ highest (fetch_manifest c s now have_cached).0 channel
unfolding fetch_manifest record_failure
fetch_highest c s now have_cached channel = ground (
  arith,
  settle_highest c s now channel
      (fetch_manifest_inner c (conditional_etag s c.channel have_cached)),
)

-- What happens to a schedule: a check, or a change of the channel.
pub data Use : Type 0 where
  check : UpdateClient → ℕ → Bool → Use
  change_channel : String → Use

abbrev pub use_schedule : CheckSchedule → Use → CheckSchedule
use_schedule s (check c now have_cached) = (fetch_manifest c s now have_cached).0
use_schedule s (change_channel channel) = switch_channel s channel

abbrev pub use_all : CheckSchedule → List Use → CheckSchedule
use_all s [] = s
use_all s (u ∷ us) = use_all (use_schedule s u) us

use_highest :
    (s : CheckSchedule) (u : Use) (channel : String)
    → highest s channel ≤ highest (use_schedule s u) channel
unfolding switch_channel
use_highest s (check c now have_cached) channel = fetch_highest c s now have_cached channel
use_highest s (change_channel other) channel = ground arith

-- Whatever checks and changes of channel follow, no channel's highest accepted serial goes down.
pub use_all-highest :
    (s : CheckSchedule) (us : List Use) (channel : String)
    → highest s channel ≤ highest (use_all s us) channel
use_all-highest s [] channel = omega arith
use_all-highest s (u ∷ us) channel =
    omega (arith, use_highest s u channel, use_all-highest (use_schedule s u) us channel)
