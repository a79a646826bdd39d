-- ===== src/Update/Tests.antt =====
-- Runs of the updaters' decisions.
use opad.Prelude.Text.{codes}
use opad.Update.Version.{
  is_newer, ordering, split, alphanumeric_loop, text_cmp, drop_leading, split_once, split_on,
  digits_value, numeric, run_of, next_run, runs_ordering, alphanumeric_ordering,
  identifier_ordering, identifiers_ordering, pre_release_ordering, core_ordering,
}
use opad.Update.Version.Runs.{alphanumeric_loop_fuel}
use opad.Update.Origin.{InstallOrigin, owns_bundled_tosu}
use opad.Update.Manifest.{
  Artifact, Component, ReleaseManifest, UpdateError, check_feed, component, artifact_for,
  firmware_key, tosu_key, bad_signature, FeedFault, feed,
}
use opad.Update.Manifest
use opad.Update.Schedule.{
  CheckSchedule, no_checks, due_at, record_failure, record_success, etag_for, serial_of,
  raise_serial, switch_channel, first_backoff, max_backoff,
}
use opad.Update.Client.{
  Net, UpdateClient, body, not_modified, fetch_manifest, fetch_manifest_inner, conditional_etag,
}
use opad.Update.Firmware.{Preconditions, blockers, filled}
use opad.Update.Firmware
use opad.Update.Tosu
use opad.Update.Blockers.{IsReady, blockers_iff}
use opad.Update.Waits.{due_at-record_failure}
use opad.Update.Offers.{IsFirmwareOffer, IsTosuSwap, plan-IsFirmwareOffer, plan-IsTosuSwap}
use opad.Update.Replay.{change_channel, use_all}
use opad.Update.Accepted.{
  IsAccepted, fetch_manifest-IsAccepted, use_all-fetch_manifest, fetch_manifest_err, IsFailed,
}
use opad.Prelude.{
  ℕ, ◌≡◌, ◌↔◌, ◌≤◌, ◌+◌, refl, Bool, true, false, none, some, List, [], ◌∷◌, String, ok, err, arith,
  unwrap_or,
}
use opad.Prelude.Text.{trim}

-- A run of digits over a `u64` is compared as a text: these three go round in a circle.
big : (is_newer (codes "1.0.0-rc18446744073709551616") (codes "1.0.0-rc10") ≡ true)
unfolding is_newer ordering split drop_leading split_once split_on numeric digits_value
    core_ordering pre_release_ordering identifiers_ordering identifier_ordering
    alphanumeric_ordering alphanumeric_loop next_run run_of runs_ordering text_cmp
big = refl

round : is_newer (codes "1.0.0-rc9") (codes "1.0.0-rc18446744073709551616") ≡ true
unfolding is_newer ordering split drop_leading split_once split_on numeric digits_value
    core_ordering pre_release_ordering identifiers_ordering identifier_ordering
    alphanumeric_ordering alphanumeric_loop next_run run_of runs_ordering text_cmp
round = refl

back : is_newer (codes "1.0.0-rc10") (codes "1.0.0-rc9") ≡ true
unfolding is_newer ordering split drop_leading split_once split_on numeric digits_value
    core_ordering pre_release_ordering identifiers_ordering identifier_ordering
    alphanumeric_ordering alphanumeric_loop next_run run_of runs_ordering text_cmp
back = refl

alphanumeric_loop_fuel_example :
    alphanumeric_loop 10 (codes "rc10") (codes "rc9")
    ≡ some (alphanumeric_ordering (codes "rc10") (codes "rc9"))
alphanumeric_loop_fuel_example =
    alphanumeric_loop_fuel 10 (codes "rc10") (codes "rc9") (omega arith)

abbrev ready : Preconditions
ready = record {
  connected = true;
  gate = ok tt;
  counters_synced = true;
  storage_available = true;
  consented = true;
  running_from_ota_0 = true;
}

blockers_iff_example : (blockers ready ≡ []) ↔ IsReady ready
blockers_iff_example = blockers_iff ready

due_at-record_failure_example :
    ((due_at (record_failure no_checks 5 "offline") (5 + max_backoff) ≡ true)
      → 5 + first_backoff ≤ 5 + max_backoff)
    × (5 + max_backoff ≤ 5 + max_backoff
        → due_at (record_failure no_checks 5 "offline") (5 + max_backoff) ≡ true)
due_at-record_failure_example =
    due_at-record_failure no_checks 5 (5 + max_backoff) "offline" (omega arith)

abbrev image : Artifact
image = record {
  target = "esp32s3";
  kind = Manifest.firmware;
  url = "https://example.org/opad.bin";
  sha256 = "ab";
  size = none;
  board = none;
}

abbrev program : Artifact
program = record {
  target = "linux-x86_64";
  kind = Manifest.binary;
  url = "https://example.org/tosu";
  sha256 = "cd";
  size = none;
  board = none;
}

abbrev entry : String → Artifact → Component
entry version a = record {
  version = codes version;
  revision = 0;
  tag = none;
  upstream_tag = none;
  notes = none;
  notes_url = none;
  min_app = none;
  rollout = none;
  artifacts = a ∷ [];
}

abbrev release : ℕ → ReleaseManifest
release serial = record {
  schema = 2;
  channel = "stable";
  serial = serial;
  generated = "2026-01-01T00:00:00Z";
  expires = some "2026-02-01T00:00:00Z";
  components = ("firmware", entry "1.2.0" image) ∷ ("tosu", entry "4.1.0" program) ∷ [];
}

firmware_offered :
    Firmware.plan (release 7) (some (codes "1.1.0")) none (codes "1.2.0") (ok tt)
    ≡ ok (Firmware.available (codes "1.1.0") (codes "1.2.0") none image)
unfolding Firmware.plan component is_newer ordering split drop_leading split_once split_on numeric
    digits_value core_ordering
firmware_offered = refl

plan-IsFirmwareOffer_example :
    (c : Component) × (component (release 7) firmware_key ≡ some c)
    × (filled (some (codes "1.1.0")) ≡ some (codes "1.1.0"))
    × IsFirmwareOffer c none (codes "1.2.0") (ok tt) (codes "1.1.0") (codes "1.2.0") image
plan-IsFirmwareOffer_example =
    plan-IsFirmwareOffer (release 7) (some (codes "1.1.0")) none (codes "1.2.0") (ok tt)
      (codes "1.1.0") (codes "1.2.0") none image firmware_offered

tosu_planned :
    Tosu.plan (release 7) (some (codes "4.0.9")) 0 InstallOrigin.user "linux-x86_64" (ok tt)
    ≡ ok (Tosu.install (codes "4.0.9") (codes "4.1.0") 0 program)
unfolding Tosu.plan Tosu.is_newer_build owns_bundled_tosu component artifact_for is_newer ordering
    split drop_leading split_once split_on numeric digits_value core_ordering
tosu_planned = refl

plan-IsTosuSwap_example :
    (c : Component) × (component (release 7) tosu_key ≡ some c)
    × (artifact_for (release 7) tosu_key "linux-x86_64" none ≡ some program)
    × (trim (unwrap_or (some (codes "4.0.9")) []) ≡ codes "4.0.9")
    × IsTosuSwap c 0 InstallOrigin.user (ok tt) (codes "4.0.9") (codes "4.1.0") 0
plan-IsTosuSwap_example =
    plan-IsTosuSwap (release 7) (some (codes "4.0.9")) 0 InstallOrigin.user "linux-x86_64" (ok tt)
      (codes "4.0.9") (codes "4.1.0") 0 program tosu_planned

-- A server whose feed's bytes are its serial.
abbrev server : ℕ → Bool → Net
server serial genuine = record {
  signing_configured = true;
  get = λ url etag. ok (body (serial ∷ []) (some "tag"));
  from_utf8 = λ bytes. some "signature";
  verify_manifest_signature = λ bytes signature. genuine;
  from_json = λ bytes. elim bytes [ [] ↦ none | n ∷ rest ↦ some (release n) ];
  parse_date = λ text. some 100;
  to_string = λ e. "refused";
  check_hash_bytes = λ bytes sha256. true;
}

abbrev client : ℕ → Bool → UpdateClient
client serial genuine = record {
  net = server serial genuine;
  manifest_url = "https://example.org/stable.json";
  channel = "stable";
}

fetched : (fetch_manifest (client 7 true) no_checks 50 false).1 ≡ ok (some (release 7))
unfolding fetch_manifest fetch_manifest_inner conditional_etag check_feed serial_of
fetched = refl

fetch_manifest-IsAccepted_example :
    (bytes : List ℕ) × (signature : String) × (text : String) × (t : ℕ) × IsAccepted
      (client 7 true)
      no_checks
      50
      (release 7)
      bytes
      signature
      text
      t
fetch_manifest-IsAccepted_example =
    fetch_manifest-IsAccepted (client 7 true) no_checks 50 false (release 7) fetched

abbrev after_seven : CheckSchedule
unfolding fetch_manifest fetch_manifest_inner conditional_etag check_feed serial_of raise_serial
    record_success
after_seven = (fetch_manifest (client 7 true) no_checks 50 false).0

fetched_again :
    (fetch_manifest
      (client 9 true)
      (use_all (fetch_manifest (client 7 true) no_checks 50 false).0 (change_channel "beta" ∷ []))
      60
      true).1
    ≡ ok (some (release 9))
unfolding fetch_manifest fetch_manifest_inner conditional_etag check_feed serial_of raise_serial
    record_success switch_channel etag_for
fetched_again = refl

use_all-fetch_manifest_example : (release 7).serial ≤ (release 9).serial
use_all-fetch_manifest_example =
    use_all-fetch_manifest (client 7 true) (client 9 true) no_checks 50 60 false true (release 7)
      (release 9) (change_channel "beta" ∷ []) refl fetched fetched_again

-- An older feed, and one that is not signed.
replayed :
    (fetch_manifest (client 6 true) (fetch_manifest (client 7 true) no_checks 50 false).0 60 true).1
    ≡ err (feed FeedFault.replayed)
unfolding fetch_manifest fetch_manifest_inner conditional_etag check_feed serial_of raise_serial
    record_success etag_for
replayed = refl

forged : (fetch_manifest (client 7 false) no_checks 50 false).1 ≡ err bad_signature
unfolding fetch_manifest fetch_manifest_inner conditional_etag
forged = refl

fetch_manifest_err_example :
    IsFailed no_checks (fetch_manifest (client 7 false) no_checks 50 false).0 50 "refused"
fetch_manifest_err_example =
    fetch_manifest_err (client 7 false) no_checks 50 false bad_signature forged

-- A cached feed is not read again where the server answers 304, so its expiry is not either.
abbrev frozen : UpdateClient
frozen = record (client 7 true) {
  net = record (server 7 true) { get = λ url etag. ok not_modified };
}

stale : (fetch_manifest frozen no_checks 1000 true).1 ≡ ok none
unfolding fetch_manifest fetch_manifest_inner conditional_etag
stale = refl
