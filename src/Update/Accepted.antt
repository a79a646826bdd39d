-- ===== src/Update/Accepted.antt =====
-- What a feed has passed that a check gives out (desktop/crates/opad-update/src/client.rs,
-- `fetch_manifest`).
use mathlib.Core.Path.{subst⁻¹}
use text.Mathlib.TextEquality.{eq_iff}
use opad.Update.Manifest.{ReleaseManifest, UpdateError, check_feed, supported_schema}
use opad.Update.Schedule.{CheckSchedule, serial_of, record_success, record_failure}
use opad.Update.Client.{
  Net, UpdateClient, Fetched, body, not_modified, fetch_manifest, fetch_manifest_inner,
  conditional_etag, settle_fetch, checked, read_feed, signature_url, verified, read_signature,
  supported,
}
use opad.Update.Replay.{highest, use_all, Use, use_all-highest, raised}
use opad.Prelude.{
  min, ◌+◌, ◌-◌, ◌^◌, refl, ℕ, ◌≤◌, ◌≡◌, ap, Bool, true, Option, none, some, List, String, Result,
  ok, err, arith, Bool-cases, Option-cases, inl, inr, unwrap_or,
}

-- The bytes were signed and are what was parsed; the feed is the one asked for, its schema is known, it
-- has not expired, and no higher serial was accepted before.
pub record IsAccepted (c : UpdateClient) (s : CheckSchedule) (now : ℕ) (m : ReleaseManifest)
    (bytes : List ℕ) (signature : String) (text : String) (t : ℕ) : Type 0 where
  pub signed : c.net.verify_manifest_signature bytes signature ≡ true
  pub parsed : c.net.from_json bytes ≡ some m
  pub schema : m.schema ≡ supported_schema
  pub channel : m.channel ≡ c.channel
  pub expires : m.expires ≡ some text
  pub instant : c.net.parse_date text ≡ some t
  pub current : now ≤ t
  pub not_replayed : highest s c.channel ≤ m.serial

supported_inv :
    (o : Option ReleaseManifest) (tag etag : Option String) (m : ReleaseManifest)
    → supported o tag ≡ ok (some (m, etag))
    → (o ≡ some m) × (m.schema ≡ supported_schema)
supported_inv none tag etag m h = ground arith
supported_inv (some n) tag etag m h = ground arith

verified_inv :
    (net : Net) (bytes : List ℕ) (tag etag : Option String) (m : ReleaseManifest)
    (r : Result UpdateError String)
    → verified net bytes tag r ≡ ok (some (m, etag))
    → (signature : String) × (net.verify_manifest_signature bytes signature ≡ true)
      × (net.from_json bytes ≡ some m)
      × (m.schema ≡ supported_schema)
verified_inv net bytes tag etag m (err e) h = ground arith
verified_inv net bytes tag etag m (ok signature) h =
    elim (Bool-cases (net.verify_manifest_signature bytes signature)) [
      | inl e ↦
          let (p, q) = supported_inv (net.from_json bytes) tag etag m (ground arith) in
          (signature, e, p, q)
      | inr e ↦ ground arith
    ]

read_inv :
    (c : UpdateClient) (etag : Option String) (m : ReleaseManifest) (r : Result UpdateError Fetched)
    → read_feed c r ≡ ok (some (m, etag))
    → (bytes : List ℕ) × (signature : String) × (c.net.verify_manifest_signature bytes signature
        ≡ true)
      × (c.net.from_json bytes ≡ some m)
      × (m.schema ≡ supported_schema)
read_inv c etag m (err e) h = ground arith
read_inv c etag m (ok not_modified) h = ground arith
read_inv c etag m (ok (body bytes tag)) h =
    let (signature, v, p, q) =
      verified_inv c.net bytes tag etag m (read_signature c.net (c.net.get (signature_url c) none))
        h in
    (bytes, signature, v, p, q)

check_inv :
    (parse_date : String → Option ℕ) (m : ReleaseManifest) (channel : String) (now : ℕ)
    (seen : Option ℕ)
    → check_feed parse_date m channel now seen ≡ ok tt
    → (text : String) × (t : ℕ) × (m.channel ≡ channel)
      × (m.expires ≡ some text)
      × (parse_date text ≡ some t)
      × (now ≤ t)
      × (unwrap_or seen 0 ≤ m.serial)
unfolding check_feed
check_inv parse_date m channel now seen h = elim (Option-cases m.expires) [
  | inl e ↦ ground arith
  | inr (text, e) ↦ elim (Option-cases (parse_date text)) [
    | inl d ↦ ground arith
    | inr (t, d) ↦
        (text, t, ground (arith, eq_iff m.channel channel), e, d, ground arith, ground arith)
  ]
]

settle_inv :
    (c : UpdateClient) (s : CheckSchedule) (now : ℕ) (m : ReleaseManifest)
    (r : Result UpdateError (Option (ReleaseManifest × Option String)))
    → (settle_fetch c s now (checked c s now r)).1 ≡ ok (some m)
    → (etag : Option String) × (r ≡ ok (some (m, etag)))
      × (check_feed c.net.parse_date m c.channel now (serial_of s.serials c.channel) ≡ ok tt)
settle_inv c s now m (ok none) h = ground arith
settle_inv c s now m (err e) h = ground arith
settle_inv c s now m (ok (some (n, etag))) h = (etag, ground arith, ground arith)

-- A feed that a check gives out was signed over the very bytes that were parsed, has the known schema
-- and the asked channel, has not expired, and its serial is not below the highest one accepted.
pub fetch_manifest-IsAccepted :
    (c : UpdateClient) (s : CheckSchedule) (now : ℕ) (have_cached : Bool) (m : ReleaseManifest)
    → (fetch_manifest c s now have_cached).1 ≡ ok (some m)
    → (bytes : List ℕ) × (signature : String) × (text : String) × (t : ℕ) × IsAccepted c s now m
        bytes signature text t
unfolding fetch_manifest fetch_manifest_inner
fetch_manifest-IsAccepted c s now have_cached m h = elim (Bool-cases c.net.signing_configured) [
  | inr e ↦ ground arith
  | inl e ↦
      let etag = conditional_etag s c.channel have_cached in
      let r = read_feed c (c.net.get c.manifest_url etag) in
      let (tag, fetched, passed) = settle_inv c s now m r (ground arith) in
      let (bytes, signature, v, p, q) = read_inv c tag m (c.net.get c.manifest_url etag) fetched in
      let (text, t, own, x, d, live, seen) =
        check_inv c.net.parse_date m c.channel now (serial_of s.serials c.channel) passed in
      (
        bytes,
        signature,
        text,
        t,
        record {
          signed = v;
          parsed = p;
          schema = q;
          channel = own;
          expires = x;
          instant = d;
          current = live;
          not_replayed = seen;
        },
      )
]

settle_raises :
    (c : UpdateClient) (s : CheckSchedule) (now : ℕ) (m : ReleaseManifest)
    (r : Result UpdateError (Option (ReleaseManifest × Option String)))
    → (settle_fetch c s now (checked c s now r)).1 ≡ ok (some m)
    → m.serial ≤ highest (settle_fetch c s now (checked c s now r)).0 c.channel
unfolding record_success
settle_raises c s now m (ok none) h = ground arith
settle_raises c s now m (err e) h = ground arith
settle_raises c s now m (ok (some (n, etag))) h =
    ground (arith, raised s.serials c.channel c.channel n.serial, eq_iff c.channel c.channel)

fetch_raises :
    (c : UpdateClient) (s : CheckSchedule) (now : ℕ) (have_cached : Bool) (m : ReleaseManifest)
    → (fetch_manifest c s now have_cached).1 ≡ ok (some m)
    → m.serial ≤ highest (fetch_manifest c s now have_cached).0 c.channel
unfolding fetch_manifest
fetch_raises c s now have_cached m h =
    let r = fetch_manifest_inner c (conditional_etag s c.channel have_cached) in
    ground (arith, settle_raises c s now m r)

-- A feed that a check gives out is never older, by its serial, than one that an earlier check of the
-- same channel gave out, whatever checks and changes of channel come between.
pub use_all-fetch_manifest :
    (c d : UpdateClient) (s : CheckSchedule) (now later : ℕ) (cached cached' : Bool)
    (m n : ReleaseManifest) (us : List Use)
    → c.channel ≡ d.channel
    → (fetch_manifest c s now cached).1 ≡ ok (some m)
    → (fetch_manifest d (use_all (fetch_manifest c s now cached).0 us) later cached').1
      ≡ ok (some n)
    → m.serial ≤ n.serial
use_all-fetch_manifest c d s now later cached cached' m n us same h k =
    let s' = (fetch_manifest c s now cached).0 in
    let (bytes, signature, text, t, accepted) =
      fetch_manifest-IsAccepted d (use_all s' us) later cached' n k in
    let low = fetch_raises c s now cached m h in
    let kept = use_all-highest s' us c.channel in
    let top = accepted.not_replayed in
    let moved : highest (use_all s' us) c.channel ≡ highest (use_all s' us) d.channel =
      ap (highest (use_all s' us)) same in
    omega (arith, low, kept, top, moved)

settle_err :
    (c : UpdateClient) (s : CheckSchedule) (now : ℕ) (e : UpdateError)
    (r : Result UpdateError (Option (ReleaseManifest × Option String)))
    → (settle_fetch c s now r).1 ≡ err e
    → (settle_fetch c s now r).0 ≡ record_failure s now (c.net.to_string e)
settle_err c s now e (ok none) h = ground arith
settle_err c s now e (ok (some (m, etag))) h = ground arith
settle_err c s now e (err e') h = ground arith

-- One failure more: its text and its time are kept, and nothing else changes.
pub record IsFailed (s s' : CheckSchedule) (now : ℕ) (text : String) : Type 0 where
  pub channel : s'.channel ≡ s.channel
  pub etag : s'.etag ≡ s.etag
  pub serials : s'.serials ≡ s.serials
  pub last_success : s'.last_success ≡ s.last_success
  pub last_check : s'.last_check ≡ some now
  pub last_error : s'.last_error ≡ some text
  pub counted : s'.consecutive_failures ≡ min (s.consecutive_failures + 1) (2 ^ 32 - 1)

record_failure-IsFailed :
    (s : CheckSchedule) (now : ℕ) (text : String) → IsFailed s (record_failure s now text) now text
unfolding record_failure
record_failure-IsFailed s now text = record {
  channel = refl;
  etag = refl;
  serials = refl;
  last_success = refl;
  last_check = refl;
  last_error = refl;
  counted = refl;
}

-- However a check fails, the failure is counted, up to the largest `u32`, its text and its time are
-- kept, and the rest of the schedule stays: the ETag, the channel, the accepted serials and the last
-- success.
pub fetch_manifest_err :
    (c : UpdateClient) (s : CheckSchedule) (now : ℕ) (have_cached : Bool) (e : UpdateError)
    → (fetch_manifest c s now have_cached).1 ≡ err e
    → IsFailed s (fetch_manifest c s now have_cached).0 now (c.net.to_string e)
unfolding fetch_manifest
fetch_manifest_err c s now have_cached e h =
    let r = checked c s now (fetch_manifest_inner c (conditional_etag s c.channel have_cached)) in
    let failed : (fetch_manifest c s now have_cached).0 ≡ record_failure s now (c.net.to_string e) =
      ground (arith, settle_err c s now e r) in
    subst⁻¹ (λ s'. IsFailed s s' now (c.net.to_string e)) failed
      (record_failure-IsFailed s now (c.net.to_string e))
