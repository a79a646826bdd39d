-- ===== src/Update/Client.antt =====
-- Fetching the signed feed (desktop/crates/opad-update/src/client.rs). The server, the signature
-- check, JSON and dates are the fields of `Net`; `get` answers a request for a URL with an ETag.
use Prim.Native.String.{◌++◌}
use opad.Update.Manifest.{
  ReleaseManifest, Artifact, UpdateError, check_feed, supported_schema, http, bad_signature,
  manifest, unsupported_schema, no_public_key, hash_mismatch,
}
use opad.Update.Schedule.{
  CheckSchedule, etag_for, record_success, record_failure, serial_of, raise_serial,
}
use opad.Prelude.{
  ℕ, Bool, true, false, Option, none, some, List, String, ◌==◌, length, Result, ok, err,
  if◌then◌else◌,
}

pub data Fetched : Type 0 where
  not_modified : Fetched
  body : List ℕ → Option String → Fetched

pub record Net : Type 0 where
  pub signing_configured : Bool
  pub get : String → Option String → Result UpdateError Fetched
  pub from_utf8 : List ℕ → Option String
  pub verify_manifest_signature : List ℕ → String → Bool
  pub from_json : List ℕ → Option ReleaseManifest
  pub parse_date : String → Option ℕ
  pub to_string : UpdateError → String
  pub check_hash_bytes : List ℕ → String → Bool

pub record UpdateClient : Type 0 where
  pub net : Net
  pub manifest_url : String
  pub channel : String

unfoldable pub signature_url : UpdateClient → String
signature_url c = c.manifest_url ++ ".minisig"

unfoldable pub conditional_etag : CheckSchedule → String → Bool → Option String
conditional_etag s channel true = etag_for s channel
conditional_etag s channel false = none

abbrev pub read_signature : Net → Result UpdateError Fetched → Result UpdateError String
read_signature net (err e) = err e
read_signature net (ok not_modified) = err bad_signature
read_signature net (ok (body bytes etag)) = elim (net.from_utf8 bytes) [
  | none ↦ err bad_signature
  | some text ↦ ok text
]

abbrev pub supported :
    Option ReleaseManifest
    → Option String
    → Result UpdateError (Option (ReleaseManifest × Option String))
supported none etag = err manifest
supported (some m) etag =
    if m.schema == supported_schema then ok (some (m, etag)) else err unsupported_schema

abbrev pub verified :
    Net
    → List ℕ
    → Option String
    → Result UpdateError String
    → Result UpdateError (Option (ReleaseManifest × Option String))
verified net bytes etag (err e) = err e
verified net bytes etag (ok signature) =
    if net.verify_manifest_signature bytes signature
    then supported (net.from_json bytes) etag
    else err bad_signature

abbrev pub read_feed :
    UpdateClient
    → Result UpdateError Fetched
    → Result UpdateError (Option (ReleaseManifest × Option String))
read_feed c (err e) = err e
read_feed c (ok not_modified) = ok none
read_feed c (ok (body bytes etag)) =
    verified c.net bytes etag (read_signature c.net (c.net.get (signature_url c) none))

unfoldable pub fetch_manifest_inner :
    UpdateClient → Option String → Result UpdateError (Option (ReleaseManifest × Option String))
fetch_manifest_inner c etag = read_feed c (c.net.get c.manifest_url etag)

abbrev pub checked :
    UpdateClient
    → CheckSchedule
    → ℕ
    → Result UpdateError (Option (ReleaseManifest × Option String))
    → Result UpdateError (Option (ReleaseManifest × Option String))
checked c s now (ok (some (m, etag))) =
    elim (check_feed c.net.parse_date m c.channel now (serial_of s.serials c.channel)) [
      | ok u ↦ ok (some (m, etag))
      | err e ↦ err e
    ]
checked c s now (ok none) = ok none
checked c s now (err e) = err e

-- `schedule.channel`, the success and the raised serial
abbrev pub accept :
    UpdateClient → CheckSchedule → ℕ → ReleaseManifest → Option String → CheckSchedule
accept c s now m etag =
    let s' = record_success (record s { channel = some c.channel }) now etag in
    record s' { serials = raise_serial s'.serials c.channel m.serial }

abbrev pub settle_fetch :
    UpdateClient
    → CheckSchedule
    → ℕ
    → Result UpdateError (Option (ReleaseManifest × Option String))
    → CheckSchedule × Result UpdateError (Option ReleaseManifest)
settle_fetch c s now (ok none) = (record_success s now none, ok none)
settle_fetch c s now (ok (some (m, etag))) = (accept c s now m etag, ok (some m))
settle_fetch c s now (err e) = (record_failure s now (c.net.to_string e), err e)

unfoldable pub fetch_manifest :
    UpdateClient
    → CheckSchedule
    → ℕ
    → Bool
    → CheckSchedule × Result UpdateError (Option ReleaseManifest)
unfolding fetch_manifest_inner conditional_etag check_feed
fetch_manifest c s now have_cached =
    if c.net.signing_configured
    then settle_fetch c s now
        (checked c s now (fetch_manifest_inner c (conditional_etag s c.channel have_cached)))
    else (record_failure s now (c.net.to_string no_public_key), err no_public_key)

abbrev pub same_size : Option ℕ → List ℕ → Bool
same_size none bytes = true
same_size (some expected) bytes = length bytes == expected

abbrev pub check_artifact :
    Net → Artifact → Result UpdateError Fetched → Result UpdateError (List ℕ)
check_artifact net a (err e) = err e
check_artifact net a (ok not_modified) = err (http "304")
check_artifact net a (ok (body bytes etag)) =
    if same_size a.size bytes
    then if net.check_hash_bytes bytes a.sha256 then ok bytes else err hash_mismatch
    else err (http "size")

-- The bytes are handed back only with the size and the hash that the feed names.
unfoldable pub fetch_artifact : Net → Artifact → Result UpdateError (List ℕ)
fetch_artifact net a = check_artifact net a (net.get a.url none)
