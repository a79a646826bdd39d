-- ===== src/Update/Manifest.antt =====
-- The signed update feed and its checks (desktop/crates/opad-update/src/manifest.rs, with `UpdateError`
-- of lib.rs). Versions and boards are lists of code points. An instant is a count of nanoseconds.
use opad.Prelude.{
  ℕ, Bool, true, false, not, ◌&&◌, Option, none, some, List, [], ◌∷◌, String, str_eq, ltb, find,
  Result, ok, err, if◌then◌else◌,
}

pub data ArtifactKind : Type 0 where
  installer deb rpm archive binary firmware : ArtifactKind

abbrev pub same_kind : ArtifactKind → ArtifactKind → Bool
same_kind ArtifactKind.installer ArtifactKind.installer = true
same_kind ArtifactKind.deb ArtifactKind.deb = true
same_kind ArtifactKind.rpm ArtifactKind.rpm = true
same_kind ArtifactKind.archive ArtifactKind.archive = true
same_kind ArtifactKind.binary ArtifactKind.binary = true
same_kind ArtifactKind.firmware ArtifactKind.firmware = true
same_kind _ _ = false

pub record Artifact : Type 0 where
  pub target : String
  pub kind : ArtifactKind
  pub url : String
  pub sha256 : String
  pub size : Option ℕ
  pub board : Option (List ℕ)

pub record Component : Type 0 where
  pub version : List ℕ
  pub revision : ℕ
  pub tag : Option String
  pub upstream_tag : Option String
  pub notes : Option String
  pub notes_url : Option String
  pub min_app : Option (List ℕ)
  pub rollout : Option ℕ
  pub artifacts : List Artifact

pub record ReleaseManifest : Type 0 where
  pub schema : ℕ
  pub channel : String
  pub serial : ℕ
  pub generated : String
  pub expires : Option String
  pub components : List (String × Component)

-- What the text of `UpdateError::Feed` says.
pub data FeedFault : Type 0 where
  wrong_channel no_expiry unreadable_expiry expired replayed : FeedFault

pub data UpdateError : Type 0 where
  io manifest no_public_key bad_signature hash_mismatch unsupported_schema : UpdateError
  http : String → UpdateError
  feed : FeedFault → UpdateError
  no_artifact : String → UpdateError

abbrev pub supported_schema : ℕ
supported_schema = 2

abbrev pub stable : String
stable = "stable"

abbrev pub beta : String
beta = "beta"

abbrev pub app_key : String
app_key = "app"

abbrev pub tosu_key : String
tosu_key = "tosu"

abbrev pub firmware_key : String
firmware_key = "firmware"

abbrev pub check_expiry : Option (Option ℕ) → ℕ → Result UpdateError Unit
check_expiry none now = err (UpdateError.feed FeedFault.no_expiry)
check_expiry (some none) now = err (UpdateError.feed FeedFault.unreadable_expiry)
check_expiry (some (some t)) now =
    if ltb t now then err (UpdateError.feed FeedFault.expired) else ok tt

abbrev pub check_serial : ℕ → Option ℕ → Result UpdateError Unit
check_serial serial none = ok tt
check_serial serial (some seen) =
    if ltb serial seen then err (UpdateError.feed FeedFault.replayed) else ok tt

abbrev pub map_option {ℓ κ} : {A : Type ℓ} {B : Type κ} → (A → B) → Option A → Option B
map_option f none = none
map_option f (some a) = some (f a)

-- The dates are read by `parse_date`, chrono's `parse_from_rfc3339`.
unfoldable pub check_feed :
    (String → Option ℕ) → ReleaseManifest → String → ℕ → Option ℕ → Result UpdateError Unit
check_feed parse_date m channel now seen =
    if not (str_eq m.channel channel)
    then err (UpdateError.feed FeedFault.wrong_channel)
    else elim (check_expiry (map_option parse_date m.expires) now) [
      | ok u ↦ check_serial m.serial seen
      | err e ↦ err e
    ]

abbrev pub get_component : List (String × Component) → String → Option Component
get_component [] name = none
get_component ((n, c) ∷ rest) name =
    let other = get_component rest name in if str_eq n name then some c else other

-- `ReleaseManifest::component`
unfoldable pub component : ReleaseManifest → String → Option Component
component m name = get_component m.components name

abbrev pub fits : String → Option ArtifactKind → Artifact → Bool
fits target none a = str_eq a.target target
fits target (some k) a = str_eq a.target target && same_kind a.kind k

abbrev pub artifacts_of : Option Component → List Artifact
artifacts_of none = []
artifacts_of (some c) = c.artifacts

unfoldable pub artifact_for :
    ReleaseManifest → String → String → Option ArtifactKind → Option Artifact
unfolding component
artifact_for m name target kind = find (fits target kind) (artifacts_of (component m name))
