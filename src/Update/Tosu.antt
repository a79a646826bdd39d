-- ===== src/Update/Tosu.antt =====
-- The tosu updater's decisions (desktop/crates/opad-update/src/tosu.rs).
use opad.Prelude.Text.{trim}
use opad.Update.Version.{is_newer, is_empty_text}
use opad.Update.Gate.{DeferReason}
use opad.Update.Origin.{InstallOrigin, owns_bundled_tosu}
use opad.Update.Manifest.{
  Artifact, Component, ReleaseManifest, UpdateError, no_artifact, component, artifact_for, tosu_key,
}
use opad.Prelude.{
  ℕ, Bool, true, not, ◌&&◌, Option, none, some, List, [], String, ltb, unwrap_or, Result, ok, err,
  if◌then◌else◌,
}

pub data TosuAction : Type 0 where
  up_to_date : List ℕ → TosuAction
  notify_only : List ℕ → List ℕ → TosuAction
  defer : DeferReason → TosuAction
  install : List ℕ → List ℕ → ℕ → Artifact → TosuAction

unfoldable pub is_newer_build : Component → List ℕ → ℕ → Bool
is_newer_build c installed installed_revision =
    if is_newer c.version installed
    then true
    else not (is_newer installed c.version) && ltb installed_revision c.revision

abbrev pub swap :
    List ℕ → Component → Result DeferReason Unit → Option Artifact → Result UpdateError TosuAction
swap installed c (err reason) a = ok (defer reason)
swap installed c (ok u) none = err (no_artifact tosu_key)
swap installed c (ok u) (some a) = ok (install installed c.version c.revision a)

abbrev pub judge_tosu :
    List ℕ
    → ℕ
    → InstallOrigin
    → Result DeferReason Unit
    → Option Artifact
    → Option Component
    → Result UpdateError TosuAction
judge_tosu installed revision origin gate a none = ok (up_to_date installed)
judge_tosu installed revision origin gate a (some c) =
    if not (is_empty_text installed) && not (is_newer_build c installed revision)
    then ok (up_to_date installed)
    else if owns_bundled_tosu origin
    then swap installed c gate a
    else ok (notify_only installed c.version)

unfoldable pub plan :
    ReleaseManifest
    → Option (List ℕ)
    → ℕ
    → InstallOrigin
    → String
    → Result DeferReason Unit
    → Result UpdateError TosuAction
unfolding is_newer_build owns_bundled_tosu component artifact_for
plan m installed revision origin target gate =
    judge_tosu (trim (unwrap_or installed [])) revision origin gate
      (artifact_for m tosu_key target none) (component m tosu_key)
