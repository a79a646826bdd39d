-- ===== src/Update/App.antt =====
-- The app updater's decisions (desktop/crates/opad-update/src/app.rs).
use opad.Update.Version.{is_newer}
use opad.Update.Gate.{DeferReason}
use opad.Update.Origin.{
  InstallOrigin, ApplyPolicy, PackageManager, apply_policy, direct_replace, package_manager, apt,
  dnf,
}
use opad.Update.Manifest.{
  Artifact, ArtifactKind, Component, ReleaseManifest, UpdateError, no_artifact, component,
  artifact_for, app_key,
}
use opad.Prelude.{
  ℕ, Bool, true, false, not, Option, none, some, List, [], ◌∷◌, String, Result, ok, err,
  if◌then◌else◌,
}

pub data AppAction : Type 0 where
  up_to_date : List ℕ → AppAction
  notify : List ℕ → Option String → AppAction
  defer : DeferReason → AppAction
  available : List ℕ → List ℕ → Option String → Artifact → ApplyPolicy → AppAction

unfoldable pub wanted_kind : ApplyPolicy → InstallOrigin → Option ArtifactKind
wanted_kind ApplyPolicy.installer origin = some ArtifactKind.installer
wanted_kind (package_manager apt) origin = some ArtifactKind.deb
wanted_kind (package_manager dnf) origin = some ArtifactKind.rpm
wanted_kind direct_replace InstallOrigin.app_image = some ArtifactKind.binary
wanted_kind direct_replace _ = some ArtifactKind.archive
wanted_kind ApplyPolicy.notify_only origin = none

abbrev pub is_notify_only : ApplyPolicy → Bool
is_notify_only ApplyPolicy.notify_only = true
is_notify_only _ = false

abbrev pub offer_app :
    List ℕ
    → Component
    → ApplyPolicy
    → Result DeferReason Unit
    → Option Artifact
    → Result UpdateError AppAction
offer_app installed c policy (err reason) a = ok (defer reason)
offer_app installed c policy (ok u) none = err (no_artifact app_key)
offer_app installed c policy (ok u) (some a) = ok (available installed c.version c.notes a policy)

abbrev pub judge_app :
    List ℕ
    → ApplyPolicy
    → Result DeferReason Unit
    → Option Artifact
    → Option Component
    → Result UpdateError AppAction
judge_app installed policy gate a none = ok (up_to_date installed)
judge_app installed policy gate a (some c) =
    if not (is_newer c.version installed)
    then ok (up_to_date installed)
    else if is_notify_only policy
    then ok (notify c.version c.notes)
    else offer_app installed c policy gate a

unfoldable pub plan :
    ReleaseManifest
    → List ℕ
    → InstallOrigin
    → String
    → Result DeferReason Unit
    → Result UpdateError AppAction
unfolding apply_policy wanted_kind component artifact_for is_newer
plan m installed origin target gate =
    let policy = apply_policy origin in
    judge_app installed policy gate (artifact_for m app_key target (wanted_kind policy origin))
      (component m app_key)

-- `file` is the downloaded file's path.
unfoldable pub apply_command : ApplyPolicy → String → Option (List String)
apply_command ApplyPolicy.installer file =
    some (file ∷ "/SILENT" ∷ "/NORESTART" ∷ "/RELAUNCH=1" ∷ [])
apply_command (package_manager apt) file =
    some ("pkexec" ∷ "apt-get" ∷ "install" ∷ "-y" ∷ file ∷ [])
apply_command (package_manager dnf) file = some ("pkexec" ∷ "dnf" ∷ "install" ∷ "-y" ∷ file ∷ [])
apply_command direct_replace file = none
apply_command ApplyPolicy.notify_only file = none

unfoldable pub repo_upgrade_commands : PackageManager → Bool → List (List String)
repo_upgrade_commands pm true =
    ("pkcon" ∷ "refresh" ∷ []) ∷ ("pkcon" ∷ "-y" ∷ "update" ∷ "opad" ∷ []) ∷ []
repo_upgrade_commands apt false =
    ("pkexec" ∷ "/bin/sh" ∷ "-c" ∷ "apt-get update && apt-get install --only-upgrade -y opad" ∷ [])
    ∷ []
repo_upgrade_commands dnf false =
    ("pkexec" ∷ "dnf" ∷ "upgrade" ∷ "-y" ∷ "--refresh" ∷ "opad" ∷ []) ∷ []
