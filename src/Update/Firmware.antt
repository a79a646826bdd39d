-- ===== src/Update/Firmware.antt =====
-- The firmware updater's decisions (desktop/crates/opad-update/src/firmware.rs).
use opad.Prelude.Text.{trim, same_codes}
use opad.Update.Version.{is_newer, is_empty_text}
use opad.Update.Gate.{DeferReason}
use opad.Update.Manifest.{
  Artifact, Component, ReleaseManifest, UpdateError, no_artifact, component, firmware_key,
  same_kind,
}
use opad.Update.Manifest
use opad.Prelude.{
  ℕ, Bool, true, false, not, ◌&&◌, Option, none, some, List, [], ◌++◌, ◌∷◌, String, str_eq, find,
  Result, ok, err, if◌then◌else◌,
}

abbrev pub firmware_target : String
firmware_target = "esp32s3"

pub data FirmwareAction : Type 0 where
  unknown : FirmwareAction
  up_to_date : List ℕ → FirmwareAction
  defer : DeferReason → FirmwareAction
  needs_newer_app : List ℕ → List ℕ → FirmwareAction
  available : List ℕ → List ℕ → Option String → Artifact → FirmwareAction

pub data Blocker : Type 0 where
  not_connected counters_not_synced no_consent no_storage needs_full_reflash : Blocker
  not_idle : DeferReason → Blocker

pub record Preconditions : Type 0 where
  pub connected : Bool
  pub gate : Result DeferReason Unit
  pub counters_synced : Bool
  pub storage_available : Bool
  pub consented : Bool
  pub running_from_ota_0 : Bool

unfoldable pub is_ota_0 : Option String → Bool
is_ota_0 none = false
is_ota_0 (some partition) = str_eq partition "ota_0"

abbrev pub gate_blocker : Result DeferReason Unit → List Blocker
gate_blocker (ok u) = []
gate_blocker (err reason) = not_idle reason ∷ []

unfoldable pub blockers : Preconditions → List Blocker
blockers p =
    (if p.connected
      then if p.running_from_ota_0 then [] else needs_full_reflash ∷ []
      else not_connected ∷ [])
    ++ (gate_blocker p.gate
        ++ ((if p.storage_available
              then if p.counters_synced then [] else counters_not_synced ∷ []
              else no_storage ∷ [])
            ++ (if p.consented then [] else no_consent ∷ [])))

-- `map(str::trim).filter(|v| !v.is_empty_text())`
abbrev pub filled : Option (List ℕ) → Option (List ℕ)
filled none = none
filled (some v) = if is_empty_text (trim v) then none else some (trim v)

abbrev pub board_fits : Option (List ℕ) → Option (List ℕ) → Bool
board_fits (some wanted) (some own) = same_codes wanted own
board_fits (some wanted) none = true
board_fits none own = true

abbrev pub image_fits : Option (List ℕ) → Artifact → Bool
image_fits board a =
    str_eq a.target firmware_target
    && (same_kind a.kind Manifest.firmware && board_fits a.board board)

abbrev pub too_old : Option (List ℕ) → List ℕ → Bool
too_old none app_version = false
too_old (some min_app) app_version = is_newer min_app app_version

abbrev pub offer_firmware :
    List ℕ
    → Component
    → Result DeferReason Unit
    → Option Artifact
    → Result UpdateError FirmwareAction
offer_firmware installed c (err reason) a = ok (defer reason)
offer_firmware installed c (ok u) none = err (no_artifact firmware_key)
offer_firmware installed c (ok u) (some a) = ok (available installed c.version c.notes a)

abbrev pub text_or_nil : Option (List ℕ) → List ℕ
text_or_nil none = []
text_or_nil (some t) = t

abbrev pub judge_firmware :
    List ℕ
    → Option (List ℕ)
    → List ℕ
    → Result DeferReason Unit
    → Option Component
    → Result UpdateError FirmwareAction
judge_firmware installed board app_version gate none = ok (up_to_date installed)
judge_firmware installed board app_version gate (some c) =
    if not (is_newer c.version installed)
    then ok (up_to_date installed)
    else if too_old c.min_app app_version
    then ok (needs_newer_app c.version (text_or_nil c.min_app))
    else offer_firmware installed c gate (find (image_fits (filled board)) c.artifacts)

abbrev pub known :
    ReleaseManifest
    → Option (List ℕ)
    → Option (List ℕ)
    → List ℕ
    → Result DeferReason Unit
    → Result UpdateError FirmwareAction
known m none board app_version gate = ok unknown
known m (some installed) board app_version gate =
    judge_firmware installed board app_version gate (component m firmware_key)

unfoldable pub plan :
    ReleaseManifest
    → Option (List ℕ)
    → Option (List ℕ)
    → List ℕ
    → Result DeferReason Unit
    → Result UpdateError FirmwareAction
unfolding component is_newer
plan m installed board app_version gate = known m (filled installed) board app_version gate
