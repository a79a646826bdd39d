-- ===== src/Update/Offers.antt =====
-- What an offered update has passed (`plan` of desktop/crates/opad-update/src/firmware.rs, tosu.rs and
-- app.rs).
use opad.Prelude.Text.{trim}
use opad.Update.Version.{is_newer, is_empty_text}
use opad.Update.Version.Order.{is_newer_asym}
use opad.Update.Gate.{DeferReason}
use opad.Update.Origin.{InstallOrigin, ApplyPolicy, owns_bundled_tosu, apply_policy}
use opad.Update.Manifest.{
  Artifact, Component, ReleaseManifest, component, artifact_for, tosu_key, firmware_key, app_key,
}
use opad.Update.Firmware.{filled, too_old, image_fits}
use opad.Update.Fits.{IsUsable, IsFirstFit, too_old-IsUsable, find-IsFirstFit}
use opad.Update.Tosu.{is_newer_build}
use opad.Update.App.{wanted_kind, is_notify_only}
use opad.Update.Firmware
use opad.Update.Tosu
use opad.Update.App
use opad.Prelude.{
  ℕ, ◌⊎◌, ◌≡◌, inl, inr, true, false, ◌&&◌, ◌||◌, not, Option, none, some, List, [], String, Result,
  ok, arith, Option-cases, ltb, unwrap_or, refl,
}

-- The image is the first of the feed's that fits the pad, newer than what the pad runs, usable by
-- this app, and the gate is open.
pub record IsFirmwareOffer (c : Component) (board : Option (List ℕ)) (app_version : List ℕ)
    (gate : Result DeferReason Unit) (from to : List ℕ) (a : Artifact) : Type 0 where
  pub version : c.version ≡ to
  pub newer : is_newer to from ≡ true
  pub no_downgrade : is_newer from to ≡ false
  pub app_is_new_enough : IsUsable c.min_app app_version
  pub gate_open : gate ≡ ok tt
  pub first_that_fits : IsFirstFit (filled board) c.artifacts a

module _ (board : Option (List ℕ)) (app_version : List ℕ) (gate : Result DeferReason Unit)
    (installed from to : List ℕ) (notes : Option String) (a : Artifact) where
  firmware_inv :
      (o : Option Component)
      → Firmware.judge_firmware installed board app_version gate o
        ≡ ok (Firmware.available from to notes a)
      → (c : Component) × (o ≡ some c)
        × (installed ≡ from)
        × IsFirmwareOffer c board app_version gate from to a
  firmware_inv none h = ground arith
  firmware_inv (some c) h = (
    c,
    refl,
    ground arith,
    record {
      version = ground arith;
      newer = ground arith;
      no_downgrade = ground (arith, is_newer_asym c.version installed);
      app_is_new_enough = too_old-IsUsable c.min_app app_version (ground arith);
      gate_open = ground arith;
      first_that_fits = find-IsFirstFit (filled board) c.artifacts a (ground arith);
    },
  )

-- A firmware that is offered comes from the feed's firmware entry: it is newer than what the pad says
-- it runs and no downgrade, the app is not older than it asks for, the gate is open, and the image is
-- the first that is a firmware for the ESP32-S3 and, where it and the pad name a board, for that board.
pub plan-IsFirmwareOffer :
    (m : ReleaseManifest) (installed board : Option (List ℕ)) (app_version : List ℕ)
    (gate : Result DeferReason Unit) (from to : List ℕ) (notes : Option String) (a : Artifact)
    → Firmware.plan m installed board app_version gate ≡ ok (Firmware.available from to notes a)
    → (c : Component) × (component m firmware_key ≡ some c)
      × (filled installed ≡ some from)
      × IsFirmwareOffer c board app_version gate from to a
unfolding Firmware.plan
plan-IsFirmwareOffer m installed board app_version gate from to notes a h =
    elim (Option-cases (filled installed)) [
      | inl e ↦ ground arith
      | inr (v, e) ↦
          let (c, found, same, offer) =
            firmware_inv board app_version gate v from to notes a (component m firmware_key)
              (ground arith) in
          (c, found, cc, offer)
    ]

-- The bundled tosu is replaced only where the install owns it, the gate is open, and the feed's build is
-- newer, or the same version of a higher revision, or none is recorded.
pub record IsTosuSwap (c : Component) (recorded : ℕ) (origin : InstallOrigin)
    (gate : Result DeferReason Unit) (from to : List ℕ) (revision : ℕ) : Type 0 where
  pub version : c.version ≡ to
  pub build : c.revision ≡ revision
  pub owned :
      (origin ≡ InstallOrigin.windows)
      ⊎ ((origin ≡ InstallOrigin.user) ⊎ (origin ≡ InstallOrigin.app_image))
  pub gate_open : gate ≡ ok tt
  pub newer :
      (is_empty_text from
        || (is_newer to from || (not (is_newer from to) && ltb recorded revision)))
      ≡ true
  pub no_downgrade : (not (is_empty_text from) && is_newer from to) ≡ false

module _ (recorded : ℕ) (origin : InstallOrigin) (gate : Result DeferReason Unit)
    (best : Option Artifact) (installed from to : List ℕ) (revision : ℕ) (a : Artifact) where
  tosu_inv :
      (o : Option Component)
      → Tosu.judge_tosu installed recorded origin gate best o ≡ ok (Tosu.install from to revision a)
      → (c : Component) × (o ≡ some c)
        × (best ≡ some a)
        × (installed ≡ from)
        × IsTosuSwap c recorded origin gate from to revision
  unfolding is_newer_build owns_bundled_tosu
  tosu_inv none h = ground arith
  tosu_inv (some c) h =
      (c, refl, ground arith, ground arith, ground (arith, is_newer_asym c.version installed))

-- A tosu build is installed only from the feed's entry and for this platform, over a binary that OPad
-- owns, with the gate open, and never as a downgrade of the recorded version.
pub plan-IsTosuSwap :
    (m : ReleaseManifest) (installed : Option (List ℕ)) (recorded : ℕ) (origin : InstallOrigin)
    (target : String) (gate : Result DeferReason Unit) (from to : List ℕ) (revision : ℕ)
    (a : Artifact)
    → Tosu.plan m installed recorded origin target gate ≡ ok (Tosu.install from to revision a)
    → (c : Component) × (component m tosu_key ≡ some c)
      × (artifact_for m tosu_key target none ≡ some a)
      × (trim (unwrap_or installed []) ≡ from)
      × IsTosuSwap c recorded origin gate from to revision
unfolding Tosu.plan
plan-IsTosuSwap m installed recorded origin target gate from to revision a h =
    tosu_inv recorded origin gate (artifact_for m tosu_key target none)
      (trim (unwrap_or installed [])) from to revision a (component m tosu_key) h

-- The app's offer: newer, from files that this install may change, with the gate open.
pub record IsAppOffer (c : Component) (origin : InstallOrigin) (gate : Result DeferReason Unit)
    (from to : List ℕ) (policy : ApplyPolicy) : Type 0 where
  pub version : c.version ≡ to
  pub policy_of : apply_policy origin ≡ policy
  pub ours_to_change : is_notify_only policy ≡ false
  pub gate_open : gate ≡ ok tt
  pub newer : is_newer to from ≡ true
  pub no_downgrade : is_newer from to ≡ false

module _ (origin : InstallOrigin) (gate : Result DeferReason Unit) (best : Option Artifact)
    (installed from to : List ℕ) (notes : Option String) (a : Artifact) (policy : ApplyPolicy) where
  app_inv :
      (o : Option Component)
      → App.judge_app installed (apply_policy origin) gate best o
        ≡ ok (App.available from to notes a policy)
      → (c : Component) × (o ≡ some c)
        × (best ≡ some a)
        × (installed ≡ from)
        × IsAppOffer c origin gate from to policy
  app_inv none h = ground arith
  app_inv (some c) h =
      (c, refl, ground arith, ground arith, ground (arith, is_newer_asym c.version installed))

-- An app update is offered only from the feed's entry, with the file for this platform and packaging,
-- where this install may change its files, with the gate open, and never as a downgrade.
pub plan-IsAppOffer :
    (m : ReleaseManifest) (installed : List ℕ) (origin : InstallOrigin) (target : String)
    (gate : Result DeferReason Unit) (from to : List ℕ) (notes : Option String) (a : Artifact)
    (policy : ApplyPolicy)
    → App.plan m installed origin target gate ≡ ok (App.available from to notes a policy)
    → (c : Component) × (component m app_key ≡ some c)
      × (artifact_for m app_key target (wanted_kind (apply_policy origin) origin) ≡ some a)
      × (installed ≡ from)
      × IsAppOffer c origin gate from to policy
unfolding App.plan
plan-IsAppOffer m installed origin target gate from to notes a policy h =
    app_inv origin gate (artifact_for m app_key target (wanted_kind (apply_policy origin) origin))
      installed from to notes a policy (component m app_key) h
