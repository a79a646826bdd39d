-- ===== src/Update/Origin.antt =====
-- Who owns the installed files (desktop/crates/opad-update/src/origin.rs).
use opad.Prelude.Text.{codes, trim, same_codes}
use opad.Prelude.{
  ℕ, ◌+◌, Bool, true, false, ◌&&◌, Option, none, some, List, [], ◌∷◌, String, map, leb,
  if◌then◌else◌,
}

pub data InstallOrigin : Type 0 where
  windows deb rpm aur app_image user source unknown : InstallOrigin

pub data PackageManager : Type 0 where
  apt dnf : PackageManager

pub data ApplyPolicy : Type 0 where
  installer direct_replace notify_only : ApplyPolicy
  package_manager : PackageManager → ApplyPolicy

abbrev pub lower : ℕ → ℕ
lower c = if leb b'A' c && leb c b'Z' then c + 32 else c

abbrev pub all_origins : List (String × InstallOrigin)
all_origins =
    ("windows", InstallOrigin.windows)
    ∷ ("deb", InstallOrigin.deb)
    ∷ ("rpm", InstallOrigin.rpm)
    ∷ ("aur", InstallOrigin.aur)
    ∷ ("appimage", InstallOrigin.app_image)
    ∷ ("user", InstallOrigin.user)
    ∷ ("source", InstallOrigin.source)
    ∷ []

abbrev pub read_word : List ℕ → List (String × InstallOrigin) → InstallOrigin
read_word word [] = InstallOrigin.unknown
read_word word ((s, o) ∷ rest) =
    let other = read_word word rest in if same_codes word (codes s) then o else other

-- `InstallOrigin::parse`
unfoldable pub parse : List ℕ → InstallOrigin
parse marker = read_word (map lower (trim marker)) all_origins

unfoldable pub marker : InstallOrigin → Option String
marker InstallOrigin.windows = some "windows"
marker InstallOrigin.deb = some "deb"
marker InstallOrigin.rpm = some "rpm"
marker InstallOrigin.aur = some "aur"
marker InstallOrigin.app_image = some "appimage"
marker InstallOrigin.user = some "user"
marker InstallOrigin.source = some "source"
marker InstallOrigin.unknown = none

unfoldable pub apply_policy : InstallOrigin → ApplyPolicy
apply_policy InstallOrigin.windows = ApplyPolicy.installer
apply_policy InstallOrigin.deb = ApplyPolicy.package_manager PackageManager.apt
apply_policy InstallOrigin.rpm = ApplyPolicy.package_manager PackageManager.dnf
apply_policy InstallOrigin.aur = ApplyPolicy.notify_only
apply_policy InstallOrigin.app_image = ApplyPolicy.direct_replace
apply_policy InstallOrigin.user = ApplyPolicy.direct_replace
apply_policy InstallOrigin.source = ApplyPolicy.notify_only
apply_policy InstallOrigin.unknown = ApplyPolicy.notify_only

unfoldable pub owns_bundled_tosu : InstallOrigin → Bool
owns_bundled_tosu InstallOrigin.windows = true
owns_bundled_tosu InstallOrigin.user = true
owns_bundled_tosu InstallOrigin.app_image = true
owns_bundled_tosu _ = false
