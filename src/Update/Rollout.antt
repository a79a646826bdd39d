-- ===== src/Update/Rollout.antt =====
-- Gradual rollout (desktop/crates/opad-update/src/rollout.rs). The SHA-256 of a text, its first eight
-- bytes read as a number, is the parameter `digest`.
use opad.Update.Manifest.{Component, ReleaseManifest, beta}
use opad.Prelude.{
  ℕ, ◌%◌, Bool, true, false, Option, none, some, List, String, str_eq, ltb, leb, keep,
  if◌then◌else◌,
}

module _ (digest : String → String → List ℕ → ℕ) where
  unfoldable pub bucket : String → String → List ℕ → ℕ
  bucket install_id name version = digest install_id name version % 100

  abbrev pub in_bucket : Option String → String → List ℕ → ℕ → Bool
  in_bucket none name version percent = false
  in_bucket (some id) name version percent = ltb (bucket id name version) percent

  abbrev pub rolled_out : Option ℕ → Bool → Bool
  rolled_out none inside = true
  rolled_out (some percent) inside = if leb 100 percent then true else inside

  abbrev pub percent_of : Option ℕ → ℕ
  percent_of none = 100
  percent_of (some percent) = percent

  unfoldable pub is_offered : String → String → Component → Option String → Bool
  is_offered feed_channel name c install_id =
      if str_eq feed_channel beta
      then true
      else rolled_out c.rollout (in_bucket install_id name c.version (percent_of c.rollout))

  unfoldable pub for_install : ReleaseManifest → Option String → ReleaseManifest
  unfolding is_offered
  for_install m install_id = record m {
    components = keep (λ e. is_offered m.channel e.0 e.1 install_id) m.components;
  }
