-- ===== src/Model/Config/Valid.antt =====
-- `DeviceConfig::validate` accepts exactly the configurations in range.
use opad.Prelude.{◌≡◌, ◌↔◌, Option, none, some, String, arith, ok}
use opad.Model.Keys.{validate_key_gpios_iff}
use opad.Model.Swipe.{validate_swipe_iff}
use opad.Model.HallEffect
use opad.Model.HallEffect.{HeKeyConfig}
use opad.Model.Config.{
  DeviceConfig, validate, validate_ranges, validate_swipes, validate_modifiers, validate_wiring,
  validate_he, HasRanges, HasSwipes, HasModifiers, HasWiring, HeInTravel, IsValidConfig,
}

ranges_iff : (c : DeviceConfig) → (validate_ranges c ≡ ok tt) ↔ HasRanges c
unfolding validate_ranges
ranges_iff c = ground arith

swipes_iff : (c : DeviceConfig) → (validate_swipes c ≡ ok tt) ↔ HasSwipes c
unfolding validate_swipes
swipes_iff c = ground (
  arith,
  validate_swipe_iff "left" c.swipe_left_action c.swipe_left_key,
  validate_swipe_iff "right" c.swipe_right_action c.swipe_right_key,
  validate_swipe_iff "up" c.swipe_up_action c.swipe_up_key,
  validate_swipe_iff "down" c.swipe_down_action c.swipe_down_key,
)

modifiers_iff : (c : DeviceConfig) → (validate_modifiers c ≡ ok tt) ↔ HasModifiers c
unfolding validate_modifiers
modifiers_iff c = ground arith

he_iff : (he : Option HeKeyConfig) (name : String) → (validate_he he name ≡ ok tt) ↔ HeInTravel he
unfolding HallEffect.validate
he_iff none name = ground arith
he_iff (some he) name = ground arith

wiring_iff : (c : DeviceConfig) → (validate_wiring c ≡ ok tt) ↔ HasWiring c
unfolding validate_wiring
wiring_iff c = ground (
  arith,
  he_iff c.key1_he "key 1",
  he_iff c.key2_he "key 2",
  validate_key_gpios_iff c.key1_gpio c.key2_gpio,
)

-- A configuration is accepted exactly if every field is in its range: both keys, the debounce time,
-- the brightness, the sleep time and the rate, the key and the modifiers of each swipe, each Hall
-- Effect share, and two different supported pins.
pub validate_config_iff : (c : DeviceConfig) → (validate c ≡ ok tt) ↔ IsValidConfig c
unfolding validate IsValidConfig
validate_config_iff c = ground (arith, ranges_iff c, swipes_iff c, modifiers_iff c, wiring_iff c)
