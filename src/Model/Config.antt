-- ===== src/Model/Config.antt =====
-- The pad's configuration and its checks (desktop/crates/opad-model/src/lib.rs, `DeviceConfig`).
pub mod Valid
use opad.Prelude.{
  ℕ, ◌≡◌, ◌≢◌, ◌↔◌, ◌≤◌, ◌<◌, ◌⊎◌, refl, Bool, true, false, not, ◌&&◌, ◌||◌, Option, none, some,
  List, [], ◌∷◌, String, arith, ltb, leb, ◌==◌, if◌then◌else◌, is_some, Result, ok, err, ◌>>◌,
  ◌>>=◌,
}
use opad.Model.Keys.{
  ConfigError, Checked, reject_if, checks_iff, invalid_key1_usage, invalid_key2_usage,
  debounce_range, brightness_range, sleep_range, hz_range, invalid_swipe_modifiers, key_pin,
  validate_key_gpios, validate_key_gpios_iff, default_key1_gpio, default_key2_gpio,
}
use opad.Model.Swipe.{
  SwipeAction, volume_up, volume_down, prev_track, next_track, validate_swipe, IsSwipe,
  validate_swipe_iff,
}
use opad.Model.HallEffect
use opad.Model.Animations.{ResultAnimations, default_animations}
use opad.Model.HallEffect.{HeKeyConfig}

pub record DeviceConfig : Type 0 where
  pub key1_hid_usage : ℕ
  pub key2_hid_usage : ℕ
  pub debounce_us : ℕ
  pub brightness : ℕ
  pub display_sleep_seconds : ℕ
  pub gameplay_display_hz : ℕ
  pub tosu_endpoint : String
  pub key1_gpio : ℕ
  pub key2_gpio : ℕ
  pub swipe_left_action : SwipeAction
  pub swipe_right_action : SwipeAction
  pub swipe_left_key : ℕ
  pub swipe_right_key : ℕ
  pub swipe_up_action : SwipeAction
  pub swipe_down_action : SwipeAction
  pub swipe_up_key : ℕ
  pub swipe_down_key : ℕ
  pub swipe_up_modifiers : ℕ
  pub swipe_down_modifiers : ℕ
  pub swipe_left_modifiers : ℕ
  pub swipe_right_modifiers : ℕ
  pub result_animations : ResultAnimations
  pub key1_he : Option HeKeyConfig
  pub key2_he : Option HeKeyConfig

abbrev pub default_config : DeviceConfig
default_config = record {
  key1_hid_usage = 0x1D;
  key2_hid_usage = 0x1B;
  debounce_us = 5000;
  brightness = 100;
  display_sleep_seconds = 600;
  gameplay_display_hz = 10;
  tosu_endpoint = "ws://127.0.0.1:24050/websocket/v2";
  key1_gpio = default_key1_gpio;
  key2_gpio = default_key2_gpio;
  swipe_left_action = prev_track;
  swipe_right_action = next_track;
  swipe_left_key = 0;
  swipe_right_key = 0;
  swipe_up_action = volume_up;
  swipe_down_action = volume_down;
  swipe_up_key = 0;
  swipe_down_key = 0;
  swipe_up_modifiers = 0;
  swipe_down_modifiers = 0;
  swipe_left_modifiers = 0;
  swipe_right_modifiers = 0;
  result_animations = default_animations;
  key1_he = none;
  key2_he = none;
}

-- `if let Some(he) = &self.key1_he { he.validate(name)?; }`
abbrev pub validate_he : Option HeKeyConfig → String → Checked
validate_he none name = ok tt
validate_he (some he) name = HallEffect.validate he name

unfoldable pub validate_ranges : DeviceConfig → Checked
validate_ranges c = do
  reject_if (ltb c.key1_hid_usage 0x04 || ltb 0xE7 c.key1_hid_usage)
      (invalid_key1_usage c.key1_hid_usage)
  reject_if (ltb c.key2_hid_usage 0x04 || ltb 0xE7 c.key2_hid_usage)
      (invalid_key2_usage c.key2_hid_usage)
  reject_if (ltb c.debounce_us 500 || ltb 20000 c.debounce_us) (debounce_range c.debounce_us)
  reject_if (ltb 100 c.brightness) (brightness_range c.brightness)
  reject_if
      (not (c.display_sleep_seconds == 0)
        && (ltb c.display_sleep_seconds 10 || ltb 86400 c.display_sleep_seconds))
      (sleep_range c.display_sleep_seconds)
  reject_if (ltb c.gameplay_display_hz 1 || ltb 30 c.gameplay_display_hz)
      (hz_range c.gameplay_display_hz)

unfoldable pub validate_swipes : DeviceConfig → Checked
validate_swipes c = do
  validate_swipe "left" c.swipe_left_action c.swipe_left_key
  validate_swipe "right" c.swipe_right_action c.swipe_right_key
  validate_swipe "up" c.swipe_up_action c.swipe_up_key
  validate_swipe "down" c.swipe_down_action c.swipe_down_key

unfoldable pub validate_modifiers : DeviceConfig → Checked
validate_modifiers c = do
  reject_if (ltb 0xFF c.swipe_up_modifiers) (invalid_swipe_modifiers "up" c.swipe_up_modifiers)
  reject_if (ltb 0xFF c.swipe_down_modifiers)
      (invalid_swipe_modifiers "down" c.swipe_down_modifiers)
  reject_if (ltb 0xFF c.swipe_left_modifiers)
      (invalid_swipe_modifiers "left" c.swipe_left_modifiers)
  reject_if (ltb 0xFF c.swipe_right_modifiers)
      (invalid_swipe_modifiers "right" c.swipe_right_modifiers)

unfoldable pub validate_wiring : DeviceConfig → Checked
validate_wiring c = do
  validate_he c.key1_he "key 1"
  validate_he c.key2_he "key 2"
  validate_key_gpios c.key1_gpio c.key2_gpio

unfoldable pub validate : DeviceConfig → Checked
validate c = do validate_ranges c; validate_swipes c; validate_modifiers c; validate_wiring c

pub record HasRanges (c : DeviceConfig) : Type 0 where
  pub key1_usage : (0x04 ≤ c.key1_hid_usage) × (c.key1_hid_usage ≤ 0xE7)
  pub key2_usage : (0x04 ≤ c.key2_hid_usage) × (c.key2_hid_usage ≤ 0xE7)
  pub debounce : (500 ≤ c.debounce_us) × (c.debounce_us ≤ 20000)
  pub brightness : c.brightness ≤ 100
  pub sleep :
      (c.display_sleep_seconds ≡ 0)
      ⊎ ((10 ≤ c.display_sleep_seconds) × (c.display_sleep_seconds ≤ 86400))
  pub hz : (1 ≤ c.gameplay_display_hz) × (c.gameplay_display_hz ≤ 30)

pub record HasSwipes (c : DeviceConfig) : Type 0 where
  pub left : IsSwipe c.swipe_left_action c.swipe_left_key
  pub right : IsSwipe c.swipe_right_action c.swipe_right_key
  pub up : IsSwipe c.swipe_up_action c.swipe_up_key
  pub down : IsSwipe c.swipe_down_action c.swipe_down_key

pub record HasModifiers (c : DeviceConfig) : Type 0 where
  pub up : c.swipe_up_modifiers ≤ 0xFF
  pub down : c.swipe_down_modifiers ≤ 0xFF
  pub left : c.swipe_left_modifiers ≤ 0xFF
  pub right : c.swipe_right_modifiers ≤ 0xFF

-- Every share of a key is at most the whole travel (0.1 % steps).
pub record InTravel (he : HeKeyConfig) : Type 0 where
  pub actuation : he.actuation ≤ 1000
  pub release_hyst : he.release_hyst ≤ 1000
  pub top_reset : he.top_reset ≤ 1000
  pub rt_press : he.rt_press ≤ 1000
  pub rt_release : he.rt_release ≤ 1000
  pub bottom_dead_zone : he.bottom_dead_zone ≤ 1000

abbrev pub HeInTravel : Option HeKeyConfig → Type 0
HeInTravel none = Unit
HeInTravel (some he) = InTravel he

pub record HasWiring (c : DeviceConfig) : Type 0 where
  pub key1_travel : HeInTravel c.key1_he
  pub key2_travel : HeInTravel c.key2_he
  pub key1_pin : is_some (key_pin c.key1_gpio) ≡ true
  pub key2_pin : is_some (key_pin c.key2_gpio) ≡ true
  pub apart : c.key1_gpio ≢ c.key2_gpio

unfoldable pub IsValidConfig : DeviceConfig → Type 0
IsValidConfig c = HasRanges c × HasSwipes c × HasModifiers c × HasWiring c
