-- ===== src/Model/Backup/Export.antt =====
-- The document that an export writes, and the names of its keys
-- (desktop/crates/opad-model/src/lib.rs).
use opad.Model.Counters.{CounterState}
use opad.Model.Config.{DeviceConfig}
use opad.Daemon.State.{DeviceInfo}
use opad.Model.Backup.{JsonBackup}
use opad.Prelude.{
  ℕ, zero, suc, ◌+◌, ◌-◌, ◌/◌, ◌%◌, ◌&&◌, List, [], ◌∷◌, ◌++◌, ltb, leb, ◌==◌, if◌then◌else◌,
}

-- `{:X}` of one digit
abbrev pub hex_letter : ℕ → ℕ
hex_letter d = if ltb d 10 then b'0' + d else b'A' + (d - 10)

-- `{:X}`; a `u32` has at most eight digits, the fuel.
unfoldable pub hex_digits : ℕ → ℕ → List ℕ
hex_digits zero n = []
hex_digits (suc fuel) n =
    let rest = hex_digits fuel (n / 16) in if n == 0 then [] else rest ++ (hex_letter (n % 16) ∷ [])

-- the `02` of `{:02X}`
abbrev pub padded : List ℕ → List ℕ
padded [] = b'0' ∷ b'0' ∷ []
padded (c ∷ []) = b'0' ∷ c ∷ []
padded (c ∷ d ∷ cs) = c ∷ d ∷ cs

unfoldable pub hid_usage_to_char : ℕ → List ℕ
unfolding hex_digits
hid_usage_to_char usage =
    if leb 0x04 usage && leb usage 0x1D
    then (b'A' + (usage - 0x04)) ∷ []
    else if leb 0x1E usage && leb usage 0x27
    then (b'0' + (usage - 0x1E + 1) % 10) ∷ []
    else b'0' ∷ b'x' ∷ padded (hex_digits 8 usage)

-- `JsonBackup::new` at the time `now`.
unfoldable pub new_backup : ℕ → DeviceInfo → CounterState → DeviceConfig → JsonBackup
unfolding hid_usage_to_char
new_backup now info counters config = record {
  format_version = 1;
  exported_at = now;
  device_id = info.device_id;
  board_profile = info.board_profile;
  counter_generation = counters.counter_generation;
  lifetime_key1 = counters.lifetime_key1;
  lifetime_key2 = counters.lifetime_key2;
  key1 = hid_usage_to_char config.key1_hid_usage;
  key2 = hid_usage_to_char config.key2_hid_usage;
  debounce_us = config.debounce_us;
  brightness = config.brightness;
  display_sleep_seconds = config.display_sleep_seconds;
  gameplay_display_hz = config.gameplay_display_hz;
  key1_gpio = config.key1_gpio;
  key2_gpio = config.key2_gpio;
  swipe_left_action = config.swipe_left_action;
  swipe_right_action = config.swipe_right_action;
  swipe_left_key = config.swipe_left_key;
  swipe_right_key = config.swipe_right_key;
  swipe_up_action = config.swipe_up_action;
  swipe_down_action = config.swipe_down_action;
  swipe_up_key = config.swipe_up_key;
  swipe_down_key = config.swipe_down_key;
  swipe_up_modifiers = config.swipe_up_modifiers;
  swipe_down_modifiers = config.swipe_down_modifiers;
  swipe_left_modifiers = config.swipe_left_modifiers;
  swipe_right_modifiers = config.swipe_right_modifiers;
  result_animations = config.result_animations;
}
