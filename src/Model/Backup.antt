-- ===== src/Model/Backup.antt =====
-- The backup document, its checks and the key names that it uses
-- (desktop/crates/opad-model/src/lib.rs). Keys are lists of code points; `to_uppercase` is Unicode's,
-- a parameter, and a time is a count of milliseconds.
pub mod Export
pub mod Names
pub mod Accepted
use opad.Prelude.Text.{trim}
use opad.Model.Swipe.{SwipeAction}
use opad.Model.Animations.{ResultAnimations}
use opad.Model.Config.{DeviceConfig, default_config}
use opad.Model.Config
use opad.Prelude.{
  unwrap_or, ℕ, ◌+◌, ◌-◌, ◌*◌, ◌^◌, not, ◌&&◌, Option, none, some, List, [], ◌∷◌, String, str_eq,
  ltb, leb, ◌==◌, then_some, Result, ok, err, if◌then◌else◌,
}

-- The document's three parts, device, stats and config, stand in one record.
pub record JsonBackup : Type 0 where
  pub format_version : ℕ
  pub exported_at : ℕ
  pub device_id : String
  pub board_profile : String
  pub counter_generation : ℕ
  pub lifetime_key1 : ℕ
  pub lifetime_key2 : ℕ
  pub key1 : List ℕ
  pub key2 : List ℕ
  pub debounce_us : ℕ
  pub brightness : ℕ
  pub display_sleep_seconds : ℕ
  pub gameplay_display_hz : ℕ
  pub key1_gpio : ℕ
  pub key2_gpio : ℕ
  pub swipe_left_action : SwipeAction
  pub swipe_right_action : SwipeAction
  pub swipe_left_key : ℕ
  pub swipe_right_key : ℕ
  pub swipe_up_action : SwipeAction
  pub swipe_down_action : SwipeAction
  pub swipe_up_key : ℕ
  pub swipe_down_key : ℕ
  pub swipe_up_modifiers : ℕ
  pub swipe_down_modifiers : ℕ
  pub swipe_left_modifiers : ℕ
  pub swipe_right_modifiers : ℕ
  pub result_animations : ResultAnimations

-- One ASCII letter or digit.
abbrev pub single_usage : ℕ → Option ℕ
single_usage c =
    if (leb b'A' c && leb c b'Z')
    then some (0x04 + (c - b'A'))
    else if (leb b'a' c && leb c b'z')
    then some (0x04 + (c - b'A'))
    else if c == b'0'
    then some 0x27
    else then_some (leb b'1' c && leb c b'9') (0x1E + (c - b'1'))

abbrev pub hex_digit : ℕ → Option ℕ
hex_digit c =
    if (leb b'0' c && leb c b'9')
    then some (c - b'0')
    else if (leb b'A' c && leb c b'F')
    then some (c - b'A' + 10)
    else then_some (leb b'a' c && leb c b'f') (c - b'a' + 10)

abbrev pub next_digit : Option ℕ → Option ℕ → Option ℕ
next_digit none d = none
next_digit (some acc) none = none
next_digit (some acc) (some d) = then_some (ltb (acc * 16 + d) (2 ^ 32)) (acc * 16 + d)

unfoldable pub hex_value : Option ℕ → List ℕ → Option ℕ
hex_value acc [] = acc
hex_value acc (c ∷ cs) = hex_value (next_digit acc (hex_digit c)) cs

-- `u32::from_str_radix(_, 16)`, which takes one leading `+` and no empty text
abbrev pub hex_number : List ℕ → Option ℕ
hex_number [] = none
hex_number (c ∷ []) = hex_value (some 0) (c ∷ [])
hex_number (c ∷ d ∷ cs) =
    if c == b'+' then hex_value (some 0) (d ∷ cs) else hex_value (some 0) (c ∷ d ∷ cs)

abbrev pub prefixed : List ℕ → Option ℕ
prefixed [] = none
prefixed (c ∷ []) = none
prefixed (c ∷ d ∷ cs) = if c == b'0' && d == b'X' then hex_number cs else none

-- A text of one byte is one ASCII character.
abbrev pub usage_of : List ℕ → Option ℕ
usage_of [] = none
usage_of (c ∷ []) = single_usage c
usage_of (c ∷ d ∷ cs) = prefixed (c ∷ d ∷ cs)

unfoldable pub char_to_hid_usage : (List ℕ → List ℕ) → List ℕ → Option ℕ
unfolding hex_value
char_to_hid_usage to_uppercase ch = usage_of (to_uppercase (trim ch))

-- The configuration that a backup stands for, with what it does not hold.
abbrev pub backup_config : JsonBackup → ℕ → ℕ → String → DeviceConfig
backup_config b k1 k2 endpoint = record {
  key1_hid_usage = k1;
  key2_hid_usage = k2;
  debounce_us = b.debounce_us;
  brightness = b.brightness;
  display_sleep_seconds = b.display_sleep_seconds;
  gameplay_display_hz = b.gameplay_display_hz;
  tosu_endpoint = endpoint;
  key1_gpio = b.key1_gpio;
  key2_gpio = b.key2_gpio;
  swipe_left_action = b.swipe_left_action;
  swipe_right_action = b.swipe_right_action;
  swipe_left_key = b.swipe_left_key;
  swipe_right_key = b.swipe_right_key;
  swipe_up_action = b.swipe_up_action;
  swipe_down_action = b.swipe_down_action;
  swipe_up_key = b.swipe_up_key;
  swipe_down_key = b.swipe_down_key;
  swipe_up_modifiers = b.swipe_up_modifiers;
  swipe_down_modifiers = b.swipe_down_modifiers;
  swipe_left_modifiers = b.swipe_left_modifiers;
  swipe_right_modifiers = b.swipe_right_modifiers;
  result_animations = b.result_animations;
  key1_he = none;
  key2_he = none;
}

-- The configuration that an import applies; the pad's keys are Z and X where a name is not read.
unfoldable pub read_config : (List ℕ → List ℕ) → JsonBackup → String → DeviceConfig
unfolding char_to_hid_usage
read_config to_uppercase b endpoint =
    backup_config b (unwrap_or (char_to_hid_usage to_uppercase b.key1) 0x1D)
      (unwrap_or (char_to_hid_usage to_uppercase b.key2) 0x1B) endpoint

pub data BackupError : Type 0 where
  unsupported_version unsupported_board key1_too_large key2_too_large in_the_future invalid_key1
        invalid_key2 invalid_config :
      BackupError

abbrev pub check_config : JsonBackup → Option ℕ → Option ℕ → Result BackupError Unit
check_config b none k2 = err invalid_key1
check_config b (some k1) none = err invalid_key2
check_config b (some k1) (some k2) =
    elim (Config.validate (backup_config b k1 k2 default_config.tosu_endpoint)) [
      | ok u ↦ ok tt
      | err e ↦ err invalid_config
    ]

-- `now` is the clock, and a day has 86,400,000 milliseconds.
unfoldable pub validate_backup : (List ℕ → List ℕ) → ℕ → JsonBackup → Result BackupError Unit
unfolding char_to_hid_usage Config.validate
validate_backup to_uppercase now b =
    if not (b.format_version == 1)
    then err unsupported_version
    else if not (str_eq b.board_profile "waveshare_esp32s3_touch_lcd_2")
    then err unsupported_board
    else if ltb (2 ^ 63 - 1) b.lifetime_key1
    then err key1_too_large
    else if ltb (2 ^ 63 - 1) b.lifetime_key2
    then err key2_too_large
    else if ltb (now + 86400000) b.exported_at
    then err in_the_future
    else check_config b (char_to_hid_usage to_uppercase b.key1)
        (char_to_hid_usage to_uppercase b.key2)
