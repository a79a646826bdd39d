-- ===== src/Model/Backup/Accepted.antt =====
-- A backup that the daemon exports passes the checks of its import
-- (desktop/crates/opad-model/src/lib.rs).
use opad.Model.Counters.{CounterState}
use opad.Model.Config.{
  DeviceConfig, HasRanges, HasSwipes, HasModifiers, HasWiring, IsValidConfig, default_config,
}
use opad.Model.Config
use opad.Model.Config.Valid.{validate_config_iff}
use opad.Daemon.State.{DeviceInfo}
use opad.Model.Backup.{
  invalid_config, validate_backup, backup_config, read_config, check_config, char_to_hid_usage,
}
use opad.Model.Backup.Export.{new_backup, hid_usage_to_char}
use opad.Model.Backup.Names.{UppercasesAscii, char_to_hid_usage-hid_usage_to_char}
use opad.Prelude.{
  ℕ, ◌+◌, ◌^◌, ◌≤◌, ◌<◌, ◌≡◌, ap, ◌∙◌, some, none, String, ok, err, arith, List, unwrap_or,
  str_eq_iff,
}

-- What a backup of a configuration stands for: it has no endpoint and no Hall Effect settings.
abbrev pub without_he : DeviceConfig → String → DeviceConfig
without_he c endpoint = record c { tosu_endpoint = endpoint; key1_he = none; key2_he = none }

without_he-IsValidConfig :
    (c : DeviceConfig) (endpoint : String) → IsValidConfig c → IsValidConfig (without_he c endpoint)
unfolding IsValidConfig
without_he-IsValidConfig c endpoint (r, s, m, w) = (
  record {
    key1_usage = r.key1_usage;
    key2_usage = r.key2_usage;
    debounce = r.debounce;
    brightness = r.brightness;
    sleep = r.sleep;
    hz = r.hz;
  },
  record { left = s.left; right = s.right; up = s.up; down = s.down },
  record { up = m.up; down = m.down; left = m.left; right = m.right },
  record {
    key1_travel = tt;
    key2_travel = tt;
    key1_pin = w.key1_pin;
    key2_pin = w.key2_pin;
    apart = w.apart;
  },
)

module _ (now : ℕ) (info : DeviceInfo) (counters : CounterState) (c : DeviceConfig) where
  check_config-new_backup :
      IsValidConfig c
      → check_config
          (new_backup now info counters c)
          (some c.key1_hid_usage)
          (some c.key2_hid_usage)
        ≡ ok tt
  unfolding new_backup
  check_config-new_backup v =
      let e =
        (validate_config_iff (without_he c default_config.tosu_endpoint)).1
          (without_he-IsValidConfig c default_config.tosu_endpoint v) in
      ap (λ r. elim r [ ok u ↦ ok tt | err f ↦ err invalid_config ]) e

  key1_read :
      (to_uppercase : List ℕ → List ℕ)
      → UppercasesAscii to_uppercase
      → IsValidConfig c
      → char_to_hid_usage to_uppercase (hid_usage_to_char c.key1_hid_usage) ≡ some c.key1_hid_usage
  unfolding IsValidConfig
  key1_read to_uppercase h v =
      let at_most = v.0.key1_usage.1 in
      char_to_hid_usage-hid_usage_to_char to_uppercase c.key1_hid_usage h (omega arith)

  key2_read :
      (to_uppercase : List ℕ → List ℕ)
      → UppercasesAscii to_uppercase
      → IsValidConfig c
      → char_to_hid_usage to_uppercase (hid_usage_to_char c.key2_hid_usage) ≡ some c.key2_hid_usage
  unfolding IsValidConfig
  key2_read to_uppercase h v =
      let at_most = v.0.key2_usage.1 in
      char_to_hid_usage-hid_usage_to_char to_uppercase c.key2_hid_usage h (omega arith)

  -- The backup that is written for a configuration in its ranges and counters below 2^63 on a board
  -- of the supported profile passes an import's checks, unless the clock is more than a day behind
  -- the export, and the import applies that configuration with its own endpoint and without Hall
  -- Effect settings.
  pub validate_backup-new_backup :
      (to_uppercase : List ℕ → List ℕ) (later : ℕ) (endpoint : String)
      → UppercasesAscii to_uppercase
      → Config.validate c ≡ ok tt
      → info.board_profile ≡ "waveshare_esp32s3_touch_lcd_2"
      → counters.lifetime_key1 < 2 ^ 63
      → counters.lifetime_key2 < 2 ^ 63
      → now ≤ later + 86400000
      → (validate_backup to_uppercase later (new_backup now info counters c) ≡ ok tt)
        × (read_config to_uppercase (new_backup now info counters c) endpoint
            ≡ without_he c endpoint)
  unfolding new_backup read_config validate_backup
  validate_backup-new_backup to_uppercase later endpoint h v board l1 l2 t =
      let valid = (validate_config_iff c).0 v in
      let e1 = key1_read to_uppercase h valid in
      let e2 = key2_read to_uppercase h valid in
      let profile = (str_eq_iff info.board_profile "waveshare_esp32s3_touch_lcd_2").1 board in
      let read =
        ap
          (λ a.
            check_config (new_backup now info counters c) a
              (char_to_hid_usage to_uppercase (hid_usage_to_char c.key2_hid_usage)))
          e1
        ∙ ap (check_config (new_backup now info counters c) (some c.key1_hid_usage)) e2
        ∙ check_config-new_backup valid in
      (
        ground (arith, profile, read),
        ap
              (λ a.
                backup_config (new_backup now info counters c) (unwrap_or a 0x1D)
                  (unwrap_or (char_to_hid_usage to_uppercase (hid_usage_to_char c.key2_hid_usage))
                    0x1B)
                  endpoint)
              e1
            ∙ ap
                (λ a.
                  backup_config (new_backup now info counters c) c.key1_hid_usage (unwrap_or a 0x1B)
                    endpoint)
                e2,
      )
