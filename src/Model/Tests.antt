-- ===== src/Model/Tests.antt =====
-- Runs of the data model's checks and of the counters' reconciliation.
use opad.Prelude.{ℕ, ◌≡◌, ◌↔◌, ◌≤◌, refl, true, false, some, none, arith, ok, inl, ltb}
use opad.Prelude.{map}
use opad.Model.Config.{validate_ranges, validate_swipes, validate_modifiers, validate_wiring}
use opad.Prelude.Text.{upper}
use opad.Daemon.State.{DeviceInfo}
use opad.Model.Backup.{validate_backup, read_config}
use opad.Model.Backup.Export.{new_backup}
use opad.Model.Backup.Names.{UppercasesAscii}
use opad.Model.Backup.Accepted.{without_he, validate_backup-new_backup}
use opad.Model.Keys.{key_pin, validate_key_gpios}
use opad.Model.Swipe.{validate_swipe}
use opad.Model.Config.{default_config, validate, IsValidConfig}
use opad.Model.Config.Valid.{validate_config_iff}
use opad.Model.HallEffect.{
  counts, press_min, floors_of, thresholds, he_effective, default_he, HeEffective, floors_of,
  IsEffective, he_min_actuation, raised,
}
use opad.Model.HallEffect.Thresholds.{he_effective-IsEffective}
use opad.Model.HallEffect.Search.{he_min_actuation_least, he_min_actuation-raised}
use opad.Model.Counters.{CounterState, reconcile_counters}
use opad.Model.Counters.Merge.{Covers, reconcile_counters-Covers, reconcile_counters_again}

abbrev pc_counters : CounterState
pc_counters = record {
  device_id = "OSUPAD-1";
  counter_generation = 2;
  lifetime_key1 = 500;
  lifetime_key2 = 90;
  map_key1 = 1;
  map_key2 = 2;
}

abbrev pad_counters : CounterState
pad_counters = record {
  device_id = "";
  counter_generation = 2;
  lifetime_key1 = 450;
  lifetime_key2 = 100;
  map_key1 = 3;
  map_key2 = 4;
}

abbrev ahead_counters : CounterState
ahead_counters = record (pc_counters) { counter_generation = 3; lifetime_key1 = 0 }

validate_config_iff_example : (validate default_config ≡ ok tt) ↔ IsValidConfig default_config
validate_config_iff_example = validate_config_iff default_config

abbrev thresholds_1000 : HeEffective
thresholds_1000 = record {
  span = 1000;
  press = 500;
  release = 400;
  top_reset = 100;
  press_raised = false;
}

he_effective-IsEffective_example :
    IsEffective default_he (floors_of default_he none) thresholds_1000
unfolding he_effective thresholds counts press_min floors_of
he_effective-IsEffective_example =
    he_effective-IsEffective default_he 1000 2000 none thresholds_1000 refl

he_min_actuation_least_example :
    (lo : ℕ) × (he_min_actuation default_he 1000 2000 none ≡ some lo)
    × (lo ≤ 1000)
    × (raised default_he 1000 2000 none 199 ≡ some (ltb 199 lo))
he_min_actuation_least_example =
    he_min_actuation_least default_he 1000 2000 none 199 (omega arith) (omega arith)

he_min_actuation-raised_example :
    (he_min_actuation default_he 1000 1050 none ≡ some 1000)
    × (raised default_he 1000 1050 none 1000 ≡ some true)
unfolding counts press_min floors_of
he_min_actuation-raised_example =
    he_min_actuation-raised default_he 1000 1050 none (omega arith) (omega arith)

reconcile_counters-Covers_example :
    Covers (reconcile_counters pc_counters pad_counters) pc_counters
    × Covers (reconcile_counters pc_counters pad_counters) pad_counters
    × Covers ahead_counters (reconcile_counters pc_counters pad_counters)
reconcile_counters-Covers_example =
    reconcile_counters-Covers pc_counters pad_counters ahead_counters
      (record { covers = inl (omega arith) }) (record { covers = inl (omega arith) })

reconcile_counters_again_example :
    reconcile_counters (reconcile_counters pc_counters pad_counters) pad_counters
    ≡ reconcile_counters pc_counters pad_counters
reconcile_counters_again_example = reconcile_counters_again pc_counters pad_counters

abbrev pad_info : DeviceInfo
pad_info = record {
  device_id = "OSUPAD-1";
  board_profile = "waveshare_esp32s3_touch_lcd_2";
  firmware_version = "1.0.0";
  protocol_version = 1;
  running_partition = none;
  he_input = false;
  he_calibration = false;
}

validate_backup-new_backup_example :
    (validate_backup (map upper) 0 (new_backup 1000 pad_info pc_counters default_config) ≡ ok tt)
    × (read_config (map upper) (new_backup 1000 pad_info pc_counters default_config) "ws://pc"
        ≡ without_he default_config "ws://pc")
unfolding UppercasesAscii validate validate_ranges validate_swipes validate_swipe validate_modifiers
    validate_wiring validate_key_gpios key_pin
validate_backup-new_backup_example =
    validate_backup-new_backup 1000 pad_info pc_counters default_config (map upper) 0 "ws://pc"
      (λ cs h. refl) refl refl (omega arith) (omega arith) (omega arith)
