-- ===== src/Service/Store.antt =====
-- The database behind its write guard (desktop/crates/opad-storage/src/lib.rs). A table is a list of
-- rows with one row for a key; `healthy` says whether SQLite executes at all.
pub mod Rows
use opad.Model.Config.{DeviceConfig}
use opad.Model.Counters.{CounterState}
use opad.Daemon.State.{DeviceInfo}
use opad.Prelude.{
  ltb, ℕ, Bool, true, false, Option, none, some, List, [], ◌∷◌, String, str_eq, ◌==◌, Result, ok,
  err, if◌then◌else◌,
}

pub data StorageError : Type 0 where
  sqlite writes_blocked migration : StorageError

pub record Row : Type 0 where
  pub device_id : String
  pub board_profile : String
  pub firmware_version : String
  pub counter_generation : ℕ
  pub lifetime_key1 : ℕ
  pub lifetime_key2 : ℕ
  pub last_seen_at : String
  pub last_sync_at : String

pub record Storage : Type 0 where
  pub writes_allowed : Bool
  pub healthy : Bool
  pub config : DeviceConfig
  pub device_state : List Row
  pub layouts : List (ℕ × String)
  pub app_state : List (String × String)

-- `check_writes_allowed`, and SQLite's answer
abbrev pub execute : Storage → Storage → Result StorageError Storage
execute s s' =
    if s.writes_allowed then if s.healthy then ok s' else err sqlite else err writes_blocked

-- `let _ = write`: a write that fails leaves the storage as it is.
abbrev pub kept : Storage → Result StorageError Storage → Storage
kept s (ok s') = s'
kept s (err e) = s

abbrev pub counters_of : Row → CounterState
counters_of r = record {
  device_id = r.device_id;
  counter_generation = r.counter_generation;
  lifetime_key1 = r.lifetime_key1;
  lifetime_key2 = r.lifetime_key2;
  map_key1 = 0;
  map_key2 = 0;
}

unfoldable pub find_row : List Row → String → Option CounterState
find_row [] id = none
find_row (r ∷ rs) id =
    let rest = find_row rs id in if str_eq r.device_id id then some (counters_of r) else rest

unfoldable pub load_device_state : Storage → String → Result StorageError (Option CounterState)
load_device_state s id = if s.healthy then ok (find_row s.device_state id) else err sqlite

abbrev pub new_row : DeviceInfo → CounterState → String → Row
new_row info c now = record {
  device_id = info.device_id;
  board_profile = info.board_profile;
  firmware_version = info.firmware_version;
  counter_generation = c.counter_generation;
  lifetime_key1 = c.lifetime_key1;
  lifetime_key2 = c.lifetime_key2;
  last_seen_at = now;
  last_sync_at = now;
}

-- `INSERT ... ON CONFLICT(device_id) DO UPDATE`
unfoldable pub upsert : List Row → Row → List Row
upsert [] row = row ∷ []
upsert (r ∷ rs) row =
    let rest = upsert rs row in if str_eq r.device_id row.device_id then row ∷ rs else r ∷ rest

unfoldable pub save_device_state :
    String → Storage → DeviceInfo → CounterState → Result StorageError Storage
save_device_state now s info c =
    execute s (record s { device_state = upsert s.device_state (new_row info c now) })

unfoldable pub touch : List Row → String → String → List Row
touch [] id now = []
touch (r ∷ rs) id now =
    let rest = touch rs id now in
    (if str_eq r.device_id id then record r { last_seen_at = now } else r) ∷ rest

unfoldable pub touch_device_last_seen : String → Storage → String → Result StorageError Storage
touch_device_last_seen now s id =
    execute s (record s { device_state = touch s.device_state id now })

-- The table has no columns for the Hall Effect settings.
unfoldable pub save_config : Storage → DeviceConfig → Result StorageError Storage
save_config s c = execute s (record s { config = record c { key1_he = none; key2_he = none } })

unfoldable pub put_layout : List (ℕ × String) → ℕ → String → List (ℕ × String)
put_layout [] screen json = (screen, json) ∷ []
put_layout ((t, j) ∷ rest) screen json =
    let others = put_layout rest screen json in
    if t == screen then (screen, json) ∷ rest else (t, j) ∷ others

unfoldable pub save_layout : Storage → ℕ → String → Result StorageError Storage
save_layout s screen json = execute s (record s { layouts = put_layout s.layouts screen json })

unfoldable pub drop_layout : List (ℕ × String) → ℕ → List (ℕ × String)
drop_layout [] screen = []
drop_layout ((t, j) ∷ rest) screen =
    let others = drop_layout rest screen in if t == screen then others else (t, j) ∷ others

unfoldable pub delete_layout : Storage → ℕ → Result StorageError Storage
delete_layout s screen = execute s (record s { layouts = drop_layout s.layouts screen })

unfoldable pub find_state : List (String × String) → String → Option String
find_state [] key = none
find_state ((k, v) ∷ rest) key =
    let other = find_state rest key in if str_eq k key then some v else other

unfoldable pub get_app_state : Storage → String → Result StorageError (Option String)
get_app_state s key = if s.healthy then ok (find_state s.app_state key) else err sqlite

unfoldable pub put_state : List (String × String) → String → String → List (String × String)
put_state [] key value = (key, value) ∷ []
put_state ((k, v) ∷ rest) key value =
    let others = put_state rest key value in
    if str_eq k key then (key, value) ∷ rest else (k, v) ∷ others

unfoldable pub set_app_state : Storage → String → String → Result StorageError Storage
set_app_state s key value = execute s (record s { app_state = put_state s.app_state key value })

unfoldable pub drop_state : List (String × String) → String → List (String × String)
drop_state [] key = []
drop_state ((k, v) ∷ rest) key =
    let others = drop_state rest key in if str_eq k key then others else (k, v) ∷ others

unfoldable pub delete_app_state : Storage → String → Result StorageError Storage
delete_app_state s key = execute s (record s { app_state = drop_state s.app_state key })

-- `validate_history_days` refuses it: more than `MAX_HISTORY_DAYS`.
abbrev pub is_long_history : ℕ → Bool
is_long_history days = ltb 3650 days

-- `u32::to_string` is a parameter.
unfoldable pub set_tap_history_days : (ℕ → String) → Storage → ℕ → Result StorageError Storage
unfolding set_app_state
set_tap_history_days to_text s days =
    if is_long_history days
    then err migration
    else set_app_state s "stats.history_days" (to_text days)
