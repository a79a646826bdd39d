-- ===== src/Service/Store/Rows.antt =====
-- A device's row as it was saved last.
use text.Mathlib.TextEquality.{eq_iff}
use opad.Model.Counters.{CounterState}
use opad.Daemon.State.{DeviceInfo}
use opad.Service.Store.{
  Storage, Row, find_row, upsert, touch, new_row, counters_of, save_device_state, load_device_state,
}
use opad.Prelude.{◌≡◌, some, List, [], ◌∷◌, String, str_eq, ok, arith, if◌then◌else◌}

find-upsert :
    (rs : List Row) (row : Row) (id : String)
    → find_row (upsert rs row) id
      ≡ (if str_eq row.device_id id then some (counters_of row) else find_row rs id)
unfolding find_row upsert
find-upsert [] row id = ground arith
find-upsert (r ∷ rs) row id = ground (
  arith,
  find-upsert rs row id,
  eq_iff r.device_id row.device_id,
  eq_iff r.device_id id,
  eq_iff row.device_id id,
)

pub find-touch :
    (rs : List Row) (id other now : String) → find_row (touch rs other now) id ≡ find_row rs id
unfolding find_row touch
find-touch [] id other now = ground arith
find-touch (r ∷ rs) id other now = ground (arith, find-touch rs id other now)

-- What is loaded for a device right after a save that the guard and the database let through.
pub load-save :
    (now : String) (s s' : Storage) (info : DeviceInfo) (c : CounterState)
    → save_device_state now s info c ≡ ok s'
    → load_device_state s' info.device_id ≡ ok (some (counters_of (new_row info c now)))
unfolding save_device_state load_device_state
load-save now s s' info c h = ground (
  arith,
  find-upsert s.device_state (new_row info c now) info.device_id,
  eq_iff info.device_id info.device_id,
)
