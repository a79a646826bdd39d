-- ===== src/Daemon/Telemetry.antt =====
-- The values that the pad shows, sent only where they changed (desktop/daemon/src/telemetry.rs). A
-- `HashMap` is an association list with one entry for a key.
pub mod Maps
pub mod Flush
use opad.Tap.Float.{Float}
use opad.Tap.Values.{SourceValue, number, label, clear}
use opad.Prelude.{
  ℕ, ◌-◌, ◌*◌, ◌/◌, min, max, Bool, true, false, not, ◌&&◌, Option, none, some, List, [], ◌∷◌, ltb,
  leb, ◌==◌, str_eq, if◌then◌else◌,
}

-- Nanoseconds of `1000 / hz` milliseconds, with `hz` clamped to 1..=30.
unfoldable pub flush_interval_playing : ℕ → ℕ
flush_interval_playing hz = 1000 / min (max hz 1) 30 * 1000000

abbrev pub flush_interval_idle : ℕ
flush_interval_idle = 500000000

module _ {V : Type 0} where
  unfoldable pub get : ℕ → List (ℕ × V) → Option V
  get k [] = none
  get k ((j, v) ∷ m) = if j == k then some v else get k m

  unfoldable pub insert : ℕ → V → List (ℕ × V) → List (ℕ × V)
  insert k v [] = (k, v) ∷ []
  insert k v ((j, w) ∷ m) = if j == k then (k, v) ∷ m else (j, w) ∷ insert k v m

  -- `extend`
  unfoldable pub extend : List (ℕ × V) → List (ℕ × V) → List (ℕ × V)
  unfolding insert
  extend m [] = m
  extend m ((k, v) ∷ kvs) = extend (insert k v m) kvs

  -- `sort_by_key`
  unfoldable pub insert_sorted : ℕ × V → List (ℕ × V) → List (ℕ × V)
  insert_sorted e [] = e ∷ []
  insert_sorted e (f ∷ m) = if leb e.0 f.0 then e ∷ f ∷ m else f ∷ insert_sorted e m

  unfoldable pub sort_by_key : List (ℕ × V) → List (ℕ × V)
  unfolding insert_sorted
  sort_by_key [] = []
  sort_by_key (e ∷ m) = insert_sorted e (sort_by_key m)

module _ (fl : Float) where
  -- `SourceValue`'s `==`, which compares numbers as `f64`
  unfoldable pub same_value : SourceValue fl → SourceValue fl → Bool
  same_value (number a) (number b) = fl.eq a b
  same_value (label s) (label t) = str_eq s t
  same_value clear clear = true
  same_value _ _ = false

  pub record DataSync : Type 0 where
    pub latest : List (ℕ × SourceValue fl)
    pub sent : List (ℕ × SourceValue fl)
    pub last_flush : Option ℕ

  abbrev pub new_sync : DataSync
  new_sync = record { latest = []; sent = []; last_flush = none }

  unfoldable pub ingest : DataSync → List (ℕ × SourceValue fl) → DataSync
  ingest d values = record d { latest = extend d.latest values }

  abbrev is_sent : Option (SourceValue fl) → SourceValue fl → Bool
  is_sent none value = false
  is_sent (some old) value = same_value old value

  -- `filter(|(source, value)| sent.get(source) != Some(value))`
  unfoldable pub unsent :
      List (ℕ × SourceValue fl) → List (ℕ × SourceValue fl) → List (ℕ × SourceValue fl)
  unfolding get same_value
  unsent sent [] = []
  unsent sent ((k, v) ∷ m) =
      if is_sent (get k sent) v then unsent sent m else (k, v) ∷ unsent sent m

  abbrev pub is_recent : Option ℕ → ℕ → ℕ → Bool
  is_recent none clock interval = false
  is_recent (some t) clock interval = ltb (clock - t) interval

  -- The changes to send at the time `clock`, which count as sent from then on.
  unfoldable pub take_changes :
      DataSync → ℕ → Bool → ℕ → Bool → DataSync × List (ℕ × SourceValue fl)
  take_changes d clock playing playing_hz force =
      let interval = if playing then flush_interval_playing playing_hz else flush_interval_idle in
      let changes = sort_by_key (unsent d.sent d.latest) in
      if not force && is_recent d.last_flush clock interval
      then (d, [])
      else (record d { last_flush = some clock; sent = extend d.sent changes }, changes)

  unfoldable pub reset_sent : DataSync → DataSync
  reset_sent d = record d { sent = [] }

  unfoldable pub clear_sync : DataSync → DataSync
  clear_sync d = record d { latest = []; sent = [] }
