-- ===== src/Tap/Channel.antt =====
-- The rolling calculation for one channel (desktop/crates/opad-model/src/tap_rate.rs,
-- `ChannelTracker`). A `VecDeque` is a list, oldest first.
use opad.Tap.Float.{Float}
use opad.Prelude.{
  ℕ, zero, suc, ◌+◌, ◌-◌, ◌%◌, ◌^◌, min, Bool, true, false, ◌&&◌, Option, none, some, List, [], ◌∷◌,
  ◌++◌, ltb, leb, ◌==◌, if◌then◌else◌, then_some, length, drop, get_elem?, get_last?,
}

abbrev pub window_intervals : ℕ
window_intervals = 6

abbrev pub max_recent : ℕ
max_recent = 128

-- `saturating_add(1)` and `+= 1` on `u32`
abbrev pub saturating_suc : ℕ → ℕ
saturating_suc n = min (n + 1) (2 ^ 32 - 1)

abbrev pub wrapping_suc : ℕ → ℕ
wrapping_suc n = (n + 1) % 2 ^ 32

module _ (fl : Float) where
  open fl use {F, lit, of_ℕ, add, sub, mul, div, max, lt, le}

  pub record ChannelStats : Type 0 where
    pub current_ppm : Option F
    pub average_ppm : Option F
    pub peak_ppm : Option F
    pub presses : ℕ
    pub valid_intervals : ℕ
    pub interval_ms_sum : F

  pub record ChannelTracker : Type 0 where
    pub last_press_ms : Option F
    pub now_ms : F
    pub window : List F
    pub peak_ppm : Option F
    pub presses : ℕ
    pub valid_intervals : ℕ
    pub interval_ms_sum : F
    pub min_peak_span_ms : F
    pub recent : List F

  abbrev pub new_channel : ChannelTracker
  new_channel = record {
    last_press_ms = none;
    now_ms = lit 0;
    window = [];
    peak_ppm = none;
    presses = 0;
    valid_intervals = 0;
    interval_ms_sum = lit 0;
    min_peak_span_ms = lit 0;
    recent = [];
  }

  pub ppm_from_interval_ms : F → F
  ppm_from_interval_ms interval = div (lit 60000) interval

  pub coarse_timing : ChannelTracker → ChannelTracker
  coarse_timing t = record t { min_peak_span_ms = lit 400 }

  -- `iter().sum()`
  pub sum_from : F → List F → F
  sum_from acc [] = acc
  sum_from acc (x ∷ xs) = sum_from (add acc x) xs

  pub window_interval_ms : List F → Option F
  unfolding sum_from
  window_interval_ms [] = none
  window_interval_ms (x ∷ xs) =
      let sum = sum_from (lit 0) (x ∷ xs) in
      then_some (lt (lit 0) sum) (div sum (of_ℕ (length (x ∷ xs))))

  -- `(0..k).rev().find(|&i| last - recent[i] >= min)`, with the value found beside its index
  pub last_spanning : List F → F → F → ℕ → Option (ℕ × F)
  last_spanning recent last least zero = none
  last_spanning recent last least (suc i) =
      let rest = last_spanning recent last least i in
      elim (get_elem? recent i) [
        | none ↦ rest
        | some x ↦ elim (le least (sub last x)) [ true ↦ some (i, x) | false ↦ rest ]
      ]

  pub spanned_ppm : ChannelTracker → Option F
  unfolding last_spanning ppm_from_interval_ms
  spanned_ppm t = elim (get_last? t.recent) [
    | none ↦ none
    | some last ↦
        let n = length t.recent in
        if leb n window_intervals
        then none
        else elim (last_spanning t.recent last t.min_peak_span_ms (n - window_intervals)) [
          | none ↦ none
          | some (first, x) ↦ some (ppm_from_interval_ms (div (sub last x) (of_ℕ (n - 1 - first))))
        ]
  ]

  unfoldable pub end_sequence : ChannelTracker → ChannelTracker
  end_sequence t = record t { window = []; recent = [] }

  -- `self.peak_ppm.map_or(ppm, |p| p.max(ppm))`
  abbrev pub raise_peak : Option F → Option F → Option F
  raise_peak old none = old
  raise_peak none (some ppm) = some ppm
  raise_peak (some p) (some ppm) = some (max p ppm)

  -- The `recent` list of a press within the sequence: `prev` opens it, and the oldest entries over
  -- 128 are dropped.
  unfoldable pub push_recent : List F → F → F → List F
  push_recent recent prev at =
      let all = (if length recent == 0 then prev ∷ [] else recent) ++ at ∷ [] in
      drop (length all - max_recent) all

  unfoldable pub push_window : List F → F → List F
  push_window window interval =
      (if length window == window_intervals then drop 1 window else window) ++ interval ∷ []

  abbrev map_ppm : Option F → Option F
  map_ppm none = none
  map_ppm (some interval) = some (ppm_from_interval_ms interval)

  unfoldable pub latest_peak : ChannelTracker → Option F
  unfolding spanned_ppm window_interval_ms
  latest_peak t =
      if lt (lit 0) t.min_peak_span_ms
      then spanned_ppm t
      else (if length t.window == window_intervals
          then map_ppm (window_interval_ms t.window)
          else none)

  -- A press `interval` after `prev`, in the same sequence.
  unfoldable pub press_within : ChannelTracker → F → F → F → ChannelTracker
  press_within t prev at interval =
      let t' : ChannelTracker = record t {
        recent = push_recent t.recent prev at;
        valid_intervals = wrapping_suc t.valid_intervals;
        interval_ms_sum = add t.interval_ms_sum interval;
        window = push_window t.window interval;
      } in
      record t' { peak_ppm = raise_peak t'.peak_ppm (latest_peak t') }

  unfoldable pub press_after : ChannelTracker → Option F → F → ChannelTracker
  press_after t none at = record t { last_press_ms = some at }
  press_after t (some prev) at =
      let interval = max (sub at prev) (lit 0) in
      let t' : ChannelTracker = record t { last_press_ms = some at } in
      let ended = end_sequence t' in
      if lt (lit 1000) interval
      then record ended { recent = at ∷ [] }
      else press_within t' prev at interval

  unfoldable pub press : ChannelTracker → F → ChannelTracker
  press t at =
      let t' : ChannelTracker = record t {
        now_ms = max t.now_ms at;
        presses = saturating_suc t.presses;
      } in
      press_after t' t'.last_press_ms at

  abbrev is_stale : ChannelTracker → Option F → Bool
  is_stale t none = false
  is_stale t (some last) = lt (lit 1000) (sub t.now_ms last)

  unfoldable pub advance : ChannelTracker → F → ChannelTracker
  unfolding end_sequence
  advance t now =
      let t' : ChannelTracker = record t { now_ms = max t.now_ms now } in
      if is_stale t' t'.last_press_ms then end_sequence t' else t'

  abbrev live_ppm : ChannelTracker → Option F → Option F → F
  live_ppm t (some last) (some interval) =
      let gap = sub t.now_ms last in
      ppm_from_interval_ms (if lt (max (mul (lit 2) interval) (lit 600)) gap then gap else interval)
  live_ppm t _ _ = lit 0

  pub current_ppm : ChannelTracker → F
  unfolding window_interval_ms ppm_from_interval_ms
  current_ppm t = live_ppm t t.last_press_ms (window_interval_ms t.window)

  pub stats : ChannelTracker → ChannelStats
  unfolding current_ppm
  stats t = record {
    current_ppm = some (current_ppm t);
    average_ppm =
        then_some (ltb 0 t.valid_intervals && lt (lit 0) t.interval_ms_sum)
          (ppm_from_interval_ms (div t.interval_ms_sum (of_ℕ t.valid_intervals)));
    peak_ppm = t.peak_ppm;
    presses = t.presses;
    valid_intervals = t.valid_intervals;
    interval_ms_sum = t.interval_ms_sum;
  }
