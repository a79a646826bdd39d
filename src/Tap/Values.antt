-- ===== src/Tap/Values.antt =====
-- The pad's data sources for an attempt and for the history
-- (desktop/crates/opad-model/src/tap_rate.rs, desktop/crates/opad-model/src/ui_source.rs).
use opad.Tap.Float.{Float}
use opad.Tap.Channel.{ChannelStats}
use opad.Tap.Attempt.{AttemptStats, ppm}
use Prim.Native.String.{◌++◌ as append}
use opad.Prelude.{
  zero, suc, ◌/◌, ◌%◌, true, false, ltb, ◌==◌, get_elem?, ℕ, Option, none, some, List, [], ◌∷◌,
  String, unwrap_or, if◌then◌else◌,
}

-- A number in decimal digits; it has at most as many as it has ones.
digit : ℕ → String
digit d =
    unwrap_or (get_elem? ("0" ∷ "1" ∷ "2" ∷ "3" ∷ "4" ∷ "5" ∷ "6" ∷ "7" ∷ "8" ∷ "9" ∷ []) d) ""

digits_of : ℕ → ℕ → String
unfolding digit
digits_of zero n = digit n
digits_of (suc fuel) n = elim (ltb n 10) [
  | true ↦ digit n
  | false ↦ append (digits_of fuel (n / 10)) (digit (n % 10))
]

decimal : ℕ → String
unfolding digits_of
decimal n = digits_of n n

module _ (fl : Float) where
  open fl use {F, lit, round, is_finite}

  pub data SourceValue : Type 0 where
    number : F → SourceValue
    label : String → SourceValue
    clear : SourceValue

  pub record ChannelHistory : Type 0 where
    pub average_ppm : Option F
    pub average_peak_ppm : Option F
    pub best_peak_ppm : Option F
    pub total_presses : ℕ

  pub record TapHistory : Type 0 where
    pub period_days : ℕ
    pub attempts : ℕ
    pub k1 : ChannelHistory
    pub k2 : ChannelHistory
    pub combined : ChannelHistory
    pub song_ppm : Option F
    pub best_song_peak_ppm : Option F

  pub ppm_value : Option F → SourceValue
  ppm_value none = clear
  ppm_value (some p) = if is_finite p then number (round p) else clear

  abbrev of_channel :
      (AttemptStats fl → ChannelStats fl)
      → (ChannelStats fl → Option F)
      → Option (AttemptStats fl)
      → SourceValue
  of_channel channel field none = ppm_value none
  of_channel channel field (some s) = ppm_value (field (channel s))

  abbrev song_value : Option (AttemptStats fl) → SourceValue
  song_value none = clear
  song_value (some s) = ppm_value (some (unwrap_or (ppm fl s.song) (lit 0)))

  abbrev song_peak : Option (AttemptStats fl) → Option F
  song_peak none = none
  song_peak (some s) = s.song.peak_ppm

  -- `PLAY_PPM` is source 51, `PLAY_PPM_SONG` 84, `PLAY_PPM_SONG_PEAK` 86.
  unfoldable pub attempt_ui_values : Option (AttemptStats fl) → List (ℕ × SourceValue)
  unfolding ppm_value
  attempt_ui_values s =
      (51, of_channel (λ a. a.combined) (λ c. c.current_ppm) s)
      ∷ (52, of_channel (λ a. a.combined) (λ c. c.average_ppm) s)
      ∷ (53, of_channel (λ a. a.combined) (λ c. c.peak_ppm) s)
      ∷ (54, of_channel (λ a. a.k1) (λ c. c.current_ppm) s)
      ∷ (55, of_channel (λ a. a.k1) (λ c. c.average_ppm) s)
      ∷ (56, of_channel (λ a. a.k1) (λ c. c.peak_ppm) s)
      ∷ (57, of_channel (λ a. a.k2) (λ c. c.current_ppm) s)
      ∷ (58, of_channel (λ a. a.k2) (λ c. c.average_ppm) s)
      ∷ (59, of_channel (λ a. a.k2) (λ c. c.peak_ppm) s)
      ∷ (84, song_value s)
      ∷ (86, ppm_value (song_peak s))
      ∷ []

  abbrev of_history : (TapHistory → Option F) → Option TapHistory → SourceValue
  of_history field none = clear
  of_history field (some h) = ppm_value (field h)

  -- "All time" for 0, "Last day" for 1, "Last n days", in upper case
  abbrev period_value : Option TapHistory → SourceValue
  period_value none = clear
  period_value (some h) = label (
      if h.period_days == 0
      then "ALL TIME"
      else (if h.period_days == 1
          then "LAST DAY"
          else append "LAST " (append (decimal h.period_days) " DAYS")))

  -- `HISTORY_PPM_AVG` is source 74, `HISTORY_PERIOD` 83, `HISTORY_PPM_SONG` 85,
  -- `HISTORY_PPM_SONG_PEAK` 87.
  unfoldable pub history_ui_values : Option TapHistory → List (ℕ × SourceValue)
  unfolding ppm_value decimal
  history_ui_values h =
      (74, of_history (λ t. t.combined.average_ppm) h)
      ∷ (75, of_history (λ t. t.combined.best_peak_ppm) h)
      ∷ (76, of_history (λ t. t.k1.average_ppm) h)
      ∷ (77, of_history (λ t. t.k1.best_peak_ppm) h)
      ∷ (78, of_history (λ t. t.k2.average_ppm) h)
      ∷ (79, of_history (λ t. t.k2.best_peak_ppm) h)
      ∷ (85, of_history (λ t. t.song_ppm) h)
      ∷ (87, of_history (λ t. t.best_song_peak_ppm) h)
      ∷ (83, period_value h)
      ∷ []
