-- ===== src/Layout/Sources.antt =====
-- The data sources of the pad's screens (desktop/crates/opad-model/src/ui_source.rs): id and stable
-- name; and their categories (desktop/crates/opad-layout/src/lib.rs, `source_info`).
use text.Mathlib.Text.{starts_with}
use opad.Prelude.{
  ℕ, Bool, ◌&&◌, ◌||◌, not, Option, none, some, List, [], ◌∷◌, String, find, keep, map, leb, ◌==◌,
  if◌then◌else◌,
}

abbrev pub all_ids : List (ℕ × String)
all_ids =
    (1, "map.title")
    ∷ (2, "map.artist")
    ∷ (3, "map.mapper")
    ∷ (4, "map.difficulty")
    ∷ (5, "map.status")
    ∷ (6, "map.stars")
    ∷ (7, "map.stars_live")
    ∷ (8, "map.ar")
    ∷ (9, "map.cs")
    ∷ (10, "map.od")
    ∷ (11, "map.hp")
    ∷ (12, "map.bpm")
    ∷ (13, "map.objects")
    ∷ (14, "map.max_combo")
    ∷ (15, "map.length")
    ∷ (16, "map.time_elapsed")
    ∷ (17, "map.time_remaining")
    ∷ (18, "map.progress")
    ∷ (19, "map.kiai")
    ∷ (20, "play.pp")
    ∷ (21, "play.pp_fc")
    ∷ (22, "play.pp_max")
    ∷ (23, "play.accuracy")
    ∷ (24, "play.score")
    ∷ (25, "play.combo")
    ∷ (26, "play.max_combo")
    ∷ (27, "play.grade")
    ∷ (28, "play.hits_300")
    ∷ (29, "play.hits_100")
    ∷ (30, "play.hits_50")
    ∷ (31, "play.hits_miss")
    ∷ (32, "play.slider_breaks")
    ∷ (33, "play.ur")
    ∷ (34, "play.health")
    ∷ (35, "play.mods")
    ∷ (36, "play.player")
    ∷ (37, "play.failed")
    ∷ (40, "profile.name")
    ∷ (41, "profile.rank")
    ∷ (43, "profile.pp")
    ∷ (44, "profile.accuracy")
    ∷ (45, "profile.playcount")
    ∷ (46, "profile.level")
    ∷ (47, "profile.country")
    ∷ (48, "session.playtime")
    ∷ (49, "session.playcount")
    ∷ (50, "game.state")
    ∷ (51, "play.ppm")
    ∷ (52, "play.ppm_avg")
    ∷ (53, "play.ppm_peak")
    ∷ (54, "play.k1_ppm")
    ∷ (55, "play.k1_ppm_avg")
    ∷ (56, "play.k1_ppm_peak")
    ∷ (57, "play.k2_ppm")
    ∷ (58, "play.k2_ppm_avg")
    ∷ (59, "play.k2_ppm_peak")
    ∷ (60, "pad.k1_map")
    ∷ (61, "pad.k2_map")
    ∷ (62, "pad.total_map")
    ∷ (63, "pad.k1_lifetime")
    ∷ (64, "pad.k2_lifetime")
    ∷ (65, "pad.total_lifetime")
    ∷ (66, "pad.kps")
    ∷ (67, "pad.k1_label")
    ∷ (68, "pad.k2_label")
    ∷ (69, "pad.clock")
    ∷ (70, "pad.date")
    ∷ (71, "pad.uptime")
    ∷ (72, "pad.k1_down")
    ∷ (73, "pad.k2_down")
    ∷ (74, "history.ppm_avg")
    ∷ (75, "history.ppm_peak")
    ∷ (76, "history.k1_ppm_avg")
    ∷ (77, "history.k1_ppm_peak")
    ∷ (78, "history.k2_ppm_avg")
    ∷ (79, "history.k2_ppm_peak")
    ∷ (80, "status.pc")
    ∷ (81, "status.tosu")
    ∷ (82, "status.osu")
    ∷ (83, "history.period")
    ∷ (84, "play.ppm_song")
    ∷ (85, "history.ppm_song")
    ∷ (86, "play.ppm_song_peak")
    ∷ (87, "history.ppm_song_peak")
    ∷ []

pub data SourceCategory : Type 0 where
  static map_data live_play profile pad history status : SourceCategory

pub record SourceInfo : Type 0 where
  pub id : ℕ
  pub key : String
  pub category : SourceCategory

-- The names' first parts are "map", "play", "profile", "session", "game", "pad", "history" and
-- "status", each followed by a dot.
unfoldable pub category_of : String → SourceCategory
category_of key =
    if starts_with key "map."
    then map_data
    else (if starts_with key "play."
        then live_play
        else (if starts_with key "profile."
              || (starts_with key "session." || starts_with key "game.")
            then profile
            else (if starts_with key "pad."
                then pad
                else (if starts_with key "history." then history else status))))

abbrev pub static_source : SourceInfo
static_source = record { id = 0; key = "none"; category = static }

abbrev describe : Option (ℕ × String) → Option SourceInfo
describe none = none
describe (some (id, key)) = some (record { id = id; key = key; category = category_of key })

unfoldable pub source_info : ℕ → Option SourceInfo
source_info id =
    if id == 0 then some static_source else describe (find (λ (e : ℕ × String). e.0 == id) all_ids)

-- Every source but the two press states, which drive key cards.
unfoldable pub all_sources : List SourceInfo
all_sources =
    static_source
    ∷ keep (λ s. not (s.id == 72 || s.id == 73))
        (map (λ (e : ℕ × String). record { id = e.0; key = e.1; category = category_of e.1 })
          all_ids)

-- `is_tap_rate`: `PLAY_PPM..=PLAY_K2_PPM_PEAK`, `HISTORY_PPM_AVG..=HISTORY_K2_PPM_PEAK`,
-- `PLAY_PPM_SONG..=HISTORY_PPM_SONG_PEAK`
unfoldable pub is_tap_rate : ℕ → Bool
is_tap_rate source =
    (leb 51 source && leb source 59)
    || ((leb 74 source && leb source 79) || (leb 84 source && leb source 87))
