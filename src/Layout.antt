-- ===== src/Layout.antt =====
-- Screen layouts (desktop/crates/opad-layout/src/lib.rs). An `i16` is an integer; a flag is tested and
-- set by the bit that it is.
pub mod Sources
pub mod Valid
mod Tests
use Prim.Native.String.{len}
use opad.Prelude.Int.{ℤ, pos, negsuc, pos_part, neg_part, sub_ℕ, ◌+ℤ◌, ◌≤ℤ◌, ltb_ℤ}
use opad.Layout.Sources.{source_info, is_tap_rate}
use opad.Prelude.{
  ℕ, zero, suc, ◌+◌, ◌-◌, ◌*◌, ◌/◌, ◌%◌, ◌≤◌, ◌<◌, ◌≡◌, ◌⊎◌, Bool, true, false, not, ◌&&◌, ◌||◌,
  Option, none, some, List, [], ◌∷◌, String, ltb, leb, ◌==◌, if◌then◌else◌, is_some, length, any,
  Result, ok, err, ◌>>=◌, ◌>>◌,
}

pub data Screen : Type 0 where
  idle playing : Screen

pub data WidgetKind : Type 0 where
  text_kind progress key_card status_dot rect grade : WidgetKind

pub data Font : Type 0 where
  px12 px14 px16 px20 px24 px32 px48 : Font

pub data Align : Type 0 where
  left center right : Align

pub data TapRateUnit : Type 0 where
  kpm kps : TapRateUnit

-- `from_wire` and `to_wire` of each enum are the positions in these lists.
unfoldable pub screen_to_wire : Screen → ℕ
screen_to_wire idle = 0
screen_to_wire playing = 1

unfoldable pub kind_to_wire : WidgetKind → ℕ
kind_to_wire text_kind = 0
kind_to_wire progress = 1
kind_to_wire key_card = 2
kind_to_wire status_dot = 3
kind_to_wire rect = 4
kind_to_wire grade = 5

pub record Widget : Type 0 where
  pub kind : WidgetKind
  pub source : ℕ
  pub font : Font
  pub align : Align
  pub x : ℤ
  pub y : ℤ
  pub w : ℤ
  pub h : ℤ
  pub fg : ℕ
  pub bg : ℕ
  pub accent : ℕ
  pub radius : ℕ
  pub decimals : ℕ
  pub flags : ℕ
  pub label : String
  pub suffix : String

pub record Layout : Type 0 where
  pub background : ℕ
  pub widgets : List Widget

abbrev pub flag_border : ℕ
flag_border = 4

abbrev pub flag_key_rate : ℕ
flag_key_rate = 8

abbrev pub flag_per_second : ℕ
flag_per_second = 16

-- `self.flags & flag != 0` for a flag of one bit
unfoldable pub has_flag : Widget → ℕ → Bool
has_flag wd flag = wd.flags / flag % 2 == 1

-- `|= flag` and `&= !flag` for a flag of one bit
unfoldable pub set_flag : Widget → ℕ → Bool → Widget
unfolding has_flag
set_flag wd flag on = record wd {
  flags =
      if has_flag wd flag
      then (if on then wd.flags else wd.flags - flag)
      else (if on then wd.flags + flag else wd.flags);
}

abbrev base_widget : WidgetKind → Widget
base_widget kind = record {
  kind = kind;
  source = 0;
  font = px16;
  align = center;
  x = pos 110;
  y = pos 100;
  w = pos 100;
  h = pos 24;
  fg = 0xFFFFFF;
  bg = 0x1B1B28;
  accent = 0xFF66AA;
  radius = 0;
  decimals = 0xFF;
  flags = 0;
  label = "";
  suffix = "";
}

-- `Widget::new`; sources 18 `MAP_PROGRESS`, 60 `PAD_K1_MAP`, 81 `STATUS_TOSU`, 27 `PLAY_GRADE`
unfoldable pub new_widget : WidgetKind → Widget
new_widget text_kind = record (base_widget text_kind) { label = "Text" }
new_widget progress = record (base_widget progress) {
  source = 18;
  x = pos 60;
  w = pos 200;
  h = pos 8;
  radius = 4;
}
new_widget key_card = record (base_widget key_card) {
  source = 60;
  font = px24;
  w = pos 144;
  h = pos 52;
  radius = 12;
  flags = flag_border;
  label = "K1";
}
new_widget status_dot = record (base_widget status_dot) {
  source = 81;
  font = px14;
  w = pos 64;
  h = pos 22;
  fg = 0x8C8CA6;
  bg = 0x3A3A4C;
  accent = 0x44DD88;
  label = "tosu";
}
new_widget rect = record (base_widget rect) { w = pos 120; h = pos 40; radius = 12 }
new_widget grade = record (base_widget grade) { source = 27; font = px24; h = pos 28 }

abbrev shows_rate : WidgetKind → Bool → Bool → Bool
shows_rate key_card key_rate tap_rate = key_rate
shows_rate text_kind key_rate tap_rate = tap_rate
shows_rate grade key_rate tap_rate = tap_rate
shows_rate _ key_rate tap_rate = false

unfoldable pub shows_tap_rate : Widget → Bool
unfolding has_flag is_tap_rate
shows_tap_rate wd = shows_rate wd.kind (has_flag wd flag_key_rate) (is_tap_rate wd.source)

unfoldable pub uses_per_second : Layout → Bool
unfolding has_flag shows_tap_rate
uses_per_second l = any (λ wd. has_flag wd flag_per_second && shows_tap_rate wd) l.widgets

-- The sum of two `i16`, which wraps.
unfoldable pub add_i16 : ℤ → ℤ → ℤ
add_i16 a b =
    let bits = (pos_part a + pos_part b + 131072 - neg_part a - neg_part b) % 65536 in
    if ltb bits 32768 then pos bits else negsuc (65535 - bits)

unfoldable pub contains : Widget → ℤ → ℤ → Bool
contains wd x y =
    not (ltb_ℤ x wd.x)
    && (ltb_ℤ x (add_i16 wd.x wd.w) && (not (ltb_ℤ y wd.y) && ltb_ℤ y (add_i16 wd.y wd.h)))

pub data Reason : Type 0 where
  unknown_source : ℕ → Reason
  bad_size : ℤ → ℤ → Reason
  position_out_of_range label_too_long suffix_too_long : Reason

pub data LayoutError : Type 0 where
  too_many_widgets : ℕ → LayoutError
  widget : ℕ → Reason → LayoutError

abbrev reject_if : Bool → LayoutError → Result LayoutError (Unit {0})
reject_if test e = if test then err e else ok tt

-- The checks of one widget; 320 by 240 is the screen.
unfoldable pub validate_widget : ℕ → Widget → Result LayoutError (Unit {0})
validate_widget index wd = do
  reject_if (not (wd.source == 0) && not (is_some (source_info wd.source)))
      (widget index (unknown_source wd.source))
  reject_if
      (not (ltb_ℤ (pos 0) wd.w)
        || (not (ltb_ℤ (pos 0) wd.h) || (ltb_ℤ (pos 640) wd.w || ltb_ℤ (pos 480) wd.h)))
      (widget index (bad_size wd.w wd.h))
  reject_if
      (ltb_ℤ wd.x (negsuc 319)
        || (ltb_ℤ (pos 640) wd.x || (ltb_ℤ wd.y (negsuc 239) || ltb_ℤ (pos 480) wd.y)))
      (widget index position_out_of_range)
  reject_if (ltb 31 (len wd.label)) (widget index label_too_long)
  reject_if (ltb 11 (len wd.suffix)) (widget index suffix_too_long)

unfoldable pub validate_from : ℕ → List Widget → Result LayoutError (Unit {0})
validate_from index [] = ok tt
validate_from index (wd ∷ wds) = validate_widget index wd >> validate_from (suc index) wds

unfoldable pub validate : Layout → Result LayoutError (Unit {0})
validate l =
    if ltb 32 (length l.widgets)
    then err (too_many_widgets (length l.widgets))
    else validate_from 0 l.widgets
