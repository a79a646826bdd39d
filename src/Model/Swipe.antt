-- ===== src/Model/Swipe.antt =====
-- Swipe actions and their wire values (desktop/crates/opad-model/src/lib.rs).
use opad.Prelude.{
  ℕ, ◌≡◌, ◌≢◌, ◌↔◌, ◌≤◌, ◌⊎◌, Bool, true, false, not, ◌&&◌, Option, some, List, [], ◌∷◌, String,
  arith, leb, ◌==◌, find, ok, ◌>>◌,
}
use opad.Model.Keys.{Checked, reject_if, invalid_swipe_key, swipe_needs_key}

pub data SwipeAction : Type 0 where
  nothing volume_up volume_down prev_track next_track play_pause mute key : SwipeAction

abbrev pub all_swipe_actions : List SwipeAction
all_swipe_actions =
    nothing ∷ volume_up ∷ volume_down ∷ prev_track ∷ next_track ∷ play_pause ∷ mute ∷ key ∷ []

unfoldable pub to_wire : SwipeAction → ℕ
to_wire nothing = 1
to_wire prev_track = 2
to_wire next_track = 3
to_wire play_pause = 4
to_wire mute = 5
to_wire key = 6
to_wire volume_up = 7
to_wire volume_down = 8

unfoldable pub from_wire : ℕ → Option SwipeAction
unfolding to_wire
from_wire value = find (λ a. to_wire a == value) all_swipe_actions

abbrev pub is_key : SwipeAction → Bool
is_key key = true
is_key _ = false

unfoldable pub validate_swipe : String → SwipeAction → ℕ → Checked
validate_swipe side action usage = do
  reject_if (not (usage == 0) && not (leb 0x04 usage && leb usage 0xE7))
      (invalid_swipe_key side usage)
  reject_if (is_key action && usage == 0) (swipe_needs_key side)

-- A key is a keyboard usage or none, and there is one where the action sends it.
pub IsSwipe : SwipeAction → ℕ → Type 0
IsSwipe action usage =
    ((usage ≡ 0) ⊎ ((0x04 ≤ usage) × (usage ≤ 0xE7))) × ((action ≢ key) ⊎ (usage ≢ 0))

pub validate_swipe_iff :
    (side : String) (action : SwipeAction) (usage : ℕ)
    → (validate_swipe side action usage ≡ ok tt) ↔ IsSwipe action usage
unfolding validate_swipe IsSwipe
validate_swipe_iff side action usage = ground arith

-- Reading a wire value back gives the action that was written, and a value that reads as an action
-- is the one it is written as.
pub from_wire_iff : (value : ℕ) (a : SwipeAction) → (from_wire value ≡ some a) ↔ (to_wire a ≡ value)
unfolding from_wire
from_wire_iff value nothing = ground arith
from_wire_iff value _ = ground arith
