-- ===== src/Model/Keys.antt =====
-- Key pins (desktop/crates/opad-model/src/lib.rs). An error is its message with the numbers it shows.
use opad.Prelude.{
  refl, ℕ, ◌≡◌, ◌≢◌, ◌↔◌, Bool, true, Option, List, [], ◌∷◌, String, arith, ◌==◌, if◌then◌else◌,
  find, is_some, Result, ok, err, ◌>>◌, not,
}

-- The messages of `validate` and of what it calls.
pub data ConfigError : Type 0 where
  invalid_key1_usage invalid_key2_usage debounce_range brightness_range sleep_range hz_range :
      ℕ → ConfigError
  invalid_swipe_key invalid_swipe_modifiers : String → ℕ → ConfigError
  swipe_needs_key he_range : String → ConfigError
  unsupported_key1_pin unsupported_key2_pin shared_pin : ℕ → ConfigError

abbrev pub Checked : Type 0
Checked = Result ConfigError (Unit {0})

-- `if test { return Err(e) }`
abbrev pub reject_if : Bool → ConfigError → Checked
reject_if test e = if test then err e else ok tt

-- A chain of checks passes exactly if each of them does.
pub checks_iff : (m k : Checked) → ((m >> k) ≡ ok tt) ↔ ((m ≡ ok tt) × (k ≡ ok tt))
checks_iff (ok u) k = (λ h. (refl, h), λ h. h.1)
checks_iff (err e) k = (λ h. cc, λ h. cc)

pub record KeyPin : Type 0 where
  pub gpio : ℕ
  pub header : String
  pub pin : ℕ

abbrev key : ℕ → String → ℕ → KeyPin
key gpio header pin = record { gpio = gpio; header = header; pin = pin }

abbrev pub key_pins : List KeyPin
key_pins =
    key 2 "P1" 1
    ∷ key 4 "P1" 2
    ∷ key 6 "P1" 3
    ∷ key 7 "P1" 9
    ∷ key 8 "P1" 8
    ∷ key 9 "P2" 12
    ∷ key 10 "P1" 10
    ∷ key 11 "P2" 9
    ∷ key 12 "P2" 10
    ∷ key 13 "P2" 8
    ∷ key 14 "P2" 11
    ∷ key 15 "P2" 7
    ∷ key 16 "P1" 4
    ∷ key 18 "P1" 6
    ∷ key 21 "P1" 7
    ∷ []

abbrev pub default_key1_gpio : ℕ
default_key1_gpio = 14

abbrev pub default_key2_gpio : ℕ
default_key2_gpio = 9

unfoldable pub key_pin : ℕ → Option KeyPin
key_pin gpio = find (λ p. p.gpio == gpio) key_pins

unfoldable pub validate_key_gpios : ℕ → ℕ → Checked
validate_key_gpios key1_gpio key2_gpio = do
  reject_if (not (is_some (key_pin key1_gpio))) (unsupported_key1_pin key1_gpio)
  reject_if (not (is_some (key_pin key2_gpio))) (unsupported_key2_pin key2_gpio)
  reject_if (key1_gpio == key2_gpio) (shared_pin key1_gpio)

-- Two key pins are accepted exactly if both are in the pad's list and they differ.
pub validate_key_gpios_iff :
    (g h : ℕ)
    → (validate_key_gpios g h ≡ ok tt)
      ↔ ((is_some (key_pin g) ≡ true) × (is_some (key_pin h) ≡ true) × (g ≢ h))
unfolding validate_key_gpios
validate_key_gpios_iff g h = ground arith
