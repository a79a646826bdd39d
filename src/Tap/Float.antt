-- ===== src/Tap/Float.antt =====
-- `f64`, as the tap rate uses it: an abstract type with its operations. Nothing is assumed of them.
use opad.Prelude.{ℕ, Bool}

pub record Float : Type 1 where
  pub F : Type 0
  -- a literal
  pub lit : ℕ → F
  -- `as f64`, `f64::from`
  pub of_ℕ : ℕ → F
  -- `Duration::as_secs_f64` of a count of nanoseconds, and `live_time_ms` and the like come as F
  pub secs : ℕ → F
  pub add : F → F → F
  pub sub : F → F → F
  pub mul : F → F → F
  pub div : F → F → F
  pub max : F → F → F
  pub min : F → F → F
  pub clamp : F → F → F → F
  pub round : F → F
  pub lt : F → F → Bool
  pub le : F → F → Bool
  pub eq : F → F → Bool
  pub is_nan : F → Bool
  pub is_finite : F → Bool
