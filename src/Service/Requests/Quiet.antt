-- ===== src/Service/Requests/Quiet.antt =====
-- What a request leaves as it is while a map is played: the pieces of the handlers
-- (desktop/daemon/src/ipc_handlers.rs).
use opad.Tap.Float.{Float}
use opad.Layout.{Screen, Layout}
use opad.Model.Config.{DeviceConfig}
use opad.Service.Link.{
  PadCall, Shared, Outside, request_status, send_time_sync, send_config, send_layout, reset_layout,
  send_counter_sync, claim_ownership,
}
use opad.Service.Requests.{Handled, IpcResponse, unless, in_play}
use opad.Service.Requests.Settings.{keys_or_debounce_changed, push_layout, apply_in_play}
use opad.Service.Requests.Handle.{
  IpcRequest, set_tap_history_period_request, set_update_channel_request,
  set_update_enabled_request,
}
use opad.Service.Store.{Storage, writes_blocked, set_app_state, set_tap_history_days}
use opad.Service.Link.{
  reset_latency_stats, run_board_test, restart_pad, start_he_calibration, cancel_he_calibration,
  detect_pin, play_animation, send_number,
}
use opad.Service.Requests.Preferences.{save_setting, save_enabled}
use opad.Service.Requests.Commands.{commanded, answer, without_latency}
use opad.Prelude.{
  [], ◌∷◌, String, Result, ok, err, Bool-cases, inl, inr, ℕ, ◌≡◌, refl, ap, ◌∙◌, Bool, true, false,
  not, Option, none, some, any, is_some, Bool-cases, inl, inr, arith,
}

-- A message that carries neither counters nor an owner, and starts no calibration.
abbrev pub is_harmless : PadCall → Bool
is_harmless request_status = true
is_harmless send_time_sync = true
is_harmless (send_config cfg) = true
is_harmless (send_layout screen layout) = true
is_harmless (reset_layout screen) = true
is_harmless reset_latency_stats = true
is_harmless run_board_test = true
is_harmless restart_pad = true
is_harmless cancel_he_calibration = true
is_harmless (detect_pin key_id timeout_ms exclude_gpio) = true
is_harmless (play_animation animation grade) = true
is_harmless (send_number source value) = true
is_harmless start_he_calibration = false
is_harmless (send_counter_sync c force) = false
is_harmless (claim_ownership owner) = false

abbrev pub changes_store : PadCall → Bool
changes_store call = not (is_harmless call)

-- It saves a setting and has no test of the mode.
abbrev pub saves_setting : IpcRequest → Bool
saves_setting (set_tap_history_period_request days) = true
saves_setting (set_update_channel_request channel) = true
saves_setting (set_update_enabled_request component enabled) = true
saves_setting _ = false

-- There is a database that takes writes.
abbrev pub is_open : Option Storage → Bool
is_open none = false
is_open (some s) = s.writes_allowed

-- The database is as it was, neither counters nor an owner were sent, and no calibration was started.
pub record IsGated (fl : Float) (sh : Shared fl) (h : Handled fl) : Type 0 where
  pub storage : h.0.storage ≡ sh.storage
  pub calls : any changes_store h.1 ≡ false

module _ {fl : Float} where
  pub unless-IsGated :
      (r : Option IpcResponse) (sh : Shared fl) (rest : Handled fl)
      → IsGated fl sh rest
      → IsGated fl sh (unless fl r sh rest)
  unfolding unless
  unless-IsGated none sh rest h = h
  unless-IsGated (some response) sh rest h = record { storage = refl; calls = refl }

  pub refused-IsGated :
      (r : Option IpcResponse) (sh : Shared fl) (rest : Handled fl)
      → is_some r ≡ true
      → IsGated fl sh (unless fl r sh rest)
  unfolding unless
  refused-IsGated none sh rest h = ground arith
  refused-IsGated (some response) sh rest h = record { storage = refl; calls = refl }

module _ (fl : Float) (out : Outside fl) (sh : Shared fl) where
  pub push_layout-IsGated :
      (before saved : Shared fl) (screen : Screen) (entry : Option Layout) (call : PadCall)
      → before.storage ≡ sh.storage
      → in_play before.state.mode ≡ true
      → is_harmless call ≡ true
      → ((n : ℕ) (s : Shared fl) → out.meanwhile n s ≡ s)
      → IsGated fl sh (push_layout fl out before screen entry call saved)
  unfolding push_layout
  push_layout-IsGated before saved screen entry call same busy ram quiet =
      rw busy
        (record { storage = ap (λ s. s.storage) (quiet 0 before) ∙ same; calls = rw ram refl })

  pub apply_in_play-IsGated :
      (cfg : DeviceConfig)
      → ((n : ℕ) (s : Shared fl) → out.meanwhile n s ≡ s)
      → IsGated fl sh (apply_in_play fl out sh cfg)
  unfolding apply_in_play
  apply_in_play-IsGated cfg quiet =
      elim (Bool-cases (keys_or_debounce_changed sh.state.config cfg)) [
        | inl e ↦ rw e (record { storage = refl; calls = refl })
        | inr e ↦ rw e (record { storage = ap (λ s. s.storage) (quiet 0 sh); calls = refl })
      ]

  pub locked_state :
      (s : Storage) (key value : String)
      → s.writes_allowed ≡ false
      → set_app_state s key value ≡ err writes_blocked
  unfolding set_app_state
  locked_state s key value h = rw h refl

  pub locked_period :
      (out : Outside fl) (days : ℕ) (o : Option Storage)
      → is_open o ≡ false
      → (elim o [
        | none ↦ none
        | some s ↦ some (elim (set_tap_history_days out.to_text s days) [ ok s' ↦ s' | err e ↦ s ])
      ])
        ≡ o
  unfolding set_tap_history_days
  locked_period out days none h = refl
  locked_period out days (some s) h = ground (arith, locked_state s)

  pub save_setting-IsGated :
      (key value : String) (done : IpcResponse) (o : Option Storage)
      → sh.storage ≡ o
      → is_open o ≡ false
      → IsGated fl sh (save_setting fl sh key value done o)
  save_setting-IsGated key value done none same h = record { storage = refl; calls = refl }
  save_setting-IsGated key value done (some s) same h =
      rw (locked_state s key value h, save_setting) (record { storage = refl; calls = refl })

  pub save_enabled-IsGated :
      (enabled : Bool) (key : Option String)
      → is_open sh.storage ≡ false
      → IsGated fl sh (save_enabled fl sh enabled key)
  save_enabled-IsGated enabled none h = record { storage = refl; calls = refl }
  save_enabled-IsGated enabled (some key) h = save_setting-IsGated key _ _ sh.storage refl h

  pub quiet-IsGated :
      (call : PadCall) (response : IpcResponse) (before after : Shared fl)
      → is_harmless call ≡ true
      → before.storage ≡ sh.storage
      → after.storage ≡ before.storage
      → IsGated fl sh (after, call ∷ [], response)
  quiet-IsGated call response before after ram same quiet = record {
    storage = quiet ∙ same;
    calls = rw ram refl;
  }

  pub commanded-IsGated :
      (call : PadCall) (done failed : IpcResponse)
      → is_harmless call ≡ true
      → ((n : ℕ) (s : Shared fl) → out.meanwhile n s ≡ s)
      → IsGated fl sh (commanded fl out sh call done failed)
  commanded-IsGated call done failed ram quiet =
      quiet-IsGated call (answer out.sent done failed) sh (out.meanwhile 0 sh) ram refl
        (ap (λ s. s.storage) (quiet 0 sh))

  pub latency-IsGated :
      (r : Result String Unit) (response : IpcResponse)
      → ((n : ℕ) (s : Shared fl) → out.meanwhile n s ≡ s)
      → IsGated fl sh
          (without_latency fl r (out.meanwhile 0 sh), reset_latency_stats ∷ [], response)
  latency-IsGated (ok u) response quiet =
      quiet-IsGated reset_latency_stats response sh _ refl refl (ap (λ s. s.storage) (quiet 0 sh))
  latency-IsGated (err e) response quiet =
      quiet-IsGated reset_latency_stats response sh _ refl refl (ap (λ s. s.storage) (quiet 0 sh))
