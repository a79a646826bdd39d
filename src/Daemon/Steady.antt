-- ===== src/Daemon/Steady.antt =====
-- What the pieces of the handlers of desktop/daemon/src/runtime.rs leave as it is, and the kinds of
-- the actions that they ask for.
pub mod Timer
pub mod Pad
pub mod Play
use opad.Tap.Float.{Float}
use opad.Daemon.State.{DaemonState, RuntimeMode, is_idle, may_touch_pad}
use opad.Daemon.Events.{
  RuntimeAction, send_config, send_layout, send_data_update, play_animation, trigger_sync,
  claim_ownership, set_storage_writes_allowed, save_initial_device_state, touch_device_last_seen,
  write_auto_backup, save_tap_stats, save_device_config, send_time_sync, request_device_status,
  send_host_status, take_over_if_pad_is_ahead,
}
use opad.Daemon.Controller.{RuntimeController}
use opad.Daemon.Step.{Step, ◌&>◌, quiet}
use opad.Prelude.{
  ℕ, ◌≡◌, refl, ◌∙◌, sym, ap, Bool, true, false, not, ◌&&◌, ◌||◌, Option, none, some, List, [], ◌∷◌,
  ◌++◌, any, arith, if◌then◌else◌,
}

module _ {ℓ} {A : Type ℓ} where
  pub any-append : (p : A → Bool) (xs ys : List A) → any p (xs ++ ys) ≡ (any p xs || any p ys)
  any-append p [] ys = refl
  any-append p (x ∷ xs) ys = ground (arith, any-append p xs ys)

module _ {fl : Float} where
  -- It saves the configuration of a pad that connects.
  abbrev pub is_config_save : RuntimeAction fl → Bool
  is_config_save (save_device_config cfg) = true
  is_config_save _ = false

  -- It writes to the database, and something else than that.
  abbrev pub is_idle_write : RuntimeAction fl → Bool
  is_idle_write (save_initial_device_state i c) = true
  is_idle_write (touch_device_last_seen id) = true
  is_idle_write write_auto_backup = true
  is_idle_write (save_tap_stats attempts days) = true
  is_idle_write _ = false

  -- It writes to the database.
  abbrev pub is_store_write : RuntimeAction fl → Bool
  is_store_write action = is_idle_write action || is_config_save action

  abbrev pub is_flag : RuntimeAction fl → Bool
  is_flag (set_storage_writes_allowed allowed) = true
  is_flag _ = false

  -- It makes the daemon send something to the pad, or look whether it should.
  abbrev pub reaches_pad : RuntimeAction fl → Bool
  reaches_pad send_time_sync = true
  reaches_pad request_device_status = true
  reaches_pad (send_host_status tosu_connected playing play_id active) = true
  reaches_pad take_over_if_pad_is_ahead = true
  reaches_pad (send_config cfg) = true
  reaches_pad (send_layout screen layout) = true
  reaches_pad (send_data_update values) = true
  reaches_pad (play_animation animation grade) = true
  reaches_pad trigger_sync = true
  reaches_pad claim_ownership = true
  reaches_pad _ = false

  -- What a pad of any install is sent: the time, a question for its status, and the host's status;
  -- and the check whether the pad is ahead, which takes it over if so.
  abbrev pub is_for_any_pad : RuntimeAction fl → Bool
  is_for_any_pad send_time_sync = true
  is_for_any_pad request_device_status = true
  is_for_any_pad (send_host_status tosu_connected playing play_id active) = true
  is_for_any_pad take_over_if_pad_is_ahead = true
  is_for_any_pad _ = false

  -- It changes the pad, or what is stored of it, without that check.
  abbrev pub is_push : RuntimeAction fl → Bool
  is_push action = reaches_pad action && not (is_for_any_pad action)

  abbrev pub is_sync : RuntimeAction fl → Bool
  is_sync trigger_sync = true
  is_sync _ = false

  -- The step leaves the mode; only when idle it writes more than a connecting pad's configuration.
  pub record Steady (m : RuntimeController fl) (s : Step fl) : Type 0 where
    pub mode : s.0.state.mode ≡ m.state.mode
    pub flag : any is_flag s.1 ≡ false
    pub writes : any is_idle_write s.1 ≡ true → is_idle m.state.mode ≡ true

  -- The step leaves the pad's owner and prompts, and heeds them.
  pub record Heeds (m : RuntimeController fl) (s : Step fl) : Type 0 where
    pub foreign : s.0.state.foreign_pad ≡ m.state.foreign_pad
    pub guard : may_touch_pad fl s.0.state ≡ may_touch_pad fl m.state
    pub pushes : m.state.foreign_pad ≡ true → any is_push s.1 ≡ false
    pub syncs : any is_sync s.1 ≡ true → may_touch_pad fl m.state ≡ true
    pub saves : any is_config_save s.1 ≡ false

  -- A property of both branches.
  pub branches :
      (P : Step fl → Type 0) (b : Bool) {s t : Step fl} → P s → P t → P (if b then s else t)
  branches P true hs ht = hs
  branches P false hs ht = ht

  pub &>-Steady :
      {m : RuntimeController fl} {s : Step fl} {f : RuntimeController fl → Step fl}
      → Steady m s
      → ((n : RuntimeController fl) → Steady n (f n))
      → Steady m (s &> f)
  unfolding ◌&>◌
  &>-Steady {s = s} {f = f} hs hf =
      let append = any-append is_flag s.1 (f s.0).1 in
      let append' = any-append is_idle_write s.1 (f s.0).1 in
      let next = hf s.0 in
      record {
        mode = next.mode ∙ hs.mode;
        flag = ground (arith, append, next.flag, hs.flag);
        writes = λ h. ground (arith, append', next.writes, hs.writes, next.mode, hs.mode, h);
      }

  pub &>-Heeds :
      {m : RuntimeController fl} {s : Step fl} {f : RuntimeController fl → Step fl}
      → Heeds m s
      → ((n : RuntimeController fl) → Heeds n (f n))
      → Heeds m (s &> f)
  unfolding ◌&>◌
  &>-Heeds {s = s} {f = f} hs hf =
      let append = any-append is_push s.1 (f s.0).1 in
      let append' = any-append is_sync s.1 (f s.0).1 in
      let saved = any-append is_config_save s.1 (f s.0).1 in
      let next = hf s.0 in
      record {
        foreign = next.foreign ∙ hs.foreign;
        guard = next.guard ∙ hs.guard;
        pushes = λ h. ground (arith, append, next.pushes, hs.pushes, hs.foreign, h);
        syncs = λ h. ground (arith, append', next.syncs, hs.syncs, hs.guard, h);
        saves = ground (arith, saved, next.saves, hs.saves);
      }
