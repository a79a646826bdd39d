-- ===== src/Daemon/Ending/Backup.antt =====
-- The automatic backup after a play's sync (desktop/daemon/src/runtime.rs).
use opad.Tap.Float.{Float}
use opad.Daemon.State.{idle, sync}
use opad.Daemon.Events.{RuntimeAction, write_auto_backup}
use opad.Model.Counters.{CounterState}
use opad.Daemon.Controller.{RuntimeController, Env}
use opad.Daemon.Step.{Step, ◌&>◌}
use opad.Daemon.Attempts.{publish_tap_attempt, publish_tap_history}
use opad.Daemon.Tick.{
  tick_cooldown, tick_status, tick_host_status, flush_values, refresh_values, tick_time_sync,
  tick_periodic_sync, tick_tap_stats, tick_backup, tick, tick_rest, sync_completed, hear_sync,
  settle_sync, auto_backup_delay,
}
use opad.Daemon.Steady.{any-append}
use opad.Prelude.{ℕ, ◌+◌, ◌≡◌, ◌∙◌, Bool, true, false, ◌||◌, Option, some, String, leb, any, arith}

or_false : {a b d : Bool} → a ≡ false → b ≡ d → (a || b) ≡ d
or_false h same = ground (arith, h, same)

module _ {fl : Float} where
  abbrev pub is_backup : RuntimeAction fl → Bool
  is_backup write_auto_backup = true
  is_backup _ = false

  -- The step neither writes a backup nor moves it.
  record Patient (m : RuntimeController fl) (s : Step fl) : Type 0 where
    pub mode : s.0.state.mode ≡ m.state.mode
    pub deadline : s.0.backup_deadline ≡ m.backup_deadline
    pub none_of : any is_backup s.1 ≡ false

  &>-Patient :
      {m : RuntimeController fl} {s : Step fl} {f : RuntimeController fl → Step fl}
      → Patient m s
      → ((n : RuntimeController fl) → Patient n (f n))
      → Patient m (s &> f)
  unfolding ◌&>◌
  &>-Patient {s = s} {f = f} hs hf =
      let append = any-append is_backup s.1 (f s.0).1 in
      let next = hf s.0 in
      record {
        mode = next.mode ∙ hs.mode;
        deadline = next.deadline ∙ hs.deadline;
        none_of = ground (arith, append, hs.none_of, next.none_of);
      }

module _ (fl : Float) (m : RuntimeController fl) (now : ℕ) where
  tick_status-Patient : Patient m (tick_status fl m now)
  unfolding tick_status
  tick_status-Patient = ground arith

  tick_host_status-Patient : Patient m (tick_host_status fl m now)
  unfolding tick_host_status
  tick_host_status-Patient = ground arith

  tick_time_sync-Patient : Patient m (tick_time_sync fl m now)
  unfolding tick_time_sync
  tick_time_sync-Patient = ground arith

  tick_periodic_sync-Patient : Patient m (tick_periodic_sync fl m now)
  unfolding tick_periodic_sync
  tick_periodic_sync-Patient = ground arith

  tick_tap_stats-Patient : Patient m (tick_tap_stats fl m now)
  unfolding tick_tap_stats
  tick_tap_stats-Patient = ground arith

  flush_values-Patient : (env : Env) → Patient m (flush_values fl env (refresh_values fl m now))
  unfolding flush_values refresh_values publish_tap_attempt publish_tap_history
  flush_values-Patient env = ground arith

module _ (fl : Float) where
  idle_cooldown-Patient :
      (m : RuntimeController fl) (now : ℕ)
      → m.state.mode ≡ idle
      → Patient m (tick_cooldown fl m now)
  unfolding tick_cooldown
  idle_cooldown-Patient m now in_idle = ground arith

  -- An idle tick writes the backup exactly when its deadline has come.
  backup_written :
      (m : RuntimeController fl) (now deadline : ℕ)
      → m.state.mode ≡ idle
      → m.backup_deadline ≡ some deadline
      → any is_backup (tick_backup fl m now).1 ≡ leb deadline now
  unfolding tick_backup
  backup_written m now deadline in_idle due = ground arith

  -- A tick up to its backup.
  before_backup : Env → RuntimeController fl → ℕ → Step fl
  before_backup env m now =
      tick_status fl m now
      &> (λ n. tick_host_status fl n now)
      &> (λ n. flush_values fl env (refresh_values fl n now))
      &> (λ n. tick_time_sync fl n now)
      &> (λ n. tick_periodic_sync fl n now)
      &> (λ n. tick_tap_stats fl n now)

  before_backup-Patient :
      (env : Env) (m : RuntimeController fl) (now : ℕ) → Patient m (before_backup env m now)
  unfolding before_backup
  before_backup-Patient env m now =
      &>-Patient
        (&>-Patient
          (&>-Patient
            (&>-Patient
              (&>-Patient (tick_status-Patient fl m now) (λ n. tick_host_status-Patient fl n now))
              (λ n. flush_values-Patient fl n now env))
            (λ n. tick_time_sync-Patient fl n now))
          (λ n. tick_periodic_sync-Patient fl n now))
        (λ n. tick_tap_stats-Patient fl n now)

  idle_tick_backup :
      (env : Env) (m : RuntimeController fl) (now deadline : ℕ)
      → m.state.mode ≡ idle
      → m.backup_deadline ≡ some deadline
      → any is_backup (tick fl env m now).1 ≡ leb deadline now
  unfolding tick tick_rest before_backup ◌&>◌
  idle_tick_backup env m now deadline in_idle due =
      let cooled = tick_cooldown fl m now in
      let waited = before_backup env cooled.0 now in
      let first = idle_cooldown-Patient m now in_idle in
      let second = before_backup-Patient env cooled.0 now in
      let written =
        backup_written waited.0 now deadline (second.mode ∙ (first.mode ∙ in_idle))
          (second.deadline ∙ (first.deadline ∙ due)) in
      let rest = any-append is_backup waited.1 (tick_backup fl waited.0 now).1 in
      let whole = any-append is_backup cooled.1 (tick_rest fl env cooled.0 now).1 in
      whole ∙ or_false first.none_of (rest ∙ or_false second.none_of written)

  -- The sync that follows a play, successful or not, puts the daemon back to idle; a tick after it
  -- writes the automatic backup exactly when it is twenty seconds or more after the sync.
  pub sync_completed-tick :
      (env : Env) (m : RuntimeController fl) (success : Bool) (counters : CounterState)
      (time_str error : Option String) (now later : ℕ)
      → m.state.mode ≡ sync
      → m.backup_after_sync ≡ true
      → ((sync_completed fl m success counters time_str error now).0.state.mode ≡ idle)
        × (any is_backup
              (tick fl env (sync_completed fl m success counters time_str error now).0 later).1
            ≡ leb (now + auto_backup_delay) later)
  unfolding sync_completed hear_sync settle_sync
  sync_completed-tick env m success counters time_str error now later in_sync after =
      let to_idle : (sync_completed fl m success counters time_str error now).0.state.mode ≡ idle =
        ground arith in
      (
        to_idle,
        idle_tick_backup env (sync_completed fl m success counters time_str error now).0 later
            (now + auto_backup_delay) to_idle (ground arith),
      )
