-- ===== src/Update/Gate.antt =====
-- When an update may be applied (desktop/crates/opad-update/src/gate.rs).
use opad.Daemon.State.{RuntimeMode}
use opad.Prelude.{Bool, true, false, Result, ok, err}

pub data DeferReason : Type 0 where
  playing cooldown syncing disabled : DeferReason

unfoldable pub may_update_now : RuntimeMode → Bool → Result DeferReason Unit
may_update_now mode false = err DeferReason.disabled
may_update_now RuntimeMode.idle true = ok tt
may_update_now RuntimeMode.playing true = err DeferReason.playing
may_update_now RuntimeMode.cooldown true = err DeferReason.cooldown
may_update_now RuntimeMode.sync true = err DeferReason.syncing
