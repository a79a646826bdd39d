-- ===== src/Daemon/Step.antt =====
-- A step of the controller and what it asks for, in the order of the code's `actions.push`.
use opad.Tap.Float.{Float}
use opad.Daemon.Events.{RuntimeAction}
use opad.Daemon.Controller.{RuntimeController}
use opad.Prelude.{List, [], ◌++◌}

module _ (fl : Float) where
  abbrev pub Step : Type 0
  Step = RuntimeController fl × List (RuntimeAction fl)

module _ {fl : Float} where
  infixl 5 ◌&>◌
  -- One piece of a handler after another.
  unfoldable pub ◌&>◌ : Step fl → (RuntimeController fl → Step fl) → Step fl
  s &> f = ((f s.0).0, s.1 ++ (f s.0).1)

  -- A piece that only asks for something.
  abbrev pub ask : RuntimeController fl → List (RuntimeAction fl) → Step fl
  ask m actions = (m, actions)

  -- A piece that only changes the controller.
  abbrev pub quiet : RuntimeController fl → Step fl
  quiet m = (m, [])
