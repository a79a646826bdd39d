-- ===== src/Daemon/Telemetry/Flush.antt =====
-- A flush brings the pad's view to the latest values (desktop/daemon/src/telemetry.rs,
-- `take_changes`).
use mathlib.Core.Path.{subst⁻¹}
use opad.Tap.Float.{Float}
use opad.Tap.Values.{SourceValue}
use opad.Daemon.Telemetry.{
  new_sync, ingest, reset_sent, clear_sync, take_changes, is_recent, flush_interval_playing,
  flush_interval_idle, sort_by_key, extend, DataSync, get, unsent, same_value, is_sent,
}
use opad.Daemon.Telemetry.Maps.{
  extend-Unique, get-extend, get-sort_by_key, sort_by_key-Unique, Unique, or_get,
}
use opad.Prelude.{
  sym, ap, ◌∙◌, Bool-cases, not, ◌&&◌, ℕ, ◌≡◌, ◌⊎◌, inl, inr, refl, Bool, true, Option, none, some,
  List, [], ◌∷◌, if◌then◌else◌, arith,
}

module _ (fl : Float) where
  -- `take_changes` ends before it compares.
  abbrev held : DataSync fl → ℕ → Bool → ℕ → Bool → Bool
  held d clock playing hz force =
      not force
      && is_recent fl d.last_flush clock
          (if playing then flush_interval_playing hz else flush_interval_idle)

  abbrev pending : List (ℕ × SourceValue fl) → ℕ → Option (SourceValue fl) → Option (SourceValue fl)
  pending sent j none = none
  pending sent j (some v) = if is_sent fl (get j sent) v then none else some v

  get-unsent :
      (j : ℕ) (sent m : List (ℕ × SourceValue fl))
      → Unique m
      → get j (unsent fl sent m) ≡ pending sent j (get j m)
  unfolding get unsent
  get-unsent j sent [] u = refl
  get-unsent j sent ((k, v) ∷ m) u = ground (arith, get-unsent j sent m u.1)

  unsent-Unique : (sent m : List (ℕ × SourceValue fl)) → Unique m → Unique (unsent fl sent m)
  unfolding get unsent
  unsent-Unique sent [] u = tt
  unsent-Unique sent ((k, v) ∷ m) u =
      ground (arith, unsent-Unique sent m u.1, get-unsent k sent m u.1)

  -- The pad shows a value that is the latest one or compares equal to it.
  pub record Shows (view latest : Option (SourceValue fl)) : Type 0 where
    pub shown :
        (latest ≡ none)
        ⊎ ((view ≡ latest)
            ⊎ ((w : SourceValue fl) × (v : SourceValue fl) × (view ≡ some w)
                × (latest ≡ some v)
                × (same_value fl w v ≡ true)))

  is_sent-Shows :
      (o : Option (SourceValue fl)) (v : SourceValue fl)
      → Shows (or_get (if is_sent fl o v then none else some v) o) (some v)
  is_sent-Shows none v = record { shown = inr (inl refl) }
  is_sent-Shows (some w) v = elim (Bool-cases (same_value fl w v)) [
    | inl e ↦ rw e (record { shown = inr (inr (w, v, refl, refl, e)) })
    | inr e ↦ rw e (record { shown = inr (inl refl) })
  ]

  pending-Shows :
      (j : ℕ) (sent : List (ℕ × SourceValue fl)) (latest : Option (SourceValue fl))
      → Shows (or_get (pending sent j latest) (get j sent)) latest
  pending-Shows j sent none = record { shown = inl refl }
  pending-Shows j sent (some v) = is_sent-Shows (get j sent) v

  -- What happens between the daemon and the pad: values come in, a flush sends changes, the pad loses
  -- its view with its connection, and it clears the values itself where tosu goes away.
  pub data Traffic : Type 0 where
    values_arrive : List (ℕ × SourceValue fl) → Traffic
    flush : ℕ → Bool → ℕ → Bool → Traffic
    pad_lost tosu_lost : Traffic

  -- The daemon's side, and what the pad shows after the changes that it was sent.
  abbrev pub exchange :
      DataSync fl × List (ℕ × SourceValue fl) → Traffic → DataSync fl × List (ℕ × SourceValue fl)
  exchange (d, view) (values_arrive values) = (ingest fl d values, view)
  exchange (d, view) (flush clock playing hz force) =
      let (d', changes) = take_changes fl d clock playing hz force in (d', extend view changes)
  exchange (d, view) pad_lost = (reset_sent fl d, [])
  exchange (d, view) tosu_lost = (clear_sync fl d, [])

  abbrev pub exchanges :
      DataSync fl × List (ℕ × SourceValue fl)
      → List Traffic
      → DataSync fl × List (ℕ × SourceValue fl)
  exchanges s [] = s
  exchanges s (t ∷ ts) = exchanges (exchange s t) ts

  -- The daemon knows what the pad shows, and has one latest value for a source.
  record Knows (s : DataSync fl × List (ℕ × SourceValue fl)) : Type 0 where
    knows : s.0.sent ≡ s.1
    one_each : Unique s.0.latest

  exchange-Knows :
      (s : DataSync fl × List (ℕ × SourceValue fl)) (t : Traffic) → Knows s → Knows (exchange s t)
  unfolding ingest take_changes reset_sent clear_sync extend
  exchange-Knows (d, view) (values_arrive values) k = record {
    knows = k.knows;
    one_each = extend-Unique d.latest values k.one_each;
  }
  exchange-Knows (d, view) (flush clock playing hz force) k =
      elim (Bool-cases (held d clock playing hz force)) [
        | inl e ↦ rw e (record { knows = k.knows; one_each = k.one_each })
        | inr e ↦ rw e (record {
          knows = ap (λ m. extend m (sort_by_key (unsent fl d.sent d.latest))) k.knows;
          one_each = k.one_each;
        })
      ]
  exchange-Knows (d, view) pad_lost k = record { knows = refl; one_each = k.one_each }
  exchange-Knows (d, view) tosu_lost k = record { knows = refl; one_each = tt }

  exchanges-Knows :
      (s : DataSync fl × List (ℕ × SourceValue fl)) (ts : List Traffic)
      → Knows s
      → Knows (exchanges s ts)
  exchanges-Knows s [] k = k
  exchanges-Knows s (t ∷ ts) k = exchanges-Knows (exchange s t) ts (exchange-Knows s t k)

  flush-Shows :
      (s : DataSync fl × List (ℕ × SourceValue fl)) (clock hz j : ℕ) (playing : Bool)
      → Knows s
      → Shows (get j (exchange s (flush clock playing hz true)).1) (get j s.0.latest)
  unfolding take_changes
  flush-Shows (d, view) clock hz j playing k =
      let m = unsent fl d.sent d.latest in
      let u = unsent-Unique d.sent d.latest k.one_each in
      let e1 = get-extend j view (sort_by_key m) (sort_by_key-Unique m u) in
      let e2 : or_get (get j (sort_by_key m)) (get j view)
          ≡ or_get (pending d.sent j (get j d.latest)) (get j d.sent) =
        ap (λ o. or_get o (get j view))
          (get-sort_by_key j m u ∙ get-unsent j d.sent d.latest k.one_each)
        ∙ ap (λ x. or_get (pending d.sent j (get j d.latest)) (get j x)) (sym k.knows) in
      subst⁻¹ (λ o. Shows o (get j d.latest)) (e1 ∙ e2) (pending-Shows j d.sent (get j d.latest))

  -- Whatever was exchanged before, after a forced flush the pad shows, for every source with a latest
  -- value, that value or one that compares equal to it, although only changes are sent.
  pub exchanges-Shows :
      (ts : List Traffic) (clock hz j : ℕ) (playing : Bool)
      → Shows
          (get j (exchange (exchanges (new_sync fl, []) ts) (flush clock playing hz true)).1)
          (get j (exchanges (new_sync fl, []) ts).0.latest)
  exchanges-Shows ts clock hz j playing =
      flush-Shows (exchanges (new_sync fl, []) ts) clock hz j playing
        (exchanges-Knows (new_sync fl, []) ts (record { knows = refl; one_each = tt }))
