-- ===== src/Daemon/Telemetry/Maps.antt =====
-- The maps of the telemetry: what a key holds after each operation (desktop/daemon/src/telemetry.rs).
use opad.Daemon.Telemetry.{get, insert, extend, insert_sorted, sort_by_key}
use opad.Prelude.{ℕ, ◌≡◌, refl, ◌∙◌, Option, none, some, List, [], ◌∷◌, ◌==◌, if◌then◌else◌, arith}

module _ {V : Type 0} where
  -- One entry for each key.
  abbrev pub Unique : List (ℕ × V) → Type 0
  Unique [] = Unit
  Unique ((k, v) ∷ m) = (get k m ≡ none) × Unique m

  abbrev pub or_get : Option V → Option V → Option V
  or_get none b = b
  or_get (some a) b = some a

  pub get-insert :
      (j k : ℕ) (v : V) (m : List (ℕ × V))
      → get j (insert k v m) ≡ (if k == j then some v else get j m)
  unfolding get insert
  get-insert j k v [] = ground arith
  get-insert j k v ((l, w) ∷ m) = ground (arith, get-insert j k v m)

  pub insert-Unique : (k : ℕ) (v : V) (m : List (ℕ × V)) → Unique m → Unique (insert k v m)
  unfolding get insert
  insert-Unique k v [] h = (refl, tt)
  insert-Unique k v ((l, w) ∷ m) h = ground (arith, insert-Unique k v m h.1, get-insert l k v m)

  pub extend-Unique : (m kvs : List (ℕ × V)) → Unique m → Unique (extend m kvs)
  unfolding extend
  extend-Unique m [] h = h
  extend-Unique m ((k, v) ∷ kvs) h = extend-Unique (insert k v m) kvs (insert-Unique k v m h)

  pub get-extend :
      (j : ℕ) (m kvs : List (ℕ × V))
      → Unique kvs
      → get j (extend m kvs) ≡ or_get (get j kvs) (get j m)
  unfolding get extend
  get-extend j m [] h = refl
  get-extend j m ((k, v) ∷ kvs) h =
      ground (arith, get-extend j (insert k v m) kvs h.1, get-insert j k v m)

  get-insert_sorted :
      (j k : ℕ) (v : V) (m : List (ℕ × V))
      → get k m ≡ none
      → get j (insert_sorted (k, v) m) ≡ (if k == j then some v else get j m)
  unfolding get insert_sorted
  get-insert_sorted j k v [] h = ground arith
  get-insert_sorted j k v ((l, w) ∷ m) h = ground (arith, get-insert_sorted j k v m)

  insert_sorted-Unique :
      (k : ℕ) (v : V) (m : List (ℕ × V))
      → get k m ≡ none
      → Unique m
      → Unique (insert_sorted (k, v) m)
  unfolding get insert_sorted
  insert_sorted-Unique k v [] h u = (refl, tt)
  insert_sorted-Unique k v ((l, w) ∷ m) h u =
      ground (arith, insert_sorted-Unique k v m, get-insert_sorted l k v m)

  pub get-sort_by_key : (j : ℕ) (m : List (ℕ × V)) → Unique m → get j (sort_by_key m) ≡ get j m
  unfolding get sort_by_key
  get-sort_by_key j [] u = refl
  get-sort_by_key j ((k, v) ∷ m) u = ground (
    arith,
    get-sort_by_key j m u.1,
    get-sort_by_key k m u.1,
    get-insert_sorted j k v (sort_by_key m),
  )

  pub sort_by_key-Unique : (m : List (ℕ × V)) → Unique m → Unique (sort_by_key m)
  unfolding sort_by_key
  sort_by_key-Unique [] u = tt
  sort_by_key-Unique ((k, v) ∷ m) u =
      insert_sorted-Unique k v (sort_by_key m) (get-sort_by_key k m u.1 ∙ u.0)
        (sort_by_key-Unique m u.1)
