-- ===== src/Prelude/Dict.antt =====
-- Hash maps as association lists. The order of the entries stands for the unspecified order in
-- which a `HashMap` is walked.
use mathlib.Core.Path.{◌≡◌, refl}
use mathlib.Core.Option
use mathlib.Core.Option.{Option, none, some}
use mathlib.Core.List.{List, [], ◌∷◌}
use native.Mathlib.Omega.{arith}
use cordelia_core.Prelude.Equality.{Eq, ◌==◌, if◌then◌else◌}

abbrev pub Dict {ℓ κ} : Type ℓ → Type κ → Type (ℓ ⊔ κ)
Dict K V = List (K × V)

abbrev pub values {ℓ κ} : {K : Type ℓ} {V : Type κ} → Dict K V → List V
values [] = []
values ((k, v) ∷ d) = v ∷ values d

abbrev pub keys {ℓ κ} : {K : Type ℓ} {V : Type κ} → Dict K V → List K
keys [] = []
keys ((k, v) ∷ d) = k ∷ keys d

-- An assignment to every value, `for v in values_mut()`.
unfoldable pub map_values {ℓ κ} : {K : Type ℓ} {V : Type κ} → (V → V) → Dict K V → Dict K V
map_values f [] = []
map_values f ((k, v) ∷ d) = (k, f v) ∷ map_values f d

module _ {ℓ κ} {K : Type ℓ} {V : Type κ} ⦃e : Eq K⦄ where
  -- `get`
  unfoldable pub lookup : K → Dict K V → Option V
  lookup k [] = none
  lookup k ((j, v) ∷ d) = let rest = lookup k d in if j == k then some v else rest

  -- `insert`: overwrites in place, or adds.
  unfoldable pub insert : K → V → Dict K V → Dict K V
  insert k v [] = (k, v) ∷ []
  insert k v ((j, w) ∷ d) = let rest = insert k v d in if j == k then (k, v) ∷ d else (j, w) ∷ rest

  -- `get_mut`, and an assignment through the reference.
  unfoldable pub modify : K → (V → V) → Dict K V → Dict K V
  modify k f [] = []
  modify k f ((j, w) ∷ d) =
      let rest = modify k f d in if j == k then (j, f w) ∷ d else (j, w) ∷ rest

  -- `remove`
  unfoldable pub remove : K → Dict K V → Dict K V
  remove k [] = []
  remove k ((j, w) ∷ d) = let rest = remove k d in if j == k then rest else (j, w) ∷ rest

  abbrev pub NodupKeys : Dict K V → Type κ
  NodupKeys [] = Unit
  NodupKeys ((k, _) ∷ d) = (lookup k d ≡ none) × NodupKeys d

  pub lookup-insert :
      (j k : K) (v : V) (d : Dict K V)
      → lookup j (insert k v d) ≡ (if k == j then some v else lookup j d)
  unfolding lookup insert
  lookup-insert j k v [] = ground arith
  lookup-insert j k v (_ ∷ d) = ground (arith, lookup-insert j k v d)

  pub lookup-remove :
      (j k : K) (d : Dict K V) → lookup j (remove k d) ≡ (if k == j then none else lookup j d)
  unfolding lookup remove
  lookup-remove j k [] = ground arith
  lookup-remove j k (_ ∷ d) = ground (arith, lookup-remove j k d)

  pub lookup-modify :
      (j k : K) (f : V → V) (d : Dict K V)
      → lookup j (modify k f d) ≡ (if k == j then Option.map f (lookup j d) else lookup j d)
  unfolding lookup modify
  lookup-modify j k f [] = ground arith
  lookup-modify j k f (_ ∷ d) = ground (arith, lookup-modify j k f d)

  pub insert-NodupKeys : (k : K) (v : V) (d : Dict K V) → NodupKeys d → NodupKeys (insert k v d)
  unfolding insert lookup
  insert-NodupKeys k v [] h = (refl, tt)
  insert-NodupKeys k v ((j, _) ∷ d) h =
      ground (arith, insert-NodupKeys k v d h.1, lookup-insert j k v d)

  pub remove-NodupKeys : (k : K) (d : Dict K V) → NodupKeys d → NodupKeys (remove k d)
  unfolding remove
  remove-NodupKeys k [] h = tt
  remove-NodupKeys k ((j, _) ∷ d) h = ground (arith, remove-NodupKeys k d h.1, lookup-remove j k d)

  pub modify-NodupKeys : (k : K) (f : V → V) (d : Dict K V) → NodupKeys d → NodupKeys (modify k f d)
  unfolding modify
  modify-NodupKeys k f [] h = tt
  modify-NodupKeys k f ((j, _) ∷ d) h =
      ground (arith, modify-NodupKeys k f d h.1, lookup-modify j k f d)

  pub lookup-map_values :
      (j : K) (f : V → V) (d : Dict K V) → lookup j (map_values f d) ≡ Option.map f (lookup j d)
  unfolding lookup map_values
  lookup-map_values j f [] = refl
  lookup-map_values j f (_ ∷ d) = ground (arith, lookup-map_values j f d)

  pub map_values-NodupKeys : (f : V → V) (d : Dict K V) → NodupKeys d → NodupKeys (map_values f d)
  unfolding map_values
  map_values-NodupKeys f [] h = tt
  map_values-NodupKeys f ((j, _) ∷ d) h =
      ground (arith, map_values-NodupKeys f d h.1, lookup-map_values j f d)

  -- Every entry, with its key.
  abbrev pub AllEntries {μ} : (K → V → Type μ) → Dict K V → Type μ
  AllEntries P [] = Unit
  AllEntries P ((k, v) ∷ d) = P k v × AllEntries P d

  module _ {μ} (P : K → V → Type μ) where
    pub AllEntries-modify :
        (k : K) (f : V → V) (d : Dict K V)
        → ((j : K) (v : V) → P j v → P j (f v))
        → AllEntries P d
        → AllEntries P (modify k f d)
    unfolding modify
    AllEntries-modify k f [] keep h = tt
    AllEntries-modify k f ((j, w) ∷ d) keep h =
        ground (arith, AllEntries-modify k f d keep h.1, keep j w h.0)

    pub AllEntries-insert :
        (k : K) (v : V) (d : Dict K V) → P k v → AllEntries P d → AllEntries P (insert k v d)
    unfolding insert
    AllEntries-insert k v [] p h = (p, tt)
    AllEntries-insert k v ((j, w) ∷ d) p h = ground (arith, AllEntries-insert k v d p h.1)

    pub AllEntries-remove : (k : K) (d : Dict K V) → AllEntries P d → AllEntries P (remove k d)
    unfolding remove
    AllEntries-remove k [] h = tt
    AllEntries-remove k ((j, w) ∷ d) h = ground (arith, AllEntries-remove k d h.1)

    pub AllEntries-map_values :
        (f : V → V) (d : Dict K V)
        → ((j : K) (v : V) → P j v → P j (f v))
        → AllEntries P d
        → AllEntries P (map_values f d)
    unfolding map_values
    AllEntries-map_values f [] keep h = tt
    AllEntries-map_values f ((j, w) ∷ d) keep h = (keep j w h.0, AllEntries-map_values f d keep h.1)

    pub AllEntries-lookup :
        (k : K) (v : V) (d : Dict K V) → AllEntries P d → lookup k d ≡ some v → P k v
    unfolding lookup
    AllEntries-lookup k v [] h e = absurd (ground arith)
    AllEntries-lookup k v ((j, w) ∷ d) h e = ground (arith, AllEntries-lookup k v d h.1)
