-- ===== src/Prelude/Distinct.antt =====
-- Lists whose elements have distinct keys: what filtering, sorting and cutting keep of that.
use Prim.Native.Nat.{ℕ, zero, suc, Ordering}
use mathlib.Core.Path.{◌≡◌, sym}
use mathlib.Core.Logic.{◌≢◌}
use mathlib.Core.Bool.{Bool}
use mathlib.Core.List.{List, [], ◌∷◌, map}
use native.Mathlib.Omega.{arith}
use cordelia_core.Prelude.Lists.{All, All-filter, All-take, filter, take}
use cordelia_core.Prelude.Sort.{insert_by, sort_by, All-insert_by, All-sort_by}

module _ {ℓ κ} {A : Type ℓ} {K : Type κ} (key : A → K) where
  abbrev pub Distinct : List A → Type κ
  Distinct [] = Unit
  Distinct (x ∷ xs) = All (λ y. key x ≢ key y) xs × Distinct xs

  pub Distinct-filter : (p : A → Bool) (xs : List A) → Distinct xs → Distinct (filter p xs)
  Distinct-filter p [] h = tt
  Distinct-filter p (x ∷ xs) h =
      ground (arith, Distinct-filter p xs h.1, All-filter (λ y. key x ≢ key y) p xs h.0)

  pub Distinct-take : (n : ℕ) (xs : List A) → Distinct xs → Distinct (take n xs)
  Distinct-take zero xs h = tt
  Distinct-take (suc n) [] h = tt
  Distinct-take (suc n) (x ∷ xs) h =
      (All-take (λ y. key x ≢ key y) n xs h.0, Distinct-take n xs h.1)

  Distinct-insert_by :
      (cmp : A → A → Ordering) (x : A) (xs : List A)
      → All (λ y. key x ≢ key y) xs
      → Distinct xs
      → Distinct (insert_by cmp x xs)
  unfolding insert_by
  Distinct-insert_by cmp x [] n h = (tt, tt)
  Distinct-insert_by cmp x (y ∷ ys) n h = ground (
    arith,
    Distinct-insert_by cmp x ys n.1 h.1,
    All-insert_by cmp (λ z. key y ≢ key z) x ys (λ e. n.0 (sym e)) h.0,
  )

  pub Distinct-sort_by :
      (cmp : A → A → Ordering) (xs : List A) → Distinct xs → Distinct (sort_by cmp xs)
  unfolding sort_by
  Distinct-sort_by cmp [] h = tt
  Distinct-sort_by cmp (x ∷ xs) h =
      Distinct-insert_by cmp x (sort_by cmp xs) (All-sort_by cmp (λ y. key x ≢ key y) xs h.0)
        (Distinct-sort_by cmp xs h.1)

module _ {ℓ κ μ} {A : Type ℓ} {B : Type κ} {K : Type μ} where
  -- Through a map that keeps the keys.
  pub Distinct-map :
      (key : A → K) (key' : B → K) (f : A → B)
      → ((a : A) → key' (f a) ≡ key a)
      → (xs : List A) → Distinct key xs
      → Distinct key' (map f xs)
  Distinct-map key key' f same [] h = tt
  Distinct-map key key' f same (x ∷ xs) h = (each xs h.0, Distinct-map key key' f same xs h.1)
    where
      each : (ys : List A) → All (λ y. key x ≢ key y) ys → All (λ z. key' (f x) ≢ key' z) (map f ys)
      each [] k = tt
      each (y ∷ ys) k = (rw (same x, same y) (k.0), each ys k.1)
