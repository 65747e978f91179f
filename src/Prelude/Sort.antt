-- ===== src/Prelude/Sort.antt =====
-- The standard library's stable `sort_by`, `min_by` and `max_by` as the code uses them.
use Prim.Native.Nat.{suc, Ordering}
use Prim.Native.Nat.Ordering.{lt, eq, gt}
use mathlib.Core.Path.{◌≡◌, refl, ap, ◌∙◌, subst}
use mathlib.Core.Option.{Option, none, some, some-injective}
use mathlib.Core.List.{List, [], ◌∷◌}
use native.Mathlib.Omega.{arith}
use cordelia_core.Prelude.Lists.{length, All}

-- `a.then(b)`
abbrev pub then_cmp : Ordering → Ordering → Ordering
then_cmp eq second = second
then_cmp first _ = first

-- `unwrap_or(Ordering::Equal)`
abbrev pub or_equal : Option Ordering → Ordering
or_equal none = eq
or_equal (some o) = o

module _ {ℓ} {A : Type ℓ} (cmp : A → A → Ordering) where
  -- Before the first element that is not smaller, so that equal elements keep their order.
  unfoldable pub insert_by : A → List A → List A
  insert_by x [] = x ∷ []
  insert_by x (y ∷ ys) =
      let rest = insert_by x ys in elim (cmp x y) [ gt ↦ y ∷ rest | _ ↦ x ∷ y ∷ ys ]

  -- Stable insertion sort: the result that `sort_by` specifies for a total order.
  unfoldable pub sort_by : List A → List A
  unfolding insert_by
  sort_by [] = []
  sort_by (x ∷ xs) = insert_by x (sort_by xs)

  unfoldable pub max_from : A → List A → A
  max_from best [] = best
  max_from best (y ∷ ys) = max_from (elim (cmp best y) [ gt ↦ best | _ ↦ y ]) ys

  -- The last of the greatest.
  unfoldable pub max_by : List A → Option A
  unfolding max_from
  max_by [] = none
  max_by (x ∷ xs) = some (max_from x xs)

  unfoldable pub min_from : A → List A → A
  min_from best [] = best
  min_from best (y ∷ ys) = min_from (elim (cmp best y) [ gt ↦ y | _ ↦ best ]) ys

  -- The first of the least.
  unfoldable pub min_by : List A → Option A
  unfolding min_from
  min_by [] = none
  min_by (x ∷ xs) = some (min_from x xs)

  length-insert_by : (x : A) (xs : List A) → length (insert_by x xs) ≡ suc (length xs)
  unfolding insert_by
  length-insert_by x [] = refl
  length-insert_by x (y ∷ ys) = ground (arith, length-insert_by x ys)

  pub length-sort_by : (xs : List A) → length (sort_by xs) ≡ length xs
  unfolding sort_by
  length-sort_by [] = refl
  length-sort_by (x ∷ xs) = length-insert_by x (sort_by xs) ∙ ap suc (length-sort_by xs)

  module _ {κ} (P : A → Type κ) where
    pub All-insert_by : (x : A) (xs : List A) → P x → All P xs → All P (insert_by x xs)
    unfolding insert_by
    All-insert_by x [] hx h = (hx, tt)
    All-insert_by x (y ∷ ys) hx h = ground (arith, All-insert_by x ys hx h.1)

    pub All-sort_by : (xs : List A) → All P xs → All P (sort_by xs)
    unfolding sort_by
    All-sort_by [] h = tt
    All-sort_by (x ∷ xs) h = All-insert_by x (sort_by xs) h.0 (All-sort_by xs h.1)

    All-max_from : (best : A) (xs : List A) → P best → All P xs → P (max_from best xs)
    unfolding max_from
    All-max_from best [] hb h = hb
    All-max_from best (y ∷ ys) hb h =
        All-max_from (elim (cmp best y) [ gt ↦ best | _ ↦ y ]) ys
          (elim (cmp best y) as (λ o. P (elim o [ gt ↦ best | _ ↦ y ])) [
            | gt ↦ hb
            | lt ↦ h.0
            | eq ↦ h.0
          ])
          h.1

    pub All-max_by : (xs : List A) (m : A) → All P xs → max_by xs ≡ some m → P m
    unfolding max_by
    All-max_by [] m h e = absurd (ground arith)
    All-max_by (x ∷ xs) m h e =
        subst P (some-injective (max_from x xs) m e) (All-max_from x xs h.0 h.1)
