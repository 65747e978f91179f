-- ===== src/ReplicationTask/Chunks.antt =====
-- crates/cordelia-node/src/replication_task.rs: the chunks of a fetch hold the ids in order.
use cordelia_core.Prelude.{
  ℕ, zero, suc, some, List, [], ◌∷◌, ◌++◌, length, take, ◌-◌, ◌≤◌, ◌<◌, ◌≡◌, refl, arith, ap, ◌∙◌,
}
use cordelia_core.ReplicationTask.AntiEntropy.{drop, chunks_from, chunks}

abbrev pub concat {ℓ} : {A : Type ℓ} → List (List A) → List A
concat [] = []
concat (xs ∷ xss) = xs ++ concat xss

module _ {ℓ} {A : Type ℓ} where
  take-drop : (n : ℕ) (xs : List A) → take n xs ++ drop n xs ≡ xs
  take-drop zero xs = refl
  take-drop (suc n) [] = refl
  take-drop (suc n) (x ∷ xs) = ap (λ ys. x ∷ ys) (take-drop n xs)

  length-drop : (n : ℕ) (xs : List A) → length (drop n xs) ≡ length xs - n
  length-drop zero xs = omega arith
  length-drop (suc n) [] = omega arith
  length-drop (suc n) (x ∷ xs) = omega (arith, length-drop n xs)

  concat-chunks_from :
      (fuel size : ℕ) (xs : List A)
      → 0 < size
      → length xs ≤ fuel
      → concat (chunks_from fuel size xs) ≡ xs
  unfolding chunks_from
  concat-chunks_from zero size [] pos_size enough = refl
  concat-chunks_from zero size (x ∷ xs) pos_size enough = absurd (omega (arith, enough))
  concat-chunks_from (suc fuel) size [] pos_size enough = refl
  concat-chunks_from (suc fuel) size (x ∷ xs) pos_size enough =
      ap (λ ys. take size (x ∷ xs) ++ ys)
        (concat-chunks_from fuel size (drop size (x ∷ xs)) pos_size
          (omega (arith, length-drop size (x ∷ xs), pos_size, enough)))
      ∙ take-drop size (x ∷ xs)

-- A positive size does not panic, and the chunks, put together, are the list: the fuel is enough.
pub chunks_lem {ℓ} :
    {A : Type ℓ} (size : ℕ) (xs : List A)
    → 0 < size
    → (parts : List (List A)) × (chunks size xs ≡ some parts) × (concat parts ≡ xs)
unfolding chunks
chunks_lem zero xs positive = absurd (omega (arith, positive))
chunks_lem (suc n) xs positive = (
  chunks_from (length xs) (suc n) xs,
  refl,
  concat-chunks_from (length xs) (suc n) xs positive (omega arith),
)
