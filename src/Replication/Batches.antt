-- ===== src/Replication/Batches.antt =====
-- crates/cordelia-node/src/replication_task.rs: `split_into_batches`.
use cordelia_core.Prelude.{
  ℕ, ◌+◌, ◌*◌, ◌≤◌, Bool, true, false, not, List, [], ◌∷◌, ◌++◌, ◌≡◌, ◌⊎◌, inl, inr, refl,
  if◌then◌else◌, arith, ltb, length, is_empty, All, ◌&&◌, All-append, if_split, ap, sym, ◌∙◌, subst,
}
use mathlib.Core.List.{append_assoc, append-nil}
use cordelia_core.Protocol.Era.{era_0}
use cordelia_core.Protocol.Messages.{Hashing, FetchedItem}

module _ (h : Hashing) where
  -- The bytes of the data and of the id, and an estimate of the rest.
  abbrev pub item_size : FetchedItem → ℕ
  item_size item = length item.encrypted_blob + length (h.utf8 item.item_id) + 256

  -- The loop's variables: the batches so far, the current one, and its size.
  unfoldable pub split_from :
      List (List FetchedItem) → List FetchedItem → ℕ → List FetchedItem → List (List FetchedItem)
  split_from batches current size [] =
      if is_empty current then batches else batches ++ (current ∷ [])
  split_from batches current size (item ∷ items) =
      let flushed = split_from (batches ++ (current ∷ [])) (item ∷ []) (item_size item) items in
      let grown = split_from batches (current ++ (item ∷ [])) (size + item_size item) items in
      if not (is_empty current) && ltb era_0.max_message_bytes (size + item_size item)
      then flushed
      else grown

  unfoldable pub split_into_batches : List FetchedItem → List (List FetchedItem)
  unfolding split_from
  split_into_batches items = split_from [] [] 0 items

  abbrev pub sizes : List FetchedItem → ℕ
  sizes [] = 0
  sizes (item ∷ items) = item_size item + sizes items

  abbrev pub concat : List (List FetchedItem) → List FetchedItem
  concat [] = []
  concat (b ∷ bs) = b ++ concat bs

  -- Within the limit, or a single item.
  abbrev pub Fits : List FetchedItem → Type 0
  Fits batch = (is_empty batch ≡ false) × ((sizes batch ≤ 512 * 1024) ⊎ (length batch ≡ 1))

  concat-append :
      (bs : List (List FetchedItem)) (b : List FetchedItem) → concat (bs ++ b ∷ []) ≡ concat bs ++ b
  concat-append [] b = append-nil b
  concat-append (c ∷ bs) b =
      ap (λ r. c ++ r) (concat-append bs b) ∙ sym (append_assoc c (concat bs) b)

  sizes-append :
      (b : List FetchedItem) (item : FetchedItem)
      → sizes (b ++ item ∷ []) ≡ sizes b + item_size item
  sizes-append [] item = omega arith
  sizes-append (c ∷ b) item = omega (arith, sizes-append b item)

  grown-Fits :
      (current : List FetchedItem) (item : FetchedItem)
      → (not (is_empty current) && ltb era_0.max_message_bytes (sizes current + item_size item))
        ≡ false
      → Fits (current ++ item ∷ [])
  grown-Fits [] item small = (refl, inr refl)
  grown-Fits (c ∷ current) item small =
      (refl, inl (ground (arith, sizes-append (c ∷ current) item)))

  split_from-concat :
      (batches : List (List FetchedItem)) (current : List FetchedItem) (size : ℕ)
      (items : List FetchedItem)
      → concat (split_from batches current size items) ≡ (concat batches ++ current) ++ items
  unfolding split_from
  split_from-concat batches [] size [] =
      sym (append-nil (concat batches ++ []) ∙ append-nil (concat batches))
  split_from-concat batches (c ∷ current) size [] =
      concat-append batches (c ∷ current) ∙ sym (append-nil (concat batches ++ c ∷ current))
  split_from-concat batches current size (item ∷ items) =
      let joined = append_assoc (concat batches ++ current) (item ∷ []) items in
      if_split (λ r. concat r ≡ (concat batches ++ current) ++ (item ∷ items))
        (not (is_empty current) && ltb era_0.max_message_bytes (size + item_size item)) _ _
        (λ over.
          split_from-concat (batches ++ current ∷ []) (item ∷ []) (item_size item) items
          ∙ (ap (λ r. (r ++ item ∷ []) ++ items) (concat-append batches current) ∙ joined))
        (λ under.
          split_from-concat batches (current ++ item ∷ []) (size + item_size item) items
          ∙ (ap (λ r. r ++ items) (sym (append_assoc (concat batches) current (item ∷ [])))
              ∙ joined))

  current-Fits :
      (current : List FetchedItem) (b : Bool)
      → (not (is_empty current) && b) ≡ true
      → (is_empty current ≡ true) ⊎ Fits current
      → Fits current
  current-Fits current b over (inl e) = absurd (ground arith)
  current-Fits current b over (inr fits) = fits

  split_from-Fits :
      (batches : List (List FetchedItem)) (current : List FetchedItem) (items : List FetchedItem)
      → All Fits batches
      → (is_empty current ≡ true) ⊎ Fits current
      → All Fits (split_from batches current (sizes current) items)
  unfolding split_from
  split_from-Fits batches [] [] done fits = done
  split_from-Fits batches (c ∷ current) [] done (inl e) = absurd (ground arith)
  split_from-Fits batches (c ∷ current) [] done (inr fits) =
      All-append Fits batches ((c ∷ current) ∷ []) done (fits, tt)
  split_from-Fits batches current (item ∷ items) done fits =
      if_split (All Fits)
        (not (is_empty current) && ltb era_0.max_message_bytes (sizes current + item_size item)) _ _
        (λ over.
          let flushed =
            All-append Fits batches (current ∷ []) done (current-Fits current _ over fits, tt) in
          let alone : sizes (item ∷ []) ≡ item_size item = omega arith in
          subst (λ n. All Fits (split_from (batches ++ current ∷ []) (item ∷ []) n items)) alone
            (split_from-Fits (batches ++ current ∷ []) (item ∷ []) items flushed
              (inr (refl, inr refl))))
        (λ under.
          subst (λ n. All Fits (split_from batches (current ++ item ∷ []) n items))
            (sizes-append current item)
            (split_from-Fits batches (current ++ item ∷ []) items done
              (inr (grown-Fits current item under))))

  -- The batches hold the items in their order, and nothing else; no batch is empty; and a batch of more
  -- than one item is estimated at no more than 512 KiB.
  pub split_into_batches_lem :
      (items : List FetchedItem)
      → (concat (split_into_batches items) ≡ items) × All Fits (split_into_batches items)
  unfolding split_into_batches
  split_into_batches_lem items =
      (split_from-concat [] [] 0 items, split_from-Fits [] [] items tt (inl refl))
