-- ===== src/Replication/Receive.antt =====
-- crates/cordelia-replication/src/engine.rs: what `on_receive` stores, and what it leaves alone.
use cordelia_core.Prelude.{
  String, Bool, true, false, not, Option, none, some, List, ◌≡◌, ◌≢◌, ◌⊎◌, inl, inr, refl, subst,
  arith, if_split, string_eq, option_eq,
}
use cordelia_core.Protocol.Messages.{Hashing, FetchedItem}
use cordelia_core.Storage.Rows.{ok, L2ItemRow, Result-cases}
use cordelia_core.Prelude.Text.{text_leb, text_leb_refl, text_leb_total}
use cordelia_core.Storage.Interface.{ItemStore, IsItemStore, IsRowOf}
use cordelia_core.Replication.Culture.{
  validate_checksum, ReceiveOutcome, stored, duplicate, rejected,
}
use cordelia_core.Replication.Engine.{
  Texts, is_oversized, is_tombstone_item, accepts, write_of, log_of, is_known, delete_outcome,
  write_outcome, on_receive,
}

-- What an item has passed before it may change the store.
pub record IsAdmitted (our_groups : List String) (relay_accepts : Option (String → Bool))
    (item : FetchedItem) : Type 0 where
  pub size : is_oversized item.encrypted_blob ≡ false
  pub group : accepts relay_accepts our_groups item ≡ true

new_is_later :
    (item : FetchedItem) (row : L2ItemRow)
    → is_known (ok (some row)) item ≡ false
    → text_leb item.updated_at row.updated_at ≡ false
unfolding is_known
new_is_later item row new = ground arith

module _ (h : Hashing) (x : Texts) (st : ItemStore) where
  -- By the branches of `on_receive`, each with the conditions under which it is taken.
  pub on_receive_by {ℓ} :
      (item : FetchedItem) (our_groups : List String) (relay_accepts : Option (String → Bool))
      (s : st.State) (P : ReceiveOutcome × st.State → Type ℓ)
      → ((why : String) → P (rejected why, s))
      → (IsAdmitted our_groups relay_accepts item
          → is_tombstone_item item ≡ true
          → P (delete_outcome h x st (st.delete_l2_item item.item_id s)))
      → (is_tombstone_item item ≡ false → P (duplicate, s))
      → (IsAdmitted our_groups relay_accepts item
          → is_tombstone_item item ≡ false
          → validate_checksum h item ≡ true
          → is_known (st.read_l2_item item.item_id s) item ≡ false
          → P (write_outcome h x st item (st.write_l2_item (write_of item) s)))
      → P (on_receive h x st item our_groups relay_accepts s)
  unfolding on_receive
  on_receive_by item our_groups relay_accepts s P refused deletes known writes =
      if_split P (is_oversized item.encrypted_blob) _ _ (λ e. refused _)
        (λ size.
          if_split P (not (accepts relay_accepts our_groups item)) _ _ (λ e. refused _)
            (λ outside.
              let admitted : IsAdmitted our_groups relay_accepts item = record {
                size = size;
                group = ground arith;
              } in
              if_split P (is_tombstone_item item) _ _ (deletes admitted) (λ live.
                if_split P (not (validate_checksum h item)) _ _ (λ e. refused _)
                  (λ valid.
                    if_split P (is_known (st.read_l2_item item.item_id s) item) _ _
                      (λ e. known live) (writes admitted live (ground arith))))))

  module _ (laws : IsItemStore h st) where
    open laws use {
      read-write, read-write_ne, read-write_err, read-delete, read-delete_ne, read-delete_false,
      read-log,
    }

    deleted_lem :
        (id : String) (s : st.State)
        → (delete_outcome h x st (st.delete_l2_item id s)).0 ≡ stored
        → st.read_l2_item id (delete_outcome h x st (st.delete_l2_item id s)).1 ≡ ok none
    deleted_lem id s done = ground (arith, read-delete id s true)

    pub written_lem :
        (item : FetchedItem) (s : st.State)
        → (write_outcome h x st item (st.write_l2_item (write_of item) s)).0 ≡ stored
        → (row : L2ItemRow) × (st.read_l2_item item.item_id
              (write_outcome h x st item (st.write_l2_item (write_of item) s)).1
            ≡ ok (some row))
          × IsRowOf h (write_of item) row
    written_lem item s done =
        let written : (st.write_l2_item (write_of item) s).0 ≡ ok tt = ground arith in
        let (row, found, same) = read-write (write_of item) s written in
        (
          row,
          ground
              (arith, read-log (log_of item) item.item_id (st.write_l2_item (write_of item) s).1),
          same,
        )

    -- An item is taken in only if it is small enough and of an accepted group. A tombstone then leaves
    -- nothing to read under its id; any other item has the checksum that it names, and is read back
    -- under its id with its own content, group, author and timestamp.
    pub on_receive-stored :
        (item : FetchedItem) (our_groups : List String) (relay_accepts : Option (String → Bool))
        (s : st.State)
        → (on_receive h x st item our_groups relay_accepts s).0 ≡ stored
        → IsAdmitted our_groups relay_accepts item
          × (((is_tombstone_item item ≡ true)
                × (st.read_l2_item item.item_id
                      (on_receive h x st item our_groups relay_accepts s).1
                    ≡ ok none))
              ⊎ ((is_tombstone_item item ≡ false)
                  × (validate_checksum h item ≡ true)
                  × (row : L2ItemRow) × (st.read_l2_item item.item_id
                        (on_receive h x st item our_groups relay_accepts s).1
                      ≡ ok (some row))
                  × IsRowOf h (write_of item) row))
    on_receive-stored item our_groups relay_accepts s =
        on_receive_by item our_groups relay_accepts s
          (λ r.
            r.0 ≡ stored
            → IsAdmitted our_groups relay_accepts item
              × (((is_tombstone_item item ≡ true) × (st.read_l2_item item.item_id r.1 ≡ ok none))
                  ⊎ ((is_tombstone_item item ≡ false)
                      × (validate_checksum h item ≡ true)
                      × (row : L2ItemRow) × (st.read_l2_item item.item_id r.1 ≡ ok (some row))
                      × IsRowOf h (write_of item) row)))
          (λ why e. absurd (ground arith))
          (λ admitted dead e. (admitted, inl (dead, deleted_lem item.item_id s e)))
          (λ live e. absurd (ground arith))
          (λ admitted live valid new e. (
            admitted,
            let (row, found, same) = written_lem item s e in inr (live, valid, row, found, same),
          ))

    -- Whatever the outcome, nothing changes of any other item.
    pub on_receive-others :
        (item : FetchedItem) (our_groups : List String) (relay_accepts : Option (String → Bool))
        (s : st.State) (j : String)
        → item.item_id ≢ j
        → st.read_l2_item j (on_receive h x st item our_groups relay_accepts s).1
          ≡ st.read_l2_item j s
    on_receive-others item our_groups relay_accepts s j differ =
        on_receive_by item our_groups relay_accepts s
          (λ r. st.read_l2_item j r.1 ≡ st.read_l2_item j s) (λ why. refl)
          (λ admitted dead. ground (arith, read-delete_ne item.item_id j s differ)) (λ live. refl)
          (λ admitted live valid new. ground (
            arith,
            read-write_ne (write_of item) s j differ,
            read-log (log_of item) j (st.write_l2_item (write_of item) s).1,
          ))

    -- An item that is refused, or known already, changes nothing of what is read.
    pub on_receive-refused :
        (item : FetchedItem) (our_groups : List String) (relay_accepts : Option (String → Bool))
        (s : st.State) (j : String)
        → (on_receive h x st item our_groups relay_accepts s).0 ≢ stored
        → st.read_l2_item j (on_receive h x st item our_groups relay_accepts s).1
          ≡ st.read_l2_item j s
    on_receive-refused item our_groups relay_accepts s j =
        on_receive_by item our_groups relay_accepts s
          (λ r. r.0 ≢ stored → st.read_l2_item j r.1 ≡ st.read_l2_item j s) (λ why e. refl)
          (λ admitted dead e. ground (arith, read-delete_false item.item_id j s)) (λ live e. refl)
          (λ admitted live valid new e. elim (Result-cases (st.write_l2_item (write_of item) s).0) [
            | inl (_, done) ↦ absurd (ground arith)
            | inr (why, failed) ↦ ground (arith, read-write_err (write_of item) s why j failed)
          ])

    -- A version is never replaced by an older one: where an item was stored, receiving anything but a
    -- tombstone leaves a row of it whose timestamp is at least as late.
    pub on_receive-not_older :
        (item : FetchedItem) (our_groups : List String) (relay_accepts : Option (String → Bool))
        (s : st.State) (row : L2ItemRow)
        → is_tombstone_item item ≡ false
        → st.read_l2_item item.item_id s ≡ ok (some row)
        → (row' : L2ItemRow) × (st.read_l2_item item.item_id
              (on_receive h x st item our_groups relay_accepts s).1
            ≡ ok (some row'))
          × (text_leb row.updated_at row'.updated_at ≡ true)
    on_receive-not_older item our_groups relay_accepts s row live found =
        on_receive_by item our_groups relay_accepts s
          (λ r.
            (row' : L2ItemRow) × (st.read_l2_item item.item_id r.1 ≡ ok (some row'))
            × (text_leb row.updated_at row'.updated_at ≡ true))
          (λ why. (row, found, text_leb_refl row.updated_at))
          (λ admitted dead. absurd (ground arith))
          (λ live'. (row, found, text_leb_refl row.updated_at))
          (λ admitted live' valid new. elim (Result-cases (st.write_l2_item (write_of item) s).0) [
            | inl (u, done) ↦
                let (row', found', same) = written_lem item s (ground arith) in
                let newer : text_leb item.updated_at row.updated_at ≡ false =
                  new_is_later item row (subst (λ r. is_known r item ≡ false) found new) in
                let at = same.updated_at item.updated_at refl in
                (row', found', rw at (text_leb_total item.updated_at row.updated_at newer))
            | inr (why, failed) ↦
                let kept = read-write_err (write_of item) s why item.item_id failed in
                (row, ground arith, text_leb_refl row.updated_at)
          ])
