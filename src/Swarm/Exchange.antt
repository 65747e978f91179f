-- ===== src/Swarm/Exchange.antt =====
-- crates/cordelia-node/src/swarm_task.rs: what a peer's requests return and store.
use cordelia_core.Prelude.{
  ℕ, ◌<◌, String, Bool, true, false, Option, none, List, [], ◌∷◌, length, ◌==◌, nat_eq, string_eq,
  ◌≡◌, refl, ap, ◌∙◌, arith, leb, min, filter, length-take, length-map, inl, inr,
}
use cordelia_core.Prelude.Dict.{values}
use cordelia_core.Prelude.Sort.{length-sort_by}
use cordelia_core.Prelude.Int.{as_u32, as_u32-as_i32}
use cordelia_core.Protocol.Messages.{Hashing, FetchedItem, SyncRequest}
use cordelia_core.Storage.Rows.{L2ItemRow}
use cordelia_core.Storage.Interface.{ItemStore, IsItemStore, IsRowOf}
use cordelia_core.Storage.Items.{SqliteStorage, available, is_listed, list_group_items, or_default}
use cordelia_core.Replication.Culture.{stored, validate_checksum}
use cordelia_core.Replication.Engine.{Texts, on_receive, write_of, is_tombstone_item}
use cordelia_core.Replication.Receive.{on_receive-stored}
use cordelia_core.Swarm.Requests.{handle_sync_request, fetched, handle_fetch_request}

module _ (h : Hashing) where
  checksum_named :
      (item : FetchedItem)
      → validate_checksum h item ≡ true
      → h.sha256_hex item.encrypted_blob ≡ item.checksum
  checksum_named item valid = ground arith

  -- A row that holds an item is sent on as that item.
  fetched_row :
      (item : FetchedItem) (row : L2ItemRow)
      → IsRowOf h (write_of item) row
      → validate_checksum h item ≡ true
      → item.key_version < 4294967296
      → fetched row ≡ item
  fetched_row item row same valid small =
      let sum : or_default row.checksum ≡ item.checksum =
        ap or_default same.checksum ∙ checksum_named item valid in
      let version : as_u32 row.key_version ≡ item.key_version =
        ap as_u32 same.key_version ∙ as_u32-as_i32 item.key_version small in
      let at = same.updated_at item.updated_at refl in
      λ i. record {
        item_id = same.id i;
        item_type = same.item_type i;
        encrypted_blob = same.bytes i;
        checksum = sum i;
        author_id = ap or_default same.author_id i;
        group_id = ap or_default same.group_id i;
        key_version = version i;
        parent_id = same.parent_id i;
        is_copy = same.is_copy i;
        updated_at = at i;
      }

module _ (h : Hashing) (x : Texts) (st : ItemStore) where
  -- One hop loses nothing: an item that is taken in, and is no tombstone, is sent on to the next peer
  -- that fetches it exactly as it came, its author, key version and timestamp included, if its key
  -- version is a 32-bit number.
  pub handle_fetch_request-on_receive :
      (laws : IsItemStore h st) (item : FetchedItem) (our_groups : List String)
      (relay_accepts : Option (String → Bool)) (s : st.State)
      → item.key_version < 4294967296
      → is_tombstone_item item ≡ false
      → (on_receive h x st item our_groups relay_accepts s).0 ≡ stored
      → handle_fetch_request h x st
          (item.item_id ∷ [])
          (on_receive h x st item our_groups relay_accepts s).1
        ≡ item ∷ []
  unfolding handle_fetch_request
  handle_fetch_request-on_receive laws item our_groups relay_accepts s small live done =
      elim (on_receive-stored h x st laws item our_groups relay_accepts s done).1 [
        | inl (dead, gone) ↦ absurd (ground arith)
        | inr (alive, valid, row, found, same) ↦
            rw (handle_fetch_request, found)
              (ap (λ (f : FetchedItem). f ∷ []) (fetched_row h item row same valid small))
      ]

full_page : (n limit count : ℕ) → n ≡ min limit count → (n == limit) ≡ leb limit count
full_page n limit count e = ground arith

-- While the storage works, an answer to a sync holds as many headers as there are rows of the group
-- after the given time, but no more than the limit, and it says that there is more exactly when those
-- rows are at least as many as the limit.
pub handle_sync_request_lem :
    (req : SyncRequest) (s : SqliteStorage)
    → available s ≡ none
    → (length (handle_sync_request req s).items
        ≡ min req.limit (length (filter (is_listed req.group_id req.since) (values s.l2_items))))
      × ((handle_sync_request req s).has_more
          ≡ leb req.limit (length (filter (is_listed req.group_id req.since) (values s.l2_items))))
unfolding handle_sync_request list_group_items
handle_sync_request_lem req s up =
    let count = length (filter (is_listed req.group_id req.since) (values s.l2_items)) in
    let page : length (handle_sync_request req s).items ≡ min req.limit count =
      rw (list_group_items, up)
        (length-map _ _ ∙ (length-take _ _ ∙ ap (λ n. min req.limit n) (length-sort_by _ _))) in
    (page, full_page (length (handle_sync_request req s).items) req.limit count page)
