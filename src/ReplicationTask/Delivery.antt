-- ===== src/ReplicationTask/Delivery.antt =====
-- crates/cordelia-api/src/lib.rs, crates/cordelia-node/src/replication_task.rs and
-- crates/cordelia-replication/src/engine.rs: from a write on one node to the store of another.
use cordelia_core.Prelude.{
  String, Bool, true, false, Option, none, some, List, contains, length, ltb, ◌==◌, ◌||◌, string_eq,
  ◌≡◌, refl, arith, ap, sym, ◌∙◌, Bool-cases, inl, inr, ==-self,
}
use cordelia_core.Protocol.Messages.{Bytes, Hashing, FetchedItem}
use cordelia_core.Storage.Rows.{ok, L2ItemWrite}
use cordelia_core.Storage.Items.{SqliteStorage, available, read_l2_item, is_row, sqlite_storage}
use cordelia_core.Storage.ItemLaws.{sqlite_storage-IsItemStore, sqlite_working}
use cordelia_core.Storage.Search.{FullText}
use cordelia_core.Replication.Culture.{GroupCulture, strategy, eager_push, stored, checksum}
use cordelia_core.Replication.Engine.{
  ReplicationEngine, Texts, on_local_write, on_receive, is_known, write_of, max_item_bytes,
}
use cordelia_core.Replication.Versions.{IsGood}
use cordelia_core.Replication.Convergence.{on_receive_good}
use cordelia_core.Api.State.{AppState, Json, WriteNotification, check_auth}
use cordelia_core.Api.Requests.{L2WriteRequest}
use cordelia_core.Api.Items.{l2_write, notification_of, no_meta, unwrap_or}
use cordelia_core.ReplicationTask.State.{ReplicationLoop, load_group_culture, culture_or_default}
use cordelia_core.ReplicationTask.Push.{on_write, buffer_item}
use cordelia_core.Api.Writes.{l2_write_lem, write_of_request, Sends}

abbrev is_kind : String → Bool
is_kind t = t == "entity" || (t == "session" || t == "learning")

tombstone_is_no_kind : is_kind "__tombstone__" ≡ false
unfolding string_eq
tombstone_is_no_kind = refl

kind_of_row : (w : L2ItemWrite) → is_row w ≡ true → is_kind w.item_type ≡ true
unfolding is_row
kind_of_row w fits = ground arith

-- A row's type is one of three, and the type of tombstones is none of them.
kind_is_no_tombstone : (t : String) → is_kind t ≡ true → (t == "__tombstone__") ≡ false
kind_is_no_tombstone t kind = elim (Bool-cases (t == "__tombstone__")) [
  | inr other ↦ other
  | inl same ↦
      let here : t ≡ "__tombstone__" = ground arith in
      absurd (no_kind (ap is_kind (sym here) ∙ kind))
]
  where
    no_kind : is_kind "__tombstone__" ≡ true → ⊥
    no_kind e = ground (arith, tombstone_is_no_kind)

row_of_kind :
    (w : L2ItemWrite) → is_kind w.item_type ≡ true → w.visibility ≡ "group" → is_row w ≡ true
unfolding is_row
row_of_kind w kind vis = rw vis (ground (arith, ==-self {A = String} "group"))

module _ (h : Hashing) (x : Texts) where
  -- What is broadcast for a notification: the author is the engine's entity.
  abbrev pub eager_item : ReplicationEngine → String → String → WriteNotification → FetchedItem
  eager_item engine now g n = record {
    item_id = n.item_id;
    item_type = n.item_type;
    encrypted_blob = n.bytes;
    checksum = checksum h n.bytes;
    author_id = engine.entity_id;
    group_id = g;
    key_version = n.key_version;
    parent_id = n.parent_id;
    is_copy = n.is_copy;
    updated_at = now;
  }

  on_write_eager :
      {F : Type 0} (engine : ReplicationEngine) (now g : String)
      (from_str : String → Option GroupCulture) (n : WriteNotification) (s : ReplicationLoop F)
      → n.group_id ≡ some g
      → ltb max_item_bytes (length n.bytes) ≡ false
      → strategy (culture_or_default (load_group_culture from_str s.storage g)) ≡ eager_push
      → on_write h from_str engine now n s ≡ buffer_item h g (eager_item engine now g n) s
  unfolding on_write on_local_write
  on_write_eager engine now g from_str n s of_group small eager =
      rw (on_write, of_group, on_local_write, small, eager) refl

  eager_item-IsGood :
      (engine : ReplicationEngine) (now g : String) (w : L2ItemWrite) (our_groups : List String)
      → ltb max_item_bytes (length w.bytes) ≡ false
      → is_row w ≡ true
      → contains our_groups g ≡ true
      → IsGood h (sqlite_working h) our_groups none (eager_item engine now g (notification_of w))
  unfolding sqlite_working
  eager_item-IsGood engine now g w our_groups small fits member = record {
    admitted = record { size = small; group = member };
    live = kind_is_no_tombstone w.item_type (kind_of_row w fits);
    valid = ==-self (checksum h w.bytes);
    fits =
        row_of_kind (write_of (eager_item engine now g (notification_of w))) (kind_of_row w fits)
          refl;
  }

  taken_in :
      (item : FetchedItem) (our_groups : List String) (peer : SqliteStorage)
      → available peer ≡ none
      → IsGood h (sqlite_working h) our_groups none item
      → read_l2_item item.item_id peer ≡ ok none
      → (on_receive h x (sqlite_storage h) item our_groups none peer).0 ≡ stored
  unfolding sqlite_working is_known
  taken_in item our_groups peer up good absent =
      on_receive_good h x (sqlite_storage h) our_groups none (sqlite_storage-IsItemStore h)
        (sqlite_working h) item peer up good (rw absent refl)

-- A write that the API answers with 200, of an item of a group whose culture pushes eagerly, is announced
-- to replication; the loop then buffers one item with the same data for the group, and a peer that is a
-- member of the group, works, and has nothing under the id stores it when it receives it.
pub l2_write-on_receive :
    {F : Type 0} (j : Json) (h : Hashing) (ft : FullText) (x : Texts) (auth : Option String)
    (req : L2WriteRequest j.Value) (state : AppState) (g now : String) (engine : ReplicationEngine)
    (from_str : String → Option GroupCulture) (s : ReplicationLoop F) (our_groups : List String)
    (peer : SqliteStorage)
    → check_auth j.Value state auth ≡ none
    → (l2_write j h ft auth req state).0.status ≡ 200
    → (unwrap_or no_meta req.meta).group_id ≡ some g
    → strategy (culture_or_default (load_group_culture from_str s.storage g)) ≡ eager_push
    → available peer ≡ none
    → contains our_groups g ≡ true
    → read_l2_item req.item_id peer ≡ ok none
    → (bytes : Bytes) × (item : FetchedItem) × (j.to_vec req.value ≡ some bytes)
      × Sends state
          (notification_of (write_of_request j state req bytes))
          (l2_write j h ft auth req state).1
      × (on_write h from_str engine now (notification_of (write_of_request j state req bytes)) s
          ≡ buffer_item h g item s)
      × (item.encrypted_blob ≡ bytes)
      × ((on_receive h x (sqlite_storage h) item our_groups none peer).0 ≡ stored)
l2_write-on_receive j h ft x auth req state g now engine from_str s our_groups peer valid done
      of_group eager up member absent =
    elim (l2_write_lem j h ft auth req state valid) [
      | inr refused ↦ absurd (refused.1 done)
      | inl (ok_status, (bytes, row, e, small, fits, read, is, sends)) ↦
          let w = write_of_request j state req bytes in
          (
            bytes,
            eager_item h x engine now g (notification_of w),
            e,
            sends,
            on_write_eager h x engine now g from_str (notification_of w) s of_group small eager,
            refl,
            taken_in h x (eager_item h x engine now g (notification_of w)) our_groups peer up
                (eager_item-IsGood h x engine now g w our_groups small fits member) absent,
          )
    ]
