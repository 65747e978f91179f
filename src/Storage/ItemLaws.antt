-- ===== src/Storage/ItemLaws.antt =====
-- crates/cordelia-storage/src/lib.rs: the item tables keep the promises of the interface.
use cordelia_core.Prelude.{
  String, Bool, true, false, Option, none, some, ◌≡◌, ◌≢◌, refl, arith, string_eq,
}
use cordelia_core.Prelude.Dict.{lookup, lookup-insert, lookup-remove}
use cordelia_core.Protocol.Messages.{Hashing}
use cordelia_core.Storage.Rows.{ok, err, StorageError, L2ItemRow, L2ItemWrite, AccessLogEntry}
use cordelia_core.Storage.Interface.{IsItemStore, IsRowOf, Working}
use cordelia_core.Storage.Items.{
  SqliteStorage, available, is_row, read_l2_item, write_l2_item, delete_l2_item, log_access,
  upserted, sqlite_storage,
}

module _ (h : Hashing) where
  upserted-IsRowOf :
      (clock : String) (old : Option L2ItemRow) (w : L2ItemWrite)
      → IsRowOf h w (upserted h clock old w)
  upserted-IsRowOf clock old w = record {
    id = refl;
    item_type = refl;
    bytes = refl;
    checksum = refl;
    group_id = refl;
    author_id = refl;
    key_version = refl;
    parent_id = refl;
    is_copy = refl;
    updated_at = λ t e. rw e refl;
  }

  read-write :
      (w : L2ItemWrite) (s : SqliteStorage)
      → (write_l2_item h w s).0 ≡ ok tt
      → (row : L2ItemRow) × (read_l2_item w.id (write_l2_item h w s).1 ≡ ok (some row))
        × IsRowOf h w row
  unfolding read_l2_item write_l2_item available
  read-write w s done =
      let row = upserted h s.clock (lookup w.id s.l2_items) w in
      (
        row,
        ground (arith, lookup-insert w.id w.id row s.l2_items),
        upserted-IsRowOf s.clock (lookup w.id s.l2_items) w,
      )

  read-write_ne :
      (w : L2ItemWrite) (s : SqliteStorage) (id : String)
      → w.id ≢ id
      → read_l2_item id (write_l2_item h w s).1 ≡ read_l2_item id s
  unfolding read_l2_item write_l2_item available
  read-write_ne w s id differ =
      ground
        (arith, lookup-insert id w.id (upserted h s.clock (lookup w.id s.l2_items) w) s.l2_items)

  read-write_err :
      (w : L2ItemWrite) (s : SqliteStorage) (e : StorageError) (id : String)
      → (write_l2_item h w s).0 ≡ err e
      → read_l2_item id (write_l2_item h w s).1 ≡ read_l2_item id s
  unfolding read_l2_item write_l2_item available
  read-write_err w s e id failed = ground arith

read-delete :
    (id : String) (s : SqliteStorage) (b : Bool)
    → (delete_l2_item id s).0 ≡ ok b
    → read_l2_item id (delete_l2_item id s).1 ≡ ok none
unfolding read_l2_item delete_l2_item available
read-delete id s b done = ground (arith, lookup-remove id id s.l2_items)

read-delete_ne :
    (id j : String) (s : SqliteStorage)
    → id ≢ j
    → read_l2_item j (delete_l2_item id s).1 ≡ read_l2_item j s
unfolding read_l2_item delete_l2_item available
read-delete_ne id j s differ = ground (arith, lookup-remove j id s.l2_items)

read-delete_false :
    (id j : String) (s : SqliteStorage)
    → (delete_l2_item id s).0 ≢ ok true
    → read_l2_item j (delete_l2_item id s).1 ≡ read_l2_item j s
unfolding read_l2_item delete_l2_item available
read-delete_false id j s kept = ground arith

delete-none :
    (id : String) (s : SqliteStorage)
    → read_l2_item id s ≡ ok none
    → (delete_l2_item id s).0 ≡ ok false
unfolding read_l2_item delete_l2_item available
delete-none id s gone = ground arith

read-log :
    (entry : AccessLogEntry) (id : String) (s : SqliteStorage)
    → read_l2_item id (log_access entry s).1 ≡ read_l2_item id s
unfolding read_l2_item log_access available
read-log entry id s = ground arith

-- The item tables keep every promise that replication relies on: a write that succeeds is read back with
-- its checksum, a deletion that succeeds leaves nothing to read, and no operation changes what is read
-- of another item, nor of its own when it fails.
pub sqlite_storage-IsItemStore : (h : Hashing) → IsItemStore h (sqlite_storage h)
sqlite_storage-IsItemStore h = record {
  read-write = read-write h;
  read-write_ne = read-write_ne h;
  read-write_err = read-write_err h;
  read-delete = read-delete;
  read-delete_ne = read-delete_ne;
  read-delete_false = read-delete_false;
  delete-none = delete-none;
  read-log = read-log;
}

pub write-ok :
    (h : Hashing) (w : L2ItemWrite) (s : SqliteStorage)
    → available s ≡ none
    → is_row w ≡ true
    → (write_l2_item h w s).0 ≡ ok tt
unfolding write_l2_item
write-ok h w s up fits = ground arith

pub available-write :
    (h : Hashing) (w : L2ItemWrite) (s : SqliteStorage)
    → available s ≡ none
    → available (write_l2_item h w s).1 ≡ none
unfolding write_l2_item available
available-write h w s up = ground arith

pub available-delete :
    (id : String) (s : SqliteStorage)
    → available s ≡ none
    → available (delete_l2_item id s).1 ≡ none
unfolding delete_l2_item available
available-delete id s up = ground arith

pub available-log :
    (entry : AccessLogEntry) (s : SqliteStorage)
    → available s ≡ none
    → available (log_access entry s).1 ≡ none
unfolding log_access available
available-log entry s up = ground arith

-- The tables work while the lock is sound and SQLite does not fail.
unfoldable pub sqlite_working : (h : Hashing) → Working (sqlite_storage h)
sqlite_working h = record {
  Works = λ s. available s ≡ none;
  storable = is_row;
  write-ok = write-ok h;
  write-Works = available-write h;
  delete-Works = available-delete;
  log-Works = available-log;
}
