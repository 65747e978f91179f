-- ===== src/Storage/Interface.antt =====
-- crates/cordelia-storage/src/lib.rs: the part of the trait `Storage` that replication uses for items.
-- An operation that writes returns the state that it leaves, also when it fails.
use cordelia_core.Prelude.{String, Option, none, some, ◌≡◌, ◌≢◌, Bool, true, false}
use cordelia_core.Protocol.Messages.{Hashing}
use cordelia_core.Storage.Rows.{
  Result, ok, err, StorageError, L2ItemRow, L2ItemWrite, AccessLogEntry,
}

pub record ItemStore : Type 1 where
  pub State : Type 0
  pub read_l2_item : String → State → Result (Option L2ItemRow)
  pub write_l2_item : L2ItemWrite → State → Result (Unit {0}) × State
  pub delete_l2_item : String → State → Result Bool × State
  pub log_access : AccessLogEntry → State → Result (Unit {0}) × State

-- The row that a write leaves: what was written, with the checksum of the data. The timestamp is the
-- writer's where there is one.
pub record IsRowOf (h : Hashing) (w : L2ItemWrite) (row : L2ItemRow) : Type 0 where
  pub id : row.id ≡ w.id
  pub item_type : row.item_type ≡ w.item_type
  pub bytes : row.bytes ≡ w.bytes
  pub checksum : row.checksum ≡ some (h.sha256_hex w.bytes)
  pub group_id : row.group_id ≡ w.group_id
  pub author_id : row.author_id ≡ w.author_id
  pub key_version : row.key_version ≡ w.key_version
  pub parent_id : row.parent_id ≡ w.parent_id
  pub is_copy : row.is_copy ≡ w.is_copy
  pub updated_at : (t : String) → w.updated_at ≡ some t → row.updated_at ≡ t

-- What replication relies on.
pub record IsItemStore (h : Hashing) (st : ItemStore) : Type 0 where
  pub read-write :
      (w : L2ItemWrite) (s : st.State)
      → (st.write_l2_item w s).0 ≡ ok tt
      → (row : L2ItemRow) × (st.read_l2_item w.id (st.write_l2_item w s).1 ≡ ok (some row))
        × IsRowOf h w row
  pub read-write_ne :
      (w : L2ItemWrite) (s : st.State) (id : String)
      → w.id ≢ id
      → st.read_l2_item id (st.write_l2_item w s).1 ≡ st.read_l2_item id s
  pub read-write_err :
      (w : L2ItemWrite) (s : st.State) (e : StorageError) (id : String)
      → (st.write_l2_item w s).0 ≡ err e
      → st.read_l2_item id (st.write_l2_item w s).1 ≡ st.read_l2_item id s
  pub read-delete :
      (id : String) (s : st.State) (b : Bool)
      → (st.delete_l2_item id s).0 ≡ ok b
      → st.read_l2_item id (st.delete_l2_item id s).1 ≡ ok none
  pub read-delete_ne :
      (id j : String) (s : st.State)
      → id ≢ j
      → st.read_l2_item j (st.delete_l2_item id s).1 ≡ st.read_l2_item j s
  -- Nothing was deleted, or the deletion failed.
  pub read-delete_false :
      (id j : String) (s : st.State)
      → (st.delete_l2_item id s).0 ≢ ok true
      → st.read_l2_item j (st.delete_l2_item id s).1 ≡ st.read_l2_item j s
  pub delete-none :
      (id : String) (s : st.State)
      → st.read_l2_item id s ≡ ok none
      → (st.delete_l2_item id s).0 ≡ ok false
  pub read-log :
      (entry : AccessLogEntry) (id : String) (s : st.State)
      → st.read_l2_item id (st.log_access entry s).1 ≡ st.read_l2_item id s

-- When the database can be used, and which rows it takes.
pub record Working (st : ItemStore) : Type 1 where
  pub Works : st.State → Type 0
  pub storable : L2ItemWrite → Bool
  pub write-ok :
      (w : L2ItemWrite) (s : st.State)
      → Works s
      → storable w ≡ true
      → (st.write_l2_item w s).0 ≡ ok tt
  pub write-Works : (w : L2ItemWrite) (s : st.State) → Works s → Works (st.write_l2_item w s).1
  pub delete-Works : (id : String) (s : st.State) → Works s → Works (st.delete_l2_item id s).1
  pub log-Works :
      (entry : AccessLogEntry) (s : st.State) → Works s → Works (st.log_access entry s).1
