-- ===== src/Storage/Items.antt =====
-- crates/cordelia-storage/src/lib.rs and schema_v4.sql: the tables `l2_items` and `access_log` of
-- `SqliteStorage`. A statement that fails changes nothing, as SQLite documents.
use cordelia_core.Prelude.{
  ℕ, String, Bool, true, false, not, Option, none, some, List, ◌∷◌, map, filter, take,
  if◌then◌else◌, ◌==◌, ◌&&◌, ◌||◌, string_eq, option_eq, Ordering,
}
use cordelia_core.Prelude.Dict.{Dict, lookup, insert, remove, values}
use cordelia_core.Prelude.Int.{ℤ, pos}
use cordelia_core.Prelude.Sort.{sort_by}
use cordelia_core.Prelude.Text.{text_leb}
use cordelia_core.Protocol.Messages.{Bytes, Hashing, ItemHeader}
use cordelia_core.Storage.Rows.{
  Result, ok, err, StorageError, sqlite, lock_poisoned, L2ItemRow, L2ItemWrite, AccessLogEntry,
  GroupRow, GroupMemberRow, DeviceRow,
}
use cordelia_core.Storage.Interface.{ItemStore}

-- The connection, with a field for each table; `devices` is there from schema version 5 on. `clock` is
-- `datetime('now')`, and `failure` what SQLite answers if it cannot carry out a statement: a full disk, a
-- lock that was not released in time. It lasts for a call. `meta_failure` is what the reading of an item's
-- metadata alone fails with, so that it can fail before a deletion that succeeds.
pub record SqliteStorage : Type 0 where
  pub is_poisoned : Bool
  pub failure : Option String
  pub meta_failure : Option String
  pub clock : String
  pub l2_items : Dict String L2ItemRow
  pub access_log : List AccessLogEntry
  pub groups : Dict String GroupRow
  pub group_members : List GroupMemberRow
  pub l1_hot : Dict String Bytes
  pub l2_index : Option Bytes
  pub devices : Option (Dict String DeviceRow)

-- `self.db()?`, and a statement that needs nothing but a working database.
unfoldable pub available : SqliteStorage → Option StorageError
available s =
    if s.is_poisoned
    then some lock_poisoned
    else elim s.failure [ none ↦ none | some e ↦ some (sqlite e) ]

unfoldable pub read_l2_item : String → SqliteStorage → Result (Option L2ItemRow)
read_l2_item id s = elim (available s) [ none ↦ ok (lookup id s.l2_items) | some e ↦ err e ]

-- `type IN ('entity', 'session', 'learning')`, and that of `visibility`.
unfoldable pub is_row : L2ItemWrite → Bool
is_row w =
    (w.item_type == "entity" || (w.item_type == "session" || w.item_type == "learning"))
    && (w.visibility == "private" || (w.visibility == "group" || w.visibility == "public"))

-- `COALESCE(?12, datetime('now'))`
abbrev pub timestamp_of : String → Option String → String
timestamp_of clock none = clock
timestamp_of clock (some t) = t

-- What the conflict clause leaves alone: access_count, last_accessed_at and created_at.
record Kept : Type 0 where
  access_count : ℤ
  last_accessed_at : Option String
  created_at : String

abbrev kept : String → Option L2ItemRow → Kept
kept clock none = record { access_count = pos 0; last_accessed_at = none; created_at = clock }
kept clock (some row) = record {
  access_count = row.access_count;
  last_accessed_at = row.last_accessed_at;
  created_at = row.created_at;
}

abbrev pub upserted : Hashing → String → Option L2ItemRow → L2ItemWrite → L2ItemRow
upserted h clock old w = record {
  id = w.id;
  item_type = w.item_type;
  owner_id = w.owner_id;
  visibility = w.visibility;
  bytes = w.bytes;
  checksum = some (h.sha256_hex w.bytes);
  group_id = w.group_id;
  author_id = w.author_id;
  key_version = w.key_version;
  parent_id = w.parent_id;
  is_copy = w.is_copy;
  access_count = (kept clock old).access_count;
  last_accessed_at = (kept clock old).last_accessed_at;
  created_at = (kept clock old).created_at;
  updated_at = timestamp_of clock w.updated_at;
}

unfoldable pub write_l2_item :
    Hashing → L2ItemWrite → SqliteStorage → Result (Unit {0}) × SqliteStorage
write_l2_item h w s = elim (available s) [
  | some e ↦ (err e, s)
  | none ↦
      if is_row w
      then (
        ok tt,
        record s {
          l2_items = insert w.id (upserted h s.clock (lookup w.id s.l2_items) w) s.l2_items;
        },
      )
      else (err (sqlite "CHECK constraint failed"), s)
]

abbrev deleted : String → Option L2ItemRow → SqliteStorage → Result Bool × SqliteStorage
deleted id none s = (ok false, s)
deleted id (some row) s = (ok true, record s { l2_items = remove id s.l2_items })

unfoldable pub delete_l2_item : String → SqliteStorage → Result Bool × SqliteStorage
delete_l2_item id s = elim (available s) [
  | some e ↦ (err e, s)
  | none ↦ deleted id (lookup id s.l2_items) s
]

unfoldable pub log_access : AccessLogEntry → SqliteStorage → Result (Unit {0}) × SqliteStorage
log_access entry s = elim (available s) [
  | some e ↦ (err e, s)
  | none ↦ (ok tt, record s { access_log = entry ∷ s.access_log })
]

-- `ORDER BY updated_at ASC`. Rows of one time keep the table's order, which SQL leaves open.
abbrev by_updated_at : L2ItemRow → L2ItemRow → Ordering
by_updated_at a b =
    if text_leb a.updated_at b.updated_at
    then (if text_leb b.updated_at a.updated_at then Ordering.eq else Ordering.lt)
    else Ordering.gt

-- The WHERE clause, with a lower bound or without.
abbrev pub is_listed : String → Option String → L2ItemRow → Bool
is_listed group_id none row = row.group_id == some group_id
is_listed group_id (some since) row =
    row.group_id == some group_id && not (text_leb row.updated_at since)

abbrev pub or_default : Option String → String
or_default none = ""
or_default (some s) = s

abbrev pub header_of : L2ItemRow → ItemHeader
header_of row = record {
  item_id = row.id;
  item_type = row.item_type;
  checksum = or_default row.checksum;
  updated_at = row.updated_at;
  author_id = or_default row.author_id;
  is_deletion = false;
}

unfoldable pub list_group_items :
    String → Option String → ℕ → SqliteStorage → Result (List ItemHeader)
list_group_items group_id since limit s = elim (available s) [
  | some e ↦ err e
  | none ↦ ok (
      map header_of (
        take limit (sort_by by_updated_at (filter (is_listed group_id since) (values s.l2_items)))))
]

-- The tables as the storage that the other crates see.
abbrev pub sqlite_storage : Hashing → ItemStore
sqlite_storage h = record {
  State = SqliteStorage;
  read_l2_item = read_l2_item;
  write_l2_item = write_l2_item h;
  delete_l2_item = delete_l2_item;
  log_access = log_access;
}
