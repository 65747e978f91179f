-- ===== src/Replication/Engine.antt =====
-- crates/cordelia-replication/src/engine.rs: what is sent on a local write, and how a received item is
-- taken in. The clock's text and the texts that name byte counts and errors are parameters.
use cordelia_core.Prelude.{
  ℕ, String, ◌<>◌, Bool, true, false, not, Option, none, some, List, if◌then◌else◌, ◌==◌, ltb,
  contains, length, string_eq, option_eq,
}
use cordelia_core.Prelude.Int.{as_i32}
use cordelia_core.Prelude.Text.{text_leb}
use cordelia_core.Protocol.Era.{era_0}
use cordelia_core.Protocol.Messages.{Bytes, Hashing, FetchedItem}
use cordelia_core.Storage.Rows.{
  Result, ok, err, StorageError, L2ItemRow, L2ItemWrite, AccessLogEntry,
}
use cordelia_core.Storage.Interface.{ItemStore}
use cordelia_core.Replication.Culture.{
  ReplicationConfig, GroupCulture, eager_push, passive, strategy, sync_interval_secs, checksum,
  validate_checksum, ReceiveOutcome, stored, duplicate, rejected,
}

pub record ReplicationEngine : Type 0 where
  pub config : ReplicationConfig
  pub entity_id : String

pub data OutboundAction : Type 0 where
  broadcast_item : String → FetchedItem → OutboundAction
  nothing : OutboundAction

-- `to_string` of a number, and of a storage error.
pub record Texts : Type 0 where
  pub of_ℕ : ℕ → String
  pub of_error : StorageError → String

abbrev pub max_item_bytes : ℕ
max_item_bytes = era_0.max_item_bytes

abbrev pub is_oversized : Bytes → Bool
is_oversized blob = ltb max_item_bytes (length blob)

abbrev pub is_tombstone_item : FetchedItem → Bool
is_tombstone_item item = item.item_type == "__tombstone__"

-- `relay_accepts`, or membership where there is none.
abbrev pub accepts : Option (String → Bool) → List String → FetchedItem → Bool
accepts (some relay_check) our_groups item = relay_check item.group_id
accepts none our_groups item = contains our_groups item.group_id

abbrev pub write_of : FetchedItem → L2ItemWrite
write_of item = record {
  id = item.item_id;
  item_type = item.item_type;
  bytes = item.encrypted_blob;
  owner_id = none;
  visibility = "group";
  group_id = some item.group_id;
  author_id = some item.author_id;
  key_version = as_i32 item.key_version;
  parent_id = item.parent_id;
  is_copy = item.is_copy;
  updated_at = some item.updated_at;
}

abbrev pub log_of : FetchedItem → AccessLogEntry
log_of item = record {
  entity_id = item.author_id;
  action = "replicate_receive";
  resource_type = "l2_item";
  resource_id = some item.item_id;
  group_id = some item.group_id;
  detail = none;
}

-- Step 5: the same content, or a version that is not older, is at hand.
unfoldable pub is_known : Result (Option L2ItemRow) → FetchedItem → Bool
is_known (err e) item = false
is_known (ok none) item = false
is_known (ok (some existing)) item =
    if existing.checksum == some item.checksum
    then true
    else text_leb item.updated_at existing.updated_at

module _ (h : Hashing) where
  unfoldable pub on_local_write :
      ReplicationEngine
      → String
      → String
      → GroupCulture
      → String
      → String
      → Bytes
      → ℕ
      → Option String
      → Bool
      → OutboundAction
  on_local_write engine now group_id culture item_id item_type blob key_version parent_id is_copy =
      if is_oversized blob then nothing else elim (strategy culture) [
        | eager_push ↦ broadcast_item group_id (record {
          item_id = item_id;
          item_type = item_type;
          encrypted_blob = blob;
          checksum = checksum h blob;
          author_id = engine.entity_id;
          group_id = group_id;
          key_version = key_version;
          parent_id = parent_id;
          is_copy = is_copy;
          updated_at = now;
        })
        | passive ↦ nothing
      ]

-- `sync_interval`
unfoldable pub sync_interval : ReplicationEngine → GroupCulture → ℕ
sync_interval engine culture =
    elim (sync_interval_secs (strategy culture) engine.config.sync_interval_taciturn_secs) [
      | none ↦ era_0.eager_push_interval_secs
      | some secs ↦ secs
    ]

module _ (h : Hashing) (x : Texts) (st : ItemStore) where
  open st use {State, read_l2_item, write_l2_item, delete_l2_item, log_access}

  abbrev pub Received : Type 0
  Received = ReceiveOutcome × State

  -- Step 3.
  abbrev pub delete_outcome : Result Bool × State → ReceiveOutcome × State
  delete_outcome (ok true, s) = (stored, s)
  delete_outcome (ok false, s) = (duplicate, s)
  delete_outcome (err e, s) = (rejected ("tombstone delete failed: " <> x.of_error e), s)

  -- Steps 6 and 7.
  abbrev pub write_outcome : FetchedItem → Result (Unit {0}) × State → ReceiveOutcome × State
  write_outcome item (ok done, s) = (stored, (log_access (log_of item) s).1)
  write_outcome item (err e, s) = (rejected ("storage error: " <> x.of_error e), s)

  unfoldable pub on_receive :
      FetchedItem → List String → Option (String → Bool) → State → ReceiveOutcome × State
  on_receive item our_groups relay_accepts s =
      if is_oversized item.encrypted_blob
      then (
        rejected (
            "Not My Problem, Entirely Yours: item "
            <> (x.of_ℕ (length item.encrypted_blob)
                <> (" bytes exceeds "
                    <> (x.of_ℕ max_item_bytes <> " byte limit -- condense your thoughts")))),
        s,
      )
      else if not (accepts relay_accepts our_groups item)
      then (
        rejected ("Outside Context Problem: not a member of group '" <> (item.group_id <> "'")),
        s,
      )
      else if is_tombstone_item item
      then delete_outcome (delete_l2_item item.item_id s)
      else if not (validate_checksum h item)
      then (rejected "integrity violation: checksum mismatch -- item corrupted or tampered", s)
      else if is_known (read_l2_item item.item_id s) item
      then (duplicate, s)
      else write_outcome item (write_l2_item (write_of item) s)
