-- ===== src/Api/Items.antt =====
-- crates/cordelia-api/src/lib.rs: the handlers of L1 and L2. A handler takes the text of the header
-- `authorization`, the request and the state.
use cordelia_core.Prelude.{
  ℕ, String, ◌<>◌, Bool, true, false, Option, none, some, List, [], filter, take, length,
  if◌then◌else◌, ◌==◌, ltb, ◌*◌, ◌%◌, ◌^◌, string_eq, option_eq,
}
use cordelia_core.Prelude.Int.{ℤ, pos, as_u32}
use cordelia_core.Protocol.Messages.{Bytes, Hashing}
use cordelia_core.Storage.Rows.{Result, ok, err, L2ItemRow, L2ItemWrite, L2ItemMeta}
use cordelia_core.Storage.Items.{SqliteStorage, read_l2_item, write_l2_item, delete_l2_item}
use cordelia_core.Storage.Members.{read_l1, write_l1, delete_l1, list_l1_users}
use cordelia_core.Storage.Search.{FullText, read_l2_item_meta, fts_search}
use cordelia_core.Replication.Engine.{max_item_bytes}
use cordelia_core.Api.State.{
  AppState, WriteNotification, Json, Response, Body, L2ReadResponse, accepted, json_value,
  base64_data, user_list, item, search_results, answer, json, check_auth, with_storage, notify,
}
use cordelia_core.Api.Requests.{L1WriteRequest, L2WriteRequest, L2WriteMeta, L2SearchRequest}

-- `Option::unwrap_or`
abbrev pub unwrap_or {ℓ} : {A : Type ℓ} → A → Option A → A
unwrap_or d none = d
unwrap_or d (some a) = a

-- `L2WriteMeta::default`
abbrev pub no_meta : L2WriteMeta
no_meta = record {
  owner_id = none;
  visibility = none;
  group_id = none;
  author_id = none;
  key_version = none;
  parent_id = none;
  is_copy = none;
}

-- `or_else(|| Some(..))`
abbrev pub author_or : String → Option String → Option String
author_or entity_id none = some entity_id
author_or entity_id (some a) = some a

abbrev pub item_write : String → String → String → Bytes → L2WriteMeta → L2ItemWrite
item_write entity_id item_id item_type bytes meta = record {
  id = item_id;
  item_type = item_type;
  bytes = bytes;
  owner_id = meta.owner_id;
  visibility = unwrap_or "private" meta.visibility;
  group_id = meta.group_id;
  author_id = author_or entity_id meta.author_id;
  key_version = unwrap_or (pos 1) meta.key_version;
  parent_id = meta.parent_id;
  is_copy = unwrap_or false meta.is_copy;
  updated_at = none;
}

abbrev pub notification_of : L2ItemWrite → WriteNotification
notification_of w = record {
  item_id = w.id;
  item_type = w.item_type;
  group_id = w.group_id;
  bytes = w.bytes;
  key_version = as_u32 w.key_version;
  parent_id = w.parent_id;
  is_copy = w.is_copy;
}

abbrev pub tombstone_notification : String → String → ℤ → WriteNotification
tombstone_notification item_id group_id key_version = record {
  item_id = item_id;
  item_type = "__tombstone__";
  group_id = some group_id;
  bytes = [];
  key_version = as_u32 key_version;
  parent_id = none;
  is_copy = false;
}

-- The tombstone, where the item was of a group.
abbrev pub notify_deletion : String → Result (Option L2ItemMeta) → AppState → AppState
notify_deletion item_id (err e) state = state
notify_deletion item_id (ok none) state = state
notify_deletion item_id (ok (some meta)) state = elim meta.group_id [
  | none ↦ state
  | some group_id ↦ notify (tombstone_notification item_id group_id meta.key_version) state
]

-- Whether the metadata of a result names the group.
abbrev pub in_group : String → Result (Option L2ItemMeta) → Bool
in_group group_id (err e) = false
in_group group_id (ok none) = false
in_group group_id (ok (some meta)) = meta.group_id == some group_id

module _ (j : Json) (h : Hashing) (ft : FullText) where
  abbrev pub Answer : Type 0
  Answer = Response j.Value × AppState

  -- `e.to_string()` with status 500.
  abbrev pub failed : Result (Unit {0}) → Response j.Value
  failed (ok done) = json accepted
  failed (err e) = answer j.Value 500 (j.of_error e)

  -- What the deletions and updates answer.
  abbrev pub found : String → Result Bool → Response j.Value
  found missing (ok true) = json accepted
  found missing (ok false) = answer j.Value 404 missing
  found missing (err e) = answer j.Value 500 (j.of_error e)

  -- A blob that is no JSON goes out as base64.
  abbrev pub blob_body : Bytes → Body j.Value
  blob_body bytes = elim (j.from_slice bytes) [
    | none ↦ base64_data (j.base64 bytes)
    | some v ↦ json_value v
  ]

  unfoldable pub l1_read : Option String → String → AppState → Answer
  l1_read auth user_id state = elim (check_auth j.Value state auth) [
    | some e ↦ (e, state)
    | none ↦ elim (read_l1 user_id state.storage) [
      | err e ↦ (answer j.Value 500 (j.of_error e), state)
      | ok none ↦ (answer j.Value 404 "not found", state)
      | ok (some bytes) ↦ (json (blob_body bytes), state)
    ]
  ]

  unfoldable pub l1_write : Option String → L1WriteRequest j.Value → AppState → Answer
  l1_write auth req state = elim (check_auth j.Value state auth) [
    | some e ↦ (e, state)
    | none ↦
        let (r, s) = write_l1 req.user_id (unwrap_or [] (j.to_vec req.value)) state.storage in
        (failed r, with_storage state s)
  ]

  unfoldable pub l1_delete : Option String → String → AppState → Answer
  l1_delete auth user_id state = elim (check_auth j.Value state auth) [
    | some e ↦ (e, state)
    | none ↦
        let (r, s) = delete_l1 user_id state.storage in (found "not found" r, with_storage state s)
  ]

  unfoldable pub l1_list : Option String → AppState → Answer
  l1_list auth state = elim (check_auth j.Value state auth) [
    | some e ↦ (e, state)
    | none ↦ elim (list_l1_users state.storage) [
      | err e ↦ (answer j.Value 500 (j.of_error e), state)
      | ok users ↦ (json (user_list users), state)
    ]
  ]

  abbrev pub read_response : L2ItemRow → L2ReadResponse j.Value
  read_response row = record {
    item_data = unwrap_or j.null (j.from_slice row.bytes);
    item_type = row.item_type;
    meta = record {
      owner_id = row.owner_id;
      visibility = row.visibility;
      group_id = row.group_id;
      author_id = row.author_id;
      key_version = row.key_version;
      checksum = row.checksum;
      parent_id = row.parent_id;
      is_copy = row.is_copy;
    };
  }

  unfoldable pub l2_read : Option String → String → AppState → Answer
  l2_read auth item_id state = elim (check_auth j.Value state auth) [
    | some e ↦ (e, state)
    | none ↦ elim (read_l2_item item_id state.storage) [
      | err e ↦ (answer j.Value 500 (j.of_error e), state)
      | ok none ↦ (answer j.Value 404 "not found", state)
      | ok (some row) ↦ (json (item (read_response row)), state)
    ]
  ]

  -- After the storage has answered.
  abbrev pub l2_written :
      L2ItemWrite → AppState → Result (Unit {0}) × SqliteStorage → Response j.Value × AppState
  l2_written w state (ok done, s) =
      (json accepted, notify (notification_of w) (with_storage state s))
  l2_written w state (err e, s) = (answer j.Value 500 (j.of_error e), with_storage state s)

  abbrev pub too_large : Bytes → Response j.Value
  too_large bytes = answer j.Value 413 (
      "Conditions Not Met: item is "
      <> (j.of_ℕ (length bytes)
          <> (" bytes but era limit is "
              <> (j.of_ℕ max_item_bytes <> " bytes -- memories should be dense, not large"))))

  unfoldable pub l2_write : Option String → L2WriteRequest j.Value → AppState → Answer
  l2_write auth req state = elim (check_auth j.Value state auth) [
    | some e ↦ (e, state)
    | none ↦ elim (j.to_vec req.value) [
      | none ↦ (
        answer j.Value 400 ("failed to serialise item data: " <> j.to_vec_error req.value),
        state,
      )
      | some bytes ↦
          let w =
            item_write state.entity_id req.item_id req.item_type bytes
              (unwrap_or no_meta req.meta) in
          if ltb max_item_bytes (length bytes)
          then (too_large bytes, state)
          else l2_written w state (write_l2_item h w state.storage)
    ]
  ]

  -- After the storage has answered; the metadata was read before.
  abbrev pub l2_deleted :
      String
      → Result (Option L2ItemMeta)
      → AppState
      → Result Bool × SqliteStorage
      → Response j.Value × AppState
  l2_deleted item_id meta state (ok true, s) =
      (json accepted, notify_deletion item_id meta (with_storage state s))
  l2_deleted item_id meta state (ok false, s) =
      (answer j.Value 404 "not found", with_storage state s)
  l2_deleted item_id meta state (err e, s) =
      (answer j.Value 500 (j.of_error e), with_storage state s)

  unfoldable pub l2_delete : Option String → String → AppState → Answer
  l2_delete auth item_id state = elim (check_auth j.Value state auth) [
    | some e ↦ (e, state)
    | none ↦
        l2_deleted item_id (read_l2_item_meta item_id state.storage) state
          (delete_l2_item item_id state.storage)
  ]

  -- Four times the limit, in a `u32` that wraps, if the results will be filtered.
  abbrev pub fetch_limit : L2SearchRequest → ℕ
  fetch_limit req = elim req.group_id [ none ↦ req.limit | some g ↦ (req.limit * 4) % 2 ^ 32 ]

  abbrev pub filtered : L2SearchRequest → SqliteStorage → List String → List String
  filtered req s ids = elim req.group_id [
    | none ↦ ids
    | some g ↦ take req.limit (filter (λ id. in_group g (read_l2_item_meta id s)) ids)
  ]

  unfoldable pub l2_search : Option String → L2SearchRequest → AppState → Answer
  l2_search auth req state = elim (check_auth j.Value state auth) [
    | some e ↦ (e, state)
    | none ↦ elim (fts_search ft req.query (fetch_limit req) state.storage) [
      | err e ↦ (answer j.Value 500 (j.of_error e), state)
      | ok ids ↦ (json (search_results (filtered req state.storage ids)), state)
    ]
  ]
