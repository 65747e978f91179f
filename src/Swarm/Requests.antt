-- ===== src/Swarm/Requests.antt =====
-- crates/cordelia-node/src/swarm_task.rs: the answers to a peer's sync, fetch and push requests.
use cordelia_core.Prelude.{
  ℕ, ◌+◌, ◌%◌, String, Bool, Option, none, some, List, [], ◌∷◌, ◌++◌, length, ◌==◌, nat_eq,
}
use cordelia_core.Prelude.Int.{as_u32}
use cordelia_core.Protocol.Messages.{
  Hashing, FetchedItem, ItemHeader, SyncRequest, SyncResponse, PushAck,
}
use cordelia_core.Storage.Rows.{Result, ok, err, L2ItemRow}
use cordelia_core.Storage.Interface.{ItemStore}
use cordelia_core.Storage.Items.{SqliteStorage, list_group_items, or_default}
use cordelia_core.Replication.Culture.{ReceiveOutcome, stored, rejected}
use cordelia_core.Replication.Engine.{Texts, on_receive}

-- `unwrap_or_default`
abbrev pub or_empty : Result (List ItemHeader) → List ItemHeader
or_empty (ok items) = items
or_empty (err e) = []

unfoldable pub handle_sync_request : SyncRequest → SqliteStorage → SyncResponse
handle_sync_request req s =
    let items = or_empty (list_group_items req.group_id req.since req.limit s) in
    record { items = items; has_more = length items == req.limit }

abbrev pub fetched : L2ItemRow → FetchedItem
fetched row = record {
  item_id = row.id;
  item_type = row.item_type;
  encrypted_blob = row.bytes;
  checksum = or_default row.checksum;
  author_id = or_default row.author_id;
  group_id = or_default row.group_id;
  key_version = as_u32 row.key_version;
  parent_id = row.parent_id;
  is_copy = row.is_copy;
  updated_at = row.updated_at;
}

-- One id of a fetch: what cannot be read is left out.
abbrev pub fetched_all : Result (Option L2ItemRow) → List FetchedItem
fetched_all (ok (some row)) = fetched row ∷ []
fetched_all (ok none) = []
fetched_all (err e) = []

abbrev pub count_stored : ReceiveOutcome → ℕ → ℕ
count_stored stored n = (n + 1) % 4294967296
count_stored _ n = n

abbrev pub count_rejected : ReceiveOutcome → ℕ → ℕ
count_rejected (rejected why) n = (n + 1) % 4294967296
count_rejected _ n = n

module _ (h : Hashing) (x : Texts) (st : ItemStore) where
  unfoldable pub handle_fetch_request : List String → st.State → List FetchedItem
  handle_fetch_request [] s = []
  handle_fetch_request (id ∷ ids) s =
      fetched_all (st.read_l2_item id s) ++ handle_fetch_request ids s

  unfoldable pub push_from :
      List FetchedItem
      → List String
      → Option (String → Bool)
      → ℕ
      → ℕ
      → st.State
      → PushAck × st.State
  push_from [] our_groups relay_accepts n m s = (record { stored = n; rejected = m }, s)
  push_from (item ∷ items) our_groups relay_accepts n m s =
      let (outcome, s') = on_receive h x st item our_groups relay_accepts s in
      push_from items our_groups relay_accepts (count_stored outcome n) (count_rejected outcome m)
        s'

  unfoldable pub handle_push_request :
      List FetchedItem → List String → Option (String → Bool) → st.State → PushAck × st.State
  unfolding push_from
  handle_push_request items our_groups relay_accepts s =
      push_from items our_groups relay_accepts 0 0 s
