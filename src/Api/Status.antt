-- ===== src/Api/Status.antt =====
-- crates/cordelia-api/src/lib.rs: the handlers that only report.
use cordelia_core.Prelude.{
  ℕ, String, ◌<>◌, Option, none, some, List, [], if◌then◌else◌, leb, ◌+◌, ◌*◌, string_eq,
}
use cordelia_core.Storage.Rows.{Result, ok, err}
use cordelia_core.Storage.Search.{StorageStats, storage_stats}
use cordelia_core.Api.State.{
  AppState, Json, Response, StatusResponse, PeersResponse, Mempool, node_status, peer_status,
  node_diagnostics, json, check_auth,
}

abbrev pub peer_counts : AppState → ℕ × ℕ
peer_counts state = elim state.peer_count_fn [ none ↦ (0, 0) | some n ↦ n ]

abbrev pub group_ids : AppState → List String
group_ids state = elim state.shared_groups [ none ↦ [] | some ids ↦ ids ]

abbrev pub status_response : AppState → StatusResponse
status_response state = record {
  node_id = state.node_id;
  entity_id = state.entity_id;
  uptime_secs = state.uptime_secs;
  peers_warm = (peer_counts state).0;
  peers_hot = (peer_counts state).1;
  groups = group_ids state;
}

abbrev pub peers_response : AppState → PeersResponse
peers_response state = record {
  warm = (peer_counts state).0;
  hot = (peer_counts state).1;
  total = (peer_counts state).0 + (peer_counts state).1;
  peers = elim state.peer_list_fn [ none ↦ [] | some ps ↦ ps ];
}

module _ (j : Json) where
  abbrev pub Answer : Type 0
  Answer = Response j.Value × AppState

  -- `of_tenths n d` is the quotient n / d with one decimal.
  unfoldable pub format_bytes : ℕ → String
  format_bytes bytes =
      if leb (1024 * 1024 * 1024) bytes
      then j.of_tenths bytes (1024 * 1024 * 1024) <> " GB"
      else if leb (1024 * 1024) bytes
      then j.of_tenths bytes (1024 * 1024) <> " MB"
      else if leb 1024 bytes
      then j.of_tenths bytes 1024 <> " KB"
      else j.of_ℕ bytes <> " B"

  abbrev pub mempool : Result StorageStats → Result Mempool
  mempool (err e) = err e
  mempool (ok stats) = ok (record {
    l2_items = stats.l2_item_count;
    l2_data_bytes = stats.l2_data_bytes;
    l2_data_human = format_bytes stats.l2_data_bytes;
    groups = stats.group_count;
    group_details = stats.groups;
  })

  unfoldable pub status : Option String → AppState → Answer
  status auth state = elim (check_auth j.Value state auth) [
    | some e ↦ (e, state)
    | none ↦ (json (node_status (status_response state)), state)
  ]

  unfoldable pub peers : Option String → AppState → Answer
  peers auth state = elim (check_auth j.Value state auth) [
    | some e ↦ (e, state)
    | none ↦ (json (peer_status (peers_response state)), state)
  ]

  unfoldable pub diagnostics : Option String → AppState → Answer
  diagnostics auth state = elim (check_auth j.Value state auth) [
    | some e ↦ (e, state)
    | none ↦ (
      json (
          node_diagnostics (record {
            status = status_response state;
            replication = state.replication_stats;
            mempool = mempool (storage_stats state.storage);
          })),
      state,
    )
  ]
