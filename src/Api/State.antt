-- ===== src/Api/State.antt =====
-- crates/cordelia-api/src/lib.rs: the state that the handlers share, and what they answer.
use cordelia_core.Prelude.{
  ℕ, String, ◌<>◌, Bool, Option, none, some, List, [], ◌++◌, ◌∷◌, if◌then◌else◌, ◌==◌, string_eq,
}
use cordelia_core.Prelude.Int.{ℤ}
use cordelia_core.Protocol.Messages.{Bytes, ItemHeader}
use cordelia_core.Storage.Rows.{Result, StorageError, GroupRow, GroupMemberRow, AccessLogEntry}
use cordelia_core.Storage.Items.{SqliteStorage, log_access}
use cordelia_core.Storage.Search.{GroupStats}

pub record WriteNotification : Type 0 where
  pub item_id : String
  pub item_type : String
  pub group_id : Option String
  pub bytes : Bytes
  pub key_version : ℕ
  pub parent_id : Option String
  pub is_copy : Bool

pub record ReplicationStats : Type 0 where
  pub items_pushed : ℕ
  pub items_synced : ℕ
  pub items_rejected : ℕ
  pub items_duplicate : ℕ
  pub push_retries_exhausted : ℕ
  pub sync_rounds : ℕ
  pub sync_rounds_with_diff : ℕ
  pub sync_errors : ℕ
  pub write_buffer_depth : ℕ
  pub pending_push_count : ℕ

-- `ReplicationStats::new`
abbrev pub new_stats : ReplicationStats
new_stats = record {
  items_pushed = 0;
  items_synced = 0;
  items_rejected = 0;
  items_duplicate = 0;
  push_retries_exhausted = 0;
  sync_rounds = 0;
  sync_rounds_with_diff = 0;
  sync_errors = 0;
  write_buffer_depth = 0;
  pending_push_count = 0;
}

-- `rtt_ms`, a floating point number that is only shown, is left out.
pub record PeerDetail : Type 0 where
  pub node_id : String
  pub addrs : List String
  pub state : String
  pub items_delivered : ℕ
  pub groups : List String
  pub group_intersection : List String
  pub is_relay : Bool
  pub protocol_version : ℕ

-- The ends of the channels hold what was sent on them, in order, that of
-- `bootstrap_sync` after the room that is left. The callbacks to the peer pool stand for
-- what they answer.
pub record AppState : Type 0 where
  pub storage : SqliteStorage
  pub node_id : String
  pub entity_id : String
  pub bearer_token : String
  pub uptime_secs : ℕ
  pub write_notify : Option (List WriteNotification)
  pub shared_groups : Option (List String)
  pub peer_count_fn : Option (ℕ × ℕ)
  pub peer_list_fn : Option (List PeerDetail)
  pub replication_stats : Option ReplicationStats
  pub bootstrap_sync : Option (ℕ × List String)

-- serde_json, base64, and the texts of numbers and errors.
pub record Json : Type 1 where
  pub Value : Type 0
  pub null : Value
  pub to_vec : Value → Option Bytes
  pub to_vec_error : Value → String
  pub from_slice : Bytes → Option Value
  pub base64 : Bytes → String
  pub of_ℕ : ℕ → String
  pub of_error : StorageError → String
  pub of_tenths : ℕ → ℕ → String

-- The metadata of an answer.
pub record L2MetaResponse : Type 0 where
  pub owner_id : Option String
  pub visibility : String
  pub group_id : Option String
  pub author_id : Option String
  pub key_version : ℤ
  pub checksum : Option String
  pub parent_id : Option String
  pub is_copy : Bool

pub record L2ReadResponse (V : Type 0) : Type 0 where
  pub item_data : V
  pub item_type : String
  pub meta : L2MetaResponse

-- A device without the hash of its token.
pub record RedactedDevice : Type 0 where
  pub device_id : String
  pub entity_id : String
  pub device_name : Option String
  pub device_type : String
  pub created_at : String
  pub last_seen_at : Option String
  pub revoked_at : Option String

pub record StatusResponse : Type 0 where
  pub node_id : String
  pub entity_id : String
  pub uptime_secs : ℕ
  pub peers_warm : ℕ
  pub peers_hot : ℕ
  pub groups : List String

pub record PeersResponse : Type 0 where
  pub warm : ℕ
  pub hot : ℕ
  pub total : ℕ
  pub peers : List PeerDetail

pub record Mempool : Type 0 where
  pub l2_items : ℕ
  pub l2_data_bytes : ℕ
  pub l2_data_human : String
  pub groups : ℕ
  pub group_details : List GroupStats

pub record Diagnostics : Type 0 where
  pub status : StatusResponse
  pub replication : Option ReplicationStats
  pub mempool : Result Mempool

-- The bodies that the handlers build.
pub data Body (V : Type 0) : Type 0 where
  text : String → Body V
  accepted : Body V
  json_value : V → Body V
  base64_data : String → Body V
  user_list : List String → Body V
  item : L2ReadResponse V → Body V
  search_results : List String → Body V
  created : String → Body V
  group_list : List GroupRow → Body V
  group_detail : GroupRow → List GroupMemberRow → Body V
  item_list : List ItemHeader → Body V
  device_list : List RedactedDevice → Body V
  node_status : StatusResponse → Body V
  peer_status : PeersResponse → Body V
  node_diagnostics : Diagnostics → Body V

pub record Response (V : Type 0) : Type 0 where
  pub status : ℕ
  pub body : Body V

abbrev pub answer : (V : Type 0) → ℕ → String → Response V
answer V status message = record { status = status; body = text message }

abbrev pub json : {V : Type 0} → Body V → Response V
json body = record { status = 200; body = body }

-- `headers.get("authorization")`, if it is a text, against `Bearer` and the token.
unfoldable pub check_auth : (V : Type 0) → AppState → Option String → Option (Response V)
check_auth V state auth =
    if elim auth [ none ↦ "" | some a ↦ a ] == "Bearer " <> state.bearer_token
    then none
    else some (answer V 401 "invalid bearer token")

abbrev pub with_storage : AppState → SqliteStorage → AppState
with_storage state s = record state { storage = s }

-- `let _ = state.storage.log_access(..)`
abbrev pub logged : AccessLogEntry → AppState → AppState
logged entry state = with_storage state (log_access entry state.storage).1

-- `tx.send(..)`, where there is a channel.
abbrev pub notify : WriteNotification → AppState → AppState
notify n state = elim state.write_notify [
  | none ↦ state
  | some sent ↦ record state { write_notify = some (sent ++ n ∷ []) }
]
