-- ===== src/ReplicationTask/State.antt =====
-- crates/cordelia-node/src/replication_task.rs: the loop's variables, and what it shares with other tasks.
use cordelia_core.Prelude.{ℕ, String, Bool, Option, none, some, List, ◌+◌, ◌%◌, ◌^◌}
use cordelia_core.Prelude.Dict.{Dict}
use cordelia_core.Protocol.Messages.{FetchedItem, SyncRequest, SyncResponse}
use cordelia_core.Governor.Peer.{NodeId}
use cordelia_core.Pool.Peers.{PeerPool}
use cordelia_core.Storage.Items.{SqliteStorage}
use cordelia_core.Storage.Rows.{ok, err}
use cordelia_core.Storage.Groups.{read_group}
use cordelia_core.Replication.Culture.{GroupCulture, default_culture}
use cordelia_core.Api.State.{ReplicationStats}

pub record PendingPush : Type 0 where
  pub items : List FetchedItem
  pub group_id : String
  pub attempt : ℕ
  pub next_at : ℕ

-- `pushed` holds the pushes that the swarm task was told to send, in order; `is_cmd_open` says whether it
-- still listens.
pub record ReplicationLoop (F : Type 0) : Type 0 where
  pub write_buffer : Dict String (List FetchedItem)
  pub pending_pushes : List PendingPush
  pub next_sync_at : Dict String ℕ
  pub last_sync_at : Dict String String
  pub sync_cycle_count : Dict String ℕ
  pub pool : PeerPool F
  pub storage : SqliteStorage
  pub stats : ReplicationStats
  pub pushed : List (NodeId × List FetchedItem)
  pub is_cmd_open : Bool

-- What peers answer while one event is handled; `none` is an error or a closed channel.
pub record Remote : Type 0 where
  pub sync : NodeId → SyncRequest → Option SyncResponse
  pub fetch : NodeId → List String → Option (List FetchedItem)

-- `fetch_add` on a counter of 64 bits.
abbrev pub fetch_add : ℕ → ℕ → ℕ
fetch_add counter n = (counter + n) % 2 ^ 64

-- Text that is no JSON counts as the eagerness.
abbrev pub culture_of : (String → Option GroupCulture) → String → GroupCulture
culture_of from_str raw = elim (from_str raw) [
  | some c ↦ c
  | none ↦ record default_culture { broadcast_eagerness = raw }
]

-- `from_str` is serde's.
unfoldable pub load_group_culture :
    (String → Option GroupCulture) → SqliteStorage → String → Option GroupCulture
load_group_culture from_str s group_id = elim (read_group group_id s) [
  | err e ↦ none
  | ok none ↦ none
  | ok (some g) ↦ some (culture_of from_str g.culture)
]

-- `unwrap_or_default`
abbrev pub culture_or_default : Option GroupCulture → GroupCulture
culture_or_default none = default_culture
culture_or_default (some c) = c
