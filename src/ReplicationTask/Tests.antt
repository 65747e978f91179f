-- ===== src/ReplicationTask/Tests.antt =====
-- crates/cordelia-node/src/replication_task.rs: each theorem at a concrete loop.
use cordelia_core.Prelude.{
  ℕ, String, true, false, none, some, List, [], ◌∷◌, ◌++◌, ◌+◌, ◌-◌, ◌⊎◌, ◌≢◌, contains, ◌≡◌, refl,
  arith, All, string_eq, nat_eq,
}
use cordelia_core.Prelude.Dict.{lookup}
use cordelia_core.Prelude.Int
use cordelia_core.Prelude.Sort
use cordelia_core.Pool.Select
use cordelia_core.Storage.Items
use cordelia_core.Storage.Groups
use cordelia_core.Protocol.Messages.{Bytes, Hashing, FetchedItem}
use cordelia_core.Governor.Peer.{hot}
use cordelia_core.Pool.Peers.{PeerHandle}
use cordelia_core.Storage.Rows.{ok, L2ItemRow}
use cordelia_core.Storage.Items.{
  SqliteStorage, available, sqlite_storage, list_group_items, read_l2_item,
}
use cordelia_core.Storage.Search.{FullText}
use cordelia_core.Replication.Culture.{default_config, diff_headers, stored, strategy, eager_push}
use cordelia_core.Replication.Engine.{ReplicationEngine, Texts, on_receive}
use cordelia_core.Replication.Convergence.{receive_all}
use cordelia_core.Swarm.Requests.{handle_sync_request, handle_fetch_request}
use cordelia_core.Api.State.{AppState, Json, new_stats, check_auth}
use cordelia_core.Api.Requests.{L2WriteRequest}
use cordelia_core.Api.Items.{l2_write, notification_of}
use cordelia_core.Api.Writes.{Sends, write_of_request}
use cordelia_core.ReplicationTask.State.{
  PendingPush, ReplicationLoop, Remote, load_group_culture, culture_or_default,
}
use cordelia_core.ReplicationTask.Push.{try_each, retry, flush, on_write, buffer_item}
use cordelia_core.ReplicationTask.Retries.{IsOpen, attempts_left, due, all_left, resent, retry_lem}
use cordelia_core.ReplicationTask.Flush.{all_deliveries, queued, flush_lem}
use cordelia_core.ReplicationTask.AntiEntropy.{Round, pick_peer, run_anti_entropy, max_text}
use cordelia_core.Pool.Select.{select}
use cordelia_core.ReplicationTask.Peers.{is_partner, pick_peer_lem}
use cordelia_core.ReplicationTask.Round.{request_of, run_anti_entropy-receive_all}
use cordelia_core.ReplicationTask.Sync.{Config, Event, flush_due, retry_due, gc_due, sync_due, turn}
use cordelia_core.ReplicationTask.Turns.{turns-IsOpen}
use cordelia_core.ReplicationTask.Delivery.{l2_write-on_receive}

abbrev hashing : Hashing
hashing = record { sha256_hex = λ bytes. "hash"; utf8 = λ s. [] }

abbrev texts : Texts
texts = record { of_ℕ = λ n. "n"; of_error = λ e. "error" }

abbrev item : FetchedItem
item = record {
  item_id = "i";
  item_type = "entity";
  encrypted_blob = 1 ∷ [];
  checksum = "hash";
  author_id = "alice";
  group_id = "g1";
  key_version = 1;
  parent_id = none;
  is_copy = false;
  updated_at = "2026-01-01";
}

abbrev row : L2ItemRow
row = record {
  id = "i";
  item_type = "entity";
  owner_id = none;
  visibility = "group";
  bytes = 1 ∷ [];
  checksum = some "hash";
  group_id = some "g1";
  author_id = some "alice";
  key_version = Int.pos 1;
  parent_id = none;
  is_copy = false;
  access_count = Int.pos 0;
  last_accessed_at = none;
  created_at = "2026-01-01";
  updated_at = "2026-01-01";
}

abbrev empty : SqliteStorage
empty = record {
  is_poisoned = false;
  failure = none;
  meta_failure = none;
  clock = "2026-02-01";
  l2_items = [];
  access_log = [];
  groups = [];
  group_members = [];
  l1_hot = [];
  l2_index = none;
  devices = none;
}

abbrev remote_tables : SqliteStorage
remote_tables = record empty { l2_items = ("i", row) ∷ [] }

abbrev peer : PeerHandle ℕ
peer = record {
  node_id = 1;
  addrs = [];
  state = hot;
  groups = "g1" ∷ [];
  group_intersection = "g1" ∷ [];
  rtt_ms = none;
  protocol_version = 1;
  is_relay = false;
  items_delivered = 0;
}

abbrev push : ℕ → ℕ → PendingPush
push attempt next_at = record {
  items = item ∷ [];
  group_id = "g1";
  attempt = attempt;
  next_at = next_at;
}

-- One push on its last attempt, one on its second, and one that is not due at 100.
abbrev loop : ReplicationLoop ℕ
loop = record {
  write_buffer = ("g1", item ∷ item ∷ []) ∷ ("g2", []) ∷ [];
  pending_pushes = push 3 10 ∷ push 1 20 ∷ push 0 500 ∷ [];
  next_sync_at = [];
  last_sync_at = [];
  sync_cycle_count = [];
  pool = record { inner = (1, peer) ∷ []; our_groups = "g1" ∷ []; relay_learned_groups = none };
  storage = empty;
  stats = new_stats;
  pushed = [];
  is_cmd_open = true;
}

loop-IsOpen : All IsOpen loop.pending_pushes
loop-IsOpen = (omega arith, (omega arith, (omega arith, tt)))

retry_lem_example :
    (s' : ReplicationLoop ℕ) × (retry hashing 100 loop ≡ some s')
    × (s'.pending_pushes ≡ all_left 100 loop.pending_pushes)
    × (s'.pushed ≡ loop.pushed ++ resent hashing 100 loop.pool loop.pending_pushes)
    × All IsOpen s'.pending_pushes
    × (attempts_left s'.pending_pushes + due 100 loop.pending_pushes
        ≡ attempts_left loop.pending_pushes)
retry_lem_example = retry_lem hashing 100 loop refl loop-IsOpen

-- The first push is dropped, the second comes back, the third waits.
all_left_test : all_left 100 loop.pending_pushes ≡ push 2 60000000100 ∷ push 0 500 ∷ []
all_left_test = refl

pick_peer_lem_example :
    ((select (is_partner false "g1") loop.pool ≡ [])
      × (pick_peer hashing texts (λ n. n - 1) false "g1" loop.pool ≡ none))
    ⊎ ((select (is_partner false "g1") loop.pool ≢ [])
        × (p : PeerHandle ℕ) × (pick_peer hashing texts (λ n. n - 1) false "g1" loop.pool ≡ some p)
        × (is_partner false "g1" p ≡ true))
pick_peer_lem_example =
    pick_peer_lem hashing texts (λ n. n - 1) false "g1" loop.pool (λ n positive. omega arith)

flush_lem_example :
    (s' : ReplicationLoop ℕ) × (flush hashing 100 loop ≡ some s')
    × (s'.write_buffer ≡ [])
    × (s'.pushed ≡ loop.pushed ++ all_deliveries hashing loop.pool loop.write_buffer)
    × (s'.pending_pushes ≡ loop.pending_pushes ++ queued 100 loop.write_buffer)
flush_lem_example = flush_lem hashing 100 loop refl

abbrev engine : ReplicationEngine
engine = record { config = default_config; entity_id = "alice" }

-- The peer answers from `remote_tables`.
abbrev remote : Remote
remote = record {
  sync = λ node req. some (handle_sync_request req remote_tables);
  fetch = λ node ids.
      some (handle_fetch_request hashing texts (sqlite_storage hashing) ids remote_tables);
}

abbrev config : Config
config = record {
  engine = engine;
  is_relay = false;
  shared_groups = "g1" ∷ [];
  relay_learned_groups = none;
  relay_blocked_groups = [];
  from_str = λ s. none;
  days_before = λ now days. now;
}

abbrev events : List Event
events = flush_due 0 ∷ retry_due 600 ∷ sync_due (λ g n. 0) remote 700 ∷ gc_due ∷ []

turns-IsOpen_example :
    (s' : ReplicationLoop ℕ) × (try_each events (turn hashing texts config) loop ≡ some s')
    × All IsOpen s'.pending_pushes
turns-IsOpen_example = turns-IsOpen hashing texts config events loop (omega arith) loop-IsOpen

peer_is_picked : pick_peer hashing texts (λ n. 0) false "g1" loop.pool ≡ some peer
unfolding Select.random_hot_peer_for_group string_eq
peer_is_picked = refl

nothing_is_listed : list_group_items "g1" none 100 empty ≡ ok []
unfolding list_group_items available Sort.sort_by
nothing_is_listed = refl

run_anti_entropy-receive_all_example :
    (a : Round ℕ) × (run_anti_entropy hashing texts engine
        (λ n. 0)
        remote
        false
        "g1"
        ("g1" ∷ [])
        none
        none
        loop
      ≡ some a)
    × (a.0
        ≡ some
            (max_text none (handle_sync_request (request_of engine "g1" none) remote_tables).items))
    × (a.1.storage
        ≡ receive_all hashing texts
            (sqlite_storage hashing)
            ("g1" ∷ [])
            none
            (handle_fetch_request hashing texts
              (sqlite_storage hashing)
              (diff_headers []
                (handle_sync_request (request_of engine "g1" none) remote_tables).items)
              remote_tables)
            empty)
run_anti_entropy-receive_all_example =
    run_anti_entropy-receive_all hashing texts engine remote remote_tables
      ((λ node req. refl), λ node ids. refl) (omega arith) (λ n. 0) false "g1" ("g1" ∷ []) none none
      loop peer [] peer_is_picked refl nothing_is_listed

abbrev document : Json
document = record {
  Value = Bytes;
  null = [];
  to_vec = λ v. some v;
  to_vec_error = λ v. "error";
  from_slice = λ bs. some bs;
  base64 = λ bs. "bytes";
  of_ℕ = λ n. "n";
  of_error = λ e. "error";
  of_tenths = λ n d. "n";
}

abbrev full_text : FullText
full_text = record { trim = λ s. s; split_whitespace = λ s. s ∷ []; ranked = λ q s. [] }

abbrev write : L2WriteRequest Bytes
write = record {
  item_id = "i";
  item_type = "entity";
  value = 1 ∷ [];
  meta = some (record {
    owner_id = none;
    visibility = some "group";
    group_id = some "g1";
    author_id = none;
    key_version = none;
    parent_id = none;
    is_copy = none;
  });
}

abbrev state : AppState
state = record {
  storage = empty;
  node_id = "n1";
  entity_id = "alice";
  bearer_token = "t";
  uptime_secs = 0;
  write_notify = some [];
  shared_groups = none;
  peer_count_fn = none;
  peer_list_fn = none;
  replication_stats = none;
  bootstrap_sync = none;
}

token_holds : check_auth Bytes state (some "Bearer t") ≡ none
unfolding check_auth string_eq
token_holds = refl

write_is_accepted :
    (l2_write document hashing full_text (some "Bearer t") write state).0.status ≡ 200
unfolding l2_write check_auth string_eq Items.write_l2_item available Items.is_row
write_is_accepted = refl

-- The group is not stored, so that the default culture counts.
culture_is_eager :
    strategy (culture_or_default (load_group_culture (λ s. none) empty "g1")) ≡ eager_push
unfolding strategy load_group_culture Groups.read_group lookup available string_eq
culture_is_eager = refl

empty_works : available empty ≡ none
unfolding available
empty_works = refl

nothing_is_stored : read_l2_item "i" empty ≡ ok none
unfolding read_l2_item lookup available
nothing_is_stored = refl

g1_is_ours : contains {A = String} ("g1" ∷ []) "g1" ≡ true
unfolding string_eq
g1_is_ours = refl

l2_write-on_receive_example :
    (bytes : Bytes) × (it : FetchedItem) × (some (1 ∷ []) ≡ some bytes)
    × Sends state
        (notification_of (write_of_request document state write bytes))
        (l2_write document hashing full_text (some "Bearer t") write state).1
    × (on_write hashing
          (λ s. none)
          engine
          "2026-02-01"
          (notification_of (write_of_request document state write bytes))
          loop
        ≡ buffer_item hashing "g1" it loop)
    × (it.encrypted_blob ≡ bytes)
    × ((on_receive hashing texts (sqlite_storage hashing) it ("g1" ∷ []) none empty).0 ≡ stored)
l2_write-on_receive_example =
    l2_write-on_receive document hashing full_text texts (some "Bearer t") write state "g1"
      "2026-02-01" engine (λ s. none) loop ("g1" ∷ []) empty token_holds write_is_accepted refl
      culture_is_eager empty_works g1_is_ours nothing_is_stored
