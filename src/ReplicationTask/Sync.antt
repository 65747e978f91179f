-- ===== src/ReplicationTask/Sync.antt =====
-- crates/cordelia-node/src/replication_task.rs: which groups are synced when, and the branches of the loop.
use cordelia_core.Prelude.{
  ℕ, String, Bool, false, not, Option, none, some, List, [], ◌∷◌, ◌++◌, length, is_empty,
  if◌then◌else◌, filter, contains, ltb, ◌==◌, ◌+◌, ◌%◌, ◌^◌, string_eq, nat_eq,
}
use cordelia_core.Prelude.Dict.{Dict, lookup, insert, remove}
use cordelia_core.Protocol.Era.{from_secs}
use cordelia_core.Protocol.Messages.{Hashing, FetchedItem, group_tombstone_culture}
use cordelia_core.Storage.Rows.{Result, ok, err}
use cordelia_core.Storage.Items.{SqliteStorage}
use cordelia_core.Storage.Members.{purge_deleted_groups}
use cordelia_core.Storage.Search.{list_stored_group_ids}
use cordelia_core.Replication.Culture.{GroupCulture}
use cordelia_core.Replication.Engine.{ReplicationEngine, Texts, sync_interval}
use cordelia_core.Api.State.{WriteNotification}
use cordelia_core.ReplicationTask.State.{
  ReplicationLoop, Remote, fetch_add, load_group_culture, culture_or_default,
}
use cordelia_core.ReplicationTask.Push.{try_each, on_write, flush, retry}
use cordelia_core.ReplicationTask.AntiEntropy.{run_anti_entropy}

-- What the loop is started with, and the lists that other tasks change.
pub record Config : Type 0 where
  pub engine : ReplicationEngine
  pub is_relay : Bool
  pub shared_groups : List String
  pub relay_learned_groups : Option (List String)
  pub relay_blocked_groups : List String
  pub from_str : String → Option GroupCulture
  pub days_before : String → ℕ → String

abbrev pub full_sync_every : ℕ
full_sync_every = 10

-- `if !current_groups.contains(g) { current_groups.push(g) }` for each.
unfoldable pub add_missing : List String → List String → List String
add_missing [] groups = groups
add_missing (g ∷ gs) groups =
    add_missing gs (if contains groups g then groups else groups ++ g ∷ [])

abbrev pub stored_groups : Result (List String) → List String
stored_groups (err e) = []
stored_groups (ok ids) = ids

abbrev pub learned_groups : Option (List String) → List String
learned_groups none = []
learned_groups (some gs) = gs

-- Our groups; on a relay also those that it learned or stores; less the blocked ones.
unfoldable pub current_groups : Config → SqliteStorage → List String
unfolding add_missing
current_groups c s =
    let extended =
      add_missing (stored_groups (list_stored_group_ids s))
        (add_missing (learned_groups c.relay_learned_groups) c.shared_groups) in
    let groups = if c.is_relay then extended else c.shared_groups in
    if is_empty c.relay_blocked_groups
    then groups
    else filter (λ g. not (contains c.relay_blocked_groups g)) groups

abbrev pub accept_set : Bool → List String → Option (String → Bool)
accept_set is_relay groups = if is_relay then some (λ g. contains groups g) else none

abbrev pub cycle_of : Option ℕ → ℕ
cycle_of none = 0
cycle_of (some n) = n

abbrev pub not_due : ℕ → Option ℕ → Bool
not_due now none = false
not_due now (some deadline) = ltb now deadline

-- A cycle whose number is a multiple of ten syncs in full.
abbrev pub since_of : ℕ → Option String → Option String
since_of cycle last = if cycle % full_sync_every == 0 then none else last

abbrev pub buffered_items : Dict String (List FetchedItem) → ℕ
buffered_items [] = 0
buffered_items ((g, items) ∷ d) = length items + buffered_items d

module _ {F : Type 0} (h : Hashing) (x : Texts) where
  -- What both callers of `run_anti_entropy` do with its answer.
  abbrev pub record_round : String → Option (Option String) × ReplicationLoop F → ReplicationLoop F
  record_round group_id (none, s) = record s {
    stats = record (s.stats) { sync_errors = fetch_add s.stats.sync_errors 1 };
  }
  record_round group_id (some none, s) = record s {
    stats = record (s.stats) { sync_rounds = fetch_add s.stats.sync_rounds 1 };
  }
  record_round group_id (some (some ts), s) = record s {
    stats = record (s.stats) { sync_rounds = fetch_add s.stats.sync_rounds 1 };
    last_sync_at = insert group_id ts s.last_sync_at;
  }

  abbrev pub recorded :
      String → Option (Option (Option String) × ReplicationLoop F) → Option (ReplicationLoop F)
  recorded group_id none = none
  recorded group_id (some r) = some (record_round group_id r)

  -- One group that is due.
  unfoldable pub sync_group :
      Config
      → (String → ℕ → ℕ)
      → Remote
      → ℕ
      → List String
      → String
      → ReplicationLoop F
      → Option (ReplicationLoop F)
  sync_group c rng remote now groups group_id s =
      let culture = culture_or_default (load_group_culture c.from_str s.storage group_id) in
      let cycle = (cycle_of (lookup group_id s.sync_cycle_count) + 1) % 2 ^ 32 in
      recorded group_id (
        run_anti_entropy h x c.engine (rng group_id) remote c.is_relay group_id groups
          (since_of cycle (lookup group_id s.last_sync_at)) (accept_set c.is_relay groups)
          (record s {
            next_sync_at =
                insert group_id (now + from_secs (sync_interval c.engine culture)) s.next_sync_at;
            sync_cycle_count = insert group_id cycle s.sync_cycle_count;
          }))

  unfoldable pub sync_if_due :
      Config
      → (String → ℕ → ℕ)
      → Remote
      → ℕ
      → List String
      → String
      → ReplicationLoop F
      → Option (ReplicationLoop F)
  unfolding sync_group
  sync_if_due c rng remote now groups group_id s =
      if not_due now (lookup group_id s.next_sync_at)
      then some s
      else sync_group c rng remote now groups group_id s

  -- The tick of the sync timer.
  unfoldable pub sync_tick :
      Config → (String → ℕ → ℕ) → Remote → ℕ → ReplicationLoop F → Option (ReplicationLoop F)
  unfolding current_groups sync_if_due
  sync_tick c rng remote now s =
      try_each (current_groups c s.storage)
        (sync_if_due c rng remote now (current_groups c s.storage)) s

  -- A group that was just added.
  unfoldable pub bootstrap :
      Config → (ℕ → ℕ) → Remote → String → ReplicationLoop F → Option (ReplicationLoop F)
  bootstrap c rng remote group_id s = recorded group_id (
      run_anti_entropy h x c.engine rng remote c.is_relay group_id c.shared_groups none
        (accept_set c.is_relay c.shared_groups)
        (record s {
          next_sync_at = remove group_id s.next_sync_at;
          last_sync_at = remove group_id s.last_sync_at;
          sync_cycle_count = remove group_id s.sync_cycle_count;
        }))

  -- Tombstones of groups past their retention.
  unfoldable pub gc : Config → ReplicationLoop F → ReplicationLoop F
  gc c s = record s {
    storage =
        (purge_deleted_groups c.days_before group_tombstone_culture
          c.engine.config.tombstone_retention_days s.storage).1;
  }

  -- The gauges are set before each event.
  unfoldable pub set_gauges : ReplicationLoop F → ReplicationLoop F
  set_gauges s = record s {
    stats = record (s.stats) {
      write_buffer_depth = buffered_items s.write_buffer % 2 ^ 64;
      pending_push_count = length s.pending_pushes % 2 ^ 64;
    };
  }

-- The branches of `select!` that go on with the loop. A lagged channel of notifications changes nothing.
pub data Event : Type 0 where
  write_received : String → WriteNotification → Event
  flush_due retry_due : ℕ → Event
  sync_due : (String → ℕ → ℕ) → Remote → ℕ → Event
  bootstrap_requested : (ℕ → ℕ) → Remote → String → Event
  gc_due lagged : Event

module _ {F : Type 0} (h : Hashing) (x : Texts) (c : Config) where
  unfoldable pub handle : Event → ReplicationLoop F → Option (ReplicationLoop F)
  handle (write_received now n) s = some (on_write h c.from_str c.engine now n s)
  handle (flush_due now) s = flush h now s
  handle (retry_due now) s = retry h now s
  handle (sync_due rng remote now) s = sync_tick h x c rng remote now s
  handle (bootstrap_requested rng remote group_id) s = bootstrap h x c rng remote group_id s
  handle gc_due s = some (gc h x c s)
  handle lagged s = some s

  -- One turn of the loop; `none` is a panic.
  unfoldable pub turn : Event → ReplicationLoop F → Option (ReplicationLoop F)
  unfolding handle
  turn e s = handle e (set_gauges h x s)
