-- ===== src/ReplicationTask/Push.antt =====
-- crates/cordelia-node/src/replication_task.rs: the write buffer, its flush, and the retries.
use cordelia_core.Prelude.{
  ℕ, String, Option, none, some, List, [], ◌∷◌, ◌++◌, length, is_empty, if◌then◌else◌, ltb, leb,
  for_each, ◌+◌, string_eq, nat_eq,
}
use cordelia_core.Prelude.Dict.{lookup, insert}
use cordelia_core.Protocol.Era.{era_0, from_secs}
use cordelia_core.Protocol.Messages.{Hashing, FetchedItem}
use cordelia_core.Pool.Peers.{PeerHandle, record_items_delivered}
use cordelia_core.Pool.Select.{active_peers_for_group_or_relays, get_elem?}
use cordelia_core.Replication.Culture.{GroupCulture}
use cordelia_core.Replication.Engine.{
  ReplicationEngine, OutboundAction, broadcast_item, nothing, on_local_write,
}
use cordelia_core.Replication.Batches.{split_into_batches}
use cordelia_core.Api.State.{WriteNotification}
use cordelia_core.ReplicationTask.State.{
  PendingPush, ReplicationLoop, fetch_add, load_group_culture, culture_or_default,
}

-- A loop whose body may panic.
abbrev pub try_each {ℓ κ} : {A : Type ℓ} {S : Type κ} → List A → (A → S → Option S) → S → Option S
try_each [] body s = some s
try_each (x ∷ xs) body s = elim (body x s) [ none ↦ none | some s' ↦ try_each xs body s' ]

-- `entry(group_id).or_default().push(item)`
abbrev pub buffered : Option (List FetchedItem) → List FetchedItem
buffered none = []
buffered (some items) = items

-- `push_retry_backoffs[attempt]`, which panics out of range.
abbrev pub backoff_secs : ℕ → Option ℕ
backoff_secs attempt = get_elem? era_0.push_retry_backoffs attempt

module _ {F : Type 0} (h : Hashing) where
  abbrev pub buffer_item : String → FetchedItem → ReplicationLoop F → ReplicationLoop F
  buffer_item group_id item s = record s {
    write_buffer =
        insert group_id (buffered (lookup group_id s.write_buffer) ++ item ∷ []) s.write_buffer;
  }

  abbrev pub buffer_action : OutboundAction → ReplicationLoop F → ReplicationLoop F
  buffer_action nothing s = s
  buffer_action (broadcast_item group_id item) s = buffer_item group_id item s

  -- A local write; `now` is the clock's text.
  unfoldable pub on_write :
      (String → Option GroupCulture)
      → ReplicationEngine
      → String
      → WriteNotification
      → ReplicationLoop F
      → ReplicationLoop F
  on_write from_str engine now n s = elim n.group_id [
    | none ↦ s
    | some group_id ↦
        buffer_action
          (on_local_write h engine now group_id
            (culture_or_default (load_group_culture from_str s.storage group_id)) n.item_id
            n.item_type n.bytes n.key_version n.parent_id n.is_copy)
          s
  ]

  unfoldable pub send_push : List FetchedItem → PeerHandle F → ReplicationLoop F → ReplicationLoop F
  send_push batch peer s =
      if s.is_cmd_open
      then record s {
        pushed = s.pushed ++ (peer.node_id, batch) ∷ [];
        pool = record_items_delivered peer.node_id (length batch) s.pool;
      }
      else s

  unfoldable pub send_batches :
      List (List FetchedItem) → List (PeerHandle F) → ReplicationLoop F → ReplicationLoop F
  send_batches batches peers s =
      for_each batches
        (λ (batch : List FetchedItem) (s : ReplicationLoop F). for_each peers (send_push batch) s) s

  -- `pending_pushes.push(..)` with attempt 0.
  abbrev pub enqueue :
      ℕ → String → List FetchedItem → ReplicationLoop F → Option (ReplicationLoop F)
  enqueue now group_id items s = elim (backoff_secs 0) [
    | none ↦ none
    | some secs ↦ some (record s {
      pending_pushes =
          s.pending_pushes
          ++ record {
            items = items;
            group_id = group_id;
            attempt = 0;
            next_at = now + from_secs secs;
          }
            ∷ [];
    })
  ]

  abbrev pub count_pushed : ℕ → ReplicationLoop F → ReplicationLoop F
  count_pushed n s = record s {
    stats = record (s.stats) { items_pushed = fetch_add s.stats.items_pushed n };
  }

  unfoldable pub flush_group :
      ℕ → String × List FetchedItem → ReplicationLoop F → Option (ReplicationLoop F)
  flush_group now (group_id, items) s =
      if is_empty items
      then some s
      else let peers = active_peers_for_group_or_relays group_id s.pool in
        if is_empty peers
        then enqueue now group_id items s
        else enqueue now group_id items
            (count_pushed (length items) (send_batches (split_into_batches h items) peers s))

  -- `write_buffer.drain()`
  unfoldable pub flush : ℕ → ReplicationLoop F → Option (ReplicationLoop F)
  flush now s = try_each s.write_buffer (flush_group now) (record s { write_buffer = [] })

  abbrev pub count_exhausted : ReplicationLoop F → ReplicationLoop F
  count_exhausted s = record s {
    stats = record (s.stats) {
      push_retries_exhausted = fetch_add s.stats.push_retries_exhausted 1;
    };
  }

  abbrev pub resend : PendingPush → ReplicationLoop F → ReplicationLoop F
  resend p s =
      let peers = active_peers_for_group_or_relays p.group_id s.pool in
      if is_empty peers then s else send_batches (split_into_batches h p.items) peers s

  -- The loop's variable `keep`, and the rest.
  unfoldable pub retry_push :
      ℕ
      → PendingPush
      → List PendingPush × ReplicationLoop F
      → Option (List PendingPush × ReplicationLoop F)
  retry_push now p (keep, s) =
      if ltb now p.next_at
      then some (keep ++ p ∷ [], s)
      else if leb era_0.push_retry_count (p.attempt + 1)
      then some (keep, count_exhausted (resend p s))
      else elim (backoff_secs (p.attempt + 1)) [
        | none ↦ none
        | some secs ↦ some (
          keep ++ record p { attempt = p.attempt + 1; next_at = now + from_secs secs } ∷ [],
          resend p s,
        )
      ]

  abbrev pub kept_pushes :
      Option (List PendingPush × ReplicationLoop F) → Option (ReplicationLoop F)
  kept_pushes none = none
  kept_pushes (some (keep, s)) = some (record s { pending_pushes = keep })

  unfoldable pub retry : ℕ → ReplicationLoop F → Option (ReplicationLoop F)
  retry now s = kept_pushes (try_each s.pending_pushes (retry_push now) ([], s))
