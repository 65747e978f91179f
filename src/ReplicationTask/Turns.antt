-- ===== src/ReplicationTask/Turns.antt =====
-- crates/cordelia-node/src/replication_task.rs: two panics that no event brings about.
use cordelia_core.Prelude.{
  ℕ, String, Bool, true, false, Option, none, some, List, [], ◌∷◌, ◌++◌, is_empty, for_each_inv,
  ◌+◌, ◌<◌, ap, ◌≡◌, refl, arith, Option-cases, inl, inr, All, All-append, if_both, string_eq,
}
use cordelia_core.Prelude.Dict.{lookup}
use cordelia_core.Protocol.Era.{from_secs}
use cordelia_core.Protocol.Messages.{Hashing, FetchedItem, SyncResponse}
use cordelia_core.Governor.Peer.{NodeId}
use cordelia_core.Pool.Peers.{PeerHandle}
use cordelia_core.Pool.Select.{active_peers_for_group_or_relays}
use cordelia_core.Storage.Rows.{Result-cases}
use cordelia_core.Storage.Items.{SqliteStorage, list_group_items}
use cordelia_core.Replication.Culture.{diff_headers}
use cordelia_core.Replication.Engine.{
  ReplicationEngine, Texts, OutboundAction, broadcast_item, nothing,
}
use cordelia_core.Replication.Batches.{split_into_batches}
use cordelia_core.Api.State.{WriteNotification}
use cordelia_core.ReplicationTask.State.{ReplicationLoop, PendingPush, Remote}
use cordelia_core.ReplicationTask.Push.{
  try_each, send_push, send_batches, buffer_action, on_write, enqueue, flush_group, flush,
}
use cordelia_core.ReplicationTask.Retries.{IsOpen, retry-IsOpen}
use cordelia_core.ReplicationTask.AntiEntropy.{
  diff_round, answered_round, run_anti_entropy, fetched_round, pick_peer, Tally, max_text,
  count_diff, fetch_chunks, Round,
}
use cordelia_core.ReplicationTask.Chunks.{chunks_lem}
use cordelia_core.ReplicationTask.Sync.{
  Config, record_round, recorded, sync_group, sync_if_due, sync_tick, current_groups, bootstrap, gc,
  not_due, set_gauges, Event, write_received, flush_due, retry_due, sync_due, bootstrap_requested,
  gc_due, lagged, handle, turn,
}

-- A body that never panics on a state with the invariant, and keeps it, makes such a loop.
pub try_each_inv {ℓ κ μ} :
    {A : Type ℓ} {S : Type κ} (P : S → Type μ) (body : A → S → Option S)
    → ((x : A) (s : S) → P s → (s' : S) × (body x s ≡ some s') × P s')
    → (xs : List A) (s : S) → P s
    → (s' : S) × (try_each xs body s ≡ some s') × P s'
try_each_inv P body keep [] s p = (s, refl, p)
try_each_inv P body keep (x ∷ xs) s p =
    let (s', e, p') = keep x s p in
    let (s'', e', p'') = try_each_inv P body keep xs s' p' in (s'', rw (try_each, e) e', p'')

module _ {F : Type 0} (h : Hashing) where
  -- Every pending push has attempts left.
  abbrev pub AllOpen : ReplicationLoop F → Type 0
  AllOpen s = All IsOpen s.pending_pushes

  send_push-AllOpen :
      (batch : List FetchedItem) (p : PeerHandle F) (s : ReplicationLoop F)
      → AllOpen s
      → AllOpen (send_push h batch p s)
  unfolding send_push
  send_push-AllOpen batch p s o = if_both AllOpen s.is_cmd_open _ _ o o

  send_batches-AllOpen :
      (batches : List (List FetchedItem)) (peers : List (PeerHandle F)) (s : ReplicationLoop F)
      → AllOpen s
      → AllOpen (send_batches h batches peers s)
  unfolding send_batches
  send_batches-AllOpen batches peers s o =
      for_each_inv AllOpen _
        (λ batch s' o'.
          for_each_inv AllOpen (send_push h batch) (send_push-AllOpen batch) peers s' o')
        batches s o

  enqueue-AllOpen :
      (now : ℕ) (group_id : String) (items : List FetchedItem) (s : ReplicationLoop F)
      → AllOpen s
      → (s' : ReplicationLoop F) × (enqueue h now group_id items s ≡ some s') × AllOpen s'
  enqueue-AllOpen now group_id items s o =
      let p : PendingPush = record {
        items = items;
        group_id = group_id;
        attempt = 0;
        next_at = now + from_secs 5;
      } in
      (
        record s { pending_pushes = s.pending_pushes ++ p ∷ [] },
        refl,
        All-append IsOpen s.pending_pushes (p ∷ []) o (omega arith, tt),
      )

  flush_group-AllOpen :
      (now : ℕ) (g : String × List FetchedItem) (s : ReplicationLoop F)
      → AllOpen s
      → (s' : ReplicationLoop F) × (flush_group h now g s ≡ some s') × AllOpen s'
  unfolding flush_group
  flush_group-AllOpen now (group_id, items) s o =
      let peers = active_peers_for_group_or_relays group_id s.pool in
      let Kept =
        λ (r : Option (ReplicationLoop F)). (s' : ReplicationLoop F) × (r ≡ some s') × AllOpen s' in
      if_both Kept (is_empty items) _ _ (s, refl, o)
        (if_both Kept (is_empty peers) _ _ (enqueue-AllOpen now group_id items s o) (
          enqueue-AllOpen now group_id items _
            (send_batches-AllOpen (split_into_batches h items) peers s o)))

  flush-AllOpen :
      (now : ℕ) (s : ReplicationLoop F)
      → AllOpen s
      → (s' : ReplicationLoop F) × (flush h now s ≡ some s') × AllOpen s'
  unfolding flush
  flush-AllOpen now s o =
      try_each_inv AllOpen (flush_group h now) (flush_group-AllOpen now) s.write_buffer
        (record s { write_buffer = [] }) o

  buffer_action-AllOpen :
      (a : OutboundAction) (s : ReplicationLoop F) → AllOpen s → AllOpen (buffer_action h a s)
  buffer_action-AllOpen nothing s o = o
  buffer_action-AllOpen (broadcast_item g item) s o = o

  module _ (x : Texts) where
    fetched_round-AllOpen :
        (latest : Option String) (s : ReplicationLoop F) (r : Bool × Tally × SqliteStorage)
        → AllOpen s
        → AllOpen (fetched_round h x latest s r).1
    fetched_round-AllOpen latest s (false, t, db) o = o
    fetched_round-AllOpen latest s (true, t, db) o = o

    -- A round that does not panic, and keeps the pushes.
    abbrev Rounds : Option (Round F) → Type 0
    Rounds r = (a : Round F) × (r ≡ some a) × AllOpen a.1

    diff_round-AllOpen :
        (engine : ReplicationEngine) (remote : Remote) (peer : NodeId) (g : String)
        (our_groups : List String) (since : Option String) (relay : Option (String → Bool))
        (resp : SyncResponse) (s : ReplicationLoop F)
        → 0 < engine.config.max_batch_size
        → AllOpen s
        → Rounds (diff_round h x engine remote peer g our_groups since relay resp s)
    unfolding diff_round
    diff_round-AllOpen engine remote peer g our_groups since relay resp s positive o =
        elim (Result-cases (list_group_items g since engine.config.max_batch_size s.storage)) [
          | inr (e, down) ↦ rw (diff_round, down) ((none, s), refl, o)
          | inl (here, up) ↦
              let needed = diff_headers here resp.items in
              let (parts, cut, whole) = chunks_lem engine.config.max_batch_size needed positive in
              rw (diff_round, up, cut)
                (if_both Rounds (is_empty needed) _ _ (_, refl, o)
                  (
                    _,
                    refl,
                    fetched_round-AllOpen (max_text none resp.items) (count_diff h x s)
                        (fetch_chunks h x (remote.fetch peer) parts our_groups relay
                          (record { stored = 0; rejected = 0; duplicate = 0 }, s.storage))
                        o,
                  ))
        ]

    answered_round-AllOpen :
        (engine : ReplicationEngine) (remote : Remote) (peer : NodeId) (g : String)
        (our_groups : List String) (since : Option String) (relay : Option (String → Bool))
        (resp : Option SyncResponse) (s : ReplicationLoop F)
        → 0 < engine.config.max_batch_size
        → AllOpen s
        → Rounds (answered_round h x engine remote peer g our_groups since relay resp s)
    unfolding answered_round
    answered_round-AllOpen engine remote peer g our_groups since relay none s positive o =
        ((none, s), refl, o)
    answered_round-AllOpen engine remote peer g our_groups since relay (some resp) s positive o =
        diff_round-AllOpen engine remote peer g our_groups since relay resp s positive o

    run_anti_entropy-AllOpen :
        (engine : ReplicationEngine) (rng : ℕ → ℕ) (remote : Remote) (is_relay : Bool) (g : String)
        (our_groups : List String) (since : Option String) (relay : Option (String → Bool))
        (s : ReplicationLoop F)
        → 0 < engine.config.max_batch_size
        → AllOpen s
        → Rounds (run_anti_entropy h x engine rng remote is_relay g our_groups since relay s)
    unfolding run_anti_entropy
    run_anti_entropy-AllOpen engine rng remote is_relay g our_groups since relay s positive o =
        elim (Option-cases (pick_peer h x rng is_relay g s.pool)) [
          | inl alone ↦ rw (run_anti_entropy, alone) ((some none, s), refl, o)
          | inr (p, found) ↦
              rw (run_anti_entropy, found)
                (if_both Rounds s.is_cmd_open _ _
                  (answered_round-AllOpen engine remote p.node_id g our_groups since relay _ s
                    positive o)
                  ((none, s), refl, o))
        ]

    record_round-AllOpen : (g : String) (r : Round F) → AllOpen r.1 → AllOpen (record_round h x g r)
    record_round-AllOpen g (none, s) o = o
    record_round-AllOpen g (some none, s) o = o
    record_round-AllOpen g (some (some ts), s) o = o

    -- A state that is left without a panic, and keeps the pushes.
    abbrev Goes : Option (ReplicationLoop F) → Type 0
    Goes r = (s' : ReplicationLoop F) × (r ≡ some s') × AllOpen s'

    recorded-AllOpen : (g : String) (r : Option (Round F)) → Rounds r → Goes (recorded h x g r)
    recorded-AllOpen g r (a, e, o) =
        (record_round h x g a, ap (recorded h x g) e, record_round-AllOpen g a o)

    sync_if_due-AllOpen :
        (c : Config) (rng : String → ℕ → ℕ) (remote : Remote) (now : ℕ) (groups : List String)
        (g : String) (s : ReplicationLoop F)
        → 0 < c.engine.config.max_batch_size
        → AllOpen s
        → Goes (sync_if_due h x c rng remote now groups g s)
    unfolding sync_if_due sync_group
    sync_if_due-AllOpen c rng remote now groups g s positive o =
        if_both Goes (not_due now (lookup g s.next_sync_at)) _ _ (s, refl, o)
          (recorded-AllOpen g _
            (run_anti_entropy-AllOpen c.engine (rng g) remote c.is_relay g groups _ _ _ positive o))

    on_write-AllOpen :
        (c : Config) (now : String) (n : WriteNotification) (s : ReplicationLoop F)
        → AllOpen s
        → AllOpen (on_write h c.from_str c.engine now n s)
    unfolding on_write
    on_write-AllOpen c now n s o = elim (Option-cases n.group_id) [
      | inl private_write ↦ rw (on_write, private_write) o
      | inr (g, shared) ↦ rw (on_write, shared) (buffer_action-AllOpen _ s o)
    ]

    handle-AllOpen :
        (c : Config) (e : Event) (s : ReplicationLoop F)
        → 0 < c.engine.config.max_batch_size
        → AllOpen s
        → Goes (handle h x c e s)
    unfolding handle on_write sync_tick bootstrap gc
    handle-AllOpen c (write_received now n) s positive o =
        (on_write h c.from_str c.engine now n s, refl, on_write-AllOpen c now n s o)
    handle-AllOpen c (flush_due now) s positive o = flush-AllOpen now s o
    handle-AllOpen c (retry_due now) s positive o = retry-IsOpen h now s o
    handle-AllOpen c (sync_due rng remote now) s positive o =
        try_each_inv AllOpen (sync_if_due h x c rng remote now (current_groups c s.storage))
          (λ g s' o'.
            sync_if_due-AllOpen c rng remote now (current_groups c s.storage) g s' positive o')
          (current_groups c s.storage) s o
    handle-AllOpen c (bootstrap_requested rng remote g) s positive o = recorded-AllOpen g _ (
        run_anti_entropy-AllOpen c.engine rng remote c.is_relay g c.shared_groups none _ _ positive
          o)
    handle-AllOpen c gc_due s positive o = (gc h x c s, refl, o)
    handle-AllOpen c lagged s positive o = (s, refl, o)

-- If a batch may hold an item, then from a state in which every pending push has attempts left, as at the
-- start where there is none, no sequence of events, whatever the peers answer, makes the loop cut a
-- request into chunks of size 0 or read the table of backoffs out of range, and every pending push still
-- has attempts left.
pub turns-IsOpen :
    {F : Type 0} (h : Hashing) (x : Texts) (c : Config) (events : List Event)
    (s : ReplicationLoop F)
    → 0 < c.engine.config.max_batch_size
    → All IsOpen s.pending_pushes
    → (s' : ReplicationLoop F) × (try_each events (turn h x c) s ≡ some s')
      × All IsOpen s'.pending_pushes
unfolding turn set_gauges
turns-IsOpen h x c events s positive o =
    try_each_inv (AllOpen h) (turn h x c)
      (λ e s' o'. handle-AllOpen h x c e (set_gauges h x s') positive o') events s o
