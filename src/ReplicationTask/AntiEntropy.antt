-- ===== src/ReplicationTask/AntiEntropy.antt =====
-- crates/cordelia-node/src/replication_task.rs: `run_anti_entropy`, a round with one peer for one group.
use cordelia_core.Prelude.{
  ℕ, zero, suc, String, Bool, true, false, Option, none, some, List, [], ◌∷◌, length, is_empty,
  if◌then◌else◌, take, ◌+◌, string_eq,
}
use cordelia_core.Prelude.Text.{text_leb}
use cordelia_core.Protocol.Messages.{Hashing, FetchedItem, ItemHeader, SyncResponse}
use cordelia_core.Governor.Peer.{NodeId}
use cordelia_core.Pool.Peers.{PeerHandle, PeerPool}
use cordelia_core.Pool.Select.{random_hot_peer_for_group, random_hot_peer_for_group_or_relays}
use cordelia_core.Storage.Rows.{ok, err}
use cordelia_core.Storage.Items.{SqliteStorage, sqlite_storage, list_group_items}
use cordelia_core.Replication.Culture.{ReceiveOutcome, stored, duplicate, rejected, diff_headers}
use cordelia_core.Replication.Engine.{ReplicationEngine, Texts, on_receive}
use cordelia_core.ReplicationTask.State.{ReplicationLoop, Remote, fetch_add}

abbrev pub drop {ℓ} : {A : Type ℓ} → ℕ → List A → List A
drop zero xs = xs
drop (suc n) [] = []
drop (suc n) (x ∷ xs) = drop n xs

-- `chunks(size)`; the fuel is the length of the list.
unfoldable pub chunks_from {ℓ} : {A : Type ℓ} → ℕ → ℕ → List A → List (List A)
chunks_from zero size xs = []
chunks_from (suc fuel) size xs =
    let rest = chunks_from fuel size (drop size xs) in
    if is_empty xs then [] else take size xs ∷ rest

-- A size of 0 panics.
unfoldable pub chunks {ℓ} : {A : Type ℓ} → ℕ → List A → Option (List (List A))
unfolding chunks_from
chunks zero xs = none
chunks (suc n) xs = some (chunks_from (length xs) (suc n) xs)

-- `max()`: of equal ones the last.
abbrev pub max_text : Option String → List ItemHeader → Option String
max_text best [] = best
max_text none (r ∷ rs) = max_text (some r.updated_at) rs
max_text (some t) (r ∷ rs) =
    let later = max_text (some r.updated_at) rs in
    let earlier = max_text (some t) rs in if text_leb t r.updated_at then later else earlier

-- The counters of a round.
pub record Tally : Type 0 where
  pub stored : ℕ
  pub rejected : ℕ
  pub duplicate : ℕ

abbrev pub tally : ReceiveOutcome → Tally → Tally
tally stored t = record t { stored = t.stored + 1 }
tally duplicate t = record t { duplicate = t.duplicate + 1 }
tally (rejected why) t = record t { rejected = t.rejected + 1 }

-- What a round returns, and the state: `none` is the error.
abbrev pub Round : Type 0 → Type 0
Round F = Option (Option String) × ReplicationLoop F

module _ (h : Hashing) (x : Texts) where
  -- The items of one answer.
  unfoldable pub receive_items :
      List FetchedItem
      → List String
      → Option (String → Bool)
      → Tally × SqliteStorage
      → Tally × SqliteStorage
  receive_items [] our_groups relay_accepts (t, s) = (t, s)
  receive_items (item ∷ items) our_groups relay_accepts (t, s) =
      let (outcome, s') = on_receive h x (sqlite_storage h) item our_groups relay_accepts s in
      receive_items items our_groups relay_accepts (tally outcome t, s')

  -- One request for each chunk. The Boolean says whether all were answered; the items of those that were
  -- are stored in any case.
  unfoldable pub fetch_chunks :
      (List String → Option (List FetchedItem))
      → List (List String)
      → List String
      → Option (String → Bool)
      → Tally × SqliteStorage
      → Bool × Tally × SqliteStorage
  unfolding receive_items
  fetch_chunks fetch [] our_groups relay_accepts (t, s) = (true, t, s)
  fetch_chunks fetch (ids ∷ more) our_groups relay_accepts (t, s) = elim (fetch ids) [
    | none ↦ (false, t, s)
    | some items ↦
        fetch_chunks fetch more our_groups relay_accepts
          (receive_items items our_groups relay_accepts (t, s))
  ]

  module _ {F : Type 0} where
    abbrev pub count_diff : ReplicationLoop F → ReplicationLoop F
    count_diff s = record s {
      stats = record (s.stats) {
        sync_rounds_with_diff = fetch_add s.stats.sync_rounds_with_diff 1;
      };
    }

    abbrev pub count_tally : Tally → ReplicationLoop F → ReplicationLoop F
    count_tally t s = record s {
      stats = record (s.stats) {
        items_synced = fetch_add s.stats.items_synced t.stored;
        items_rejected = fetch_add s.stats.items_rejected t.rejected;
        items_duplicate = fetch_add s.stats.items_duplicate t.duplicate;
      };
    }

    -- The end of a round.
    abbrev pub fetched_round :
        Option String → ReplicationLoop F → Bool × Tally × SqliteStorage → Round F
    fetched_round latest s (false, t, db) = (none, record s { storage = db })
    fetched_round latest s (true, t, db) = (some latest, count_tally t (record s { storage = db }))

    -- After the answer with the headers. From here on the outer option is `none` for a panic.
    unfoldable pub diff_round :
        ReplicationEngine
        → Remote
        → NodeId
        → String
        → List String
        → Option String
        → Option (String → Bool)
        → SyncResponse
        → ReplicationLoop F
        → Option (Round F)
    diff_round engine remote peer group_id our_groups since relay_accepts resp s =
        elim (list_group_items group_id since engine.config.max_batch_size s.storage) [
          | err e ↦ some (none, s)
          | ok here ↦
              let needed = diff_headers here resp.items in
              let latest = max_text none resp.items in
              if is_empty needed
              then some (some latest, s)
              else elim (chunks engine.config.max_batch_size needed) [
                | none ↦ none
                | some parts ↦ some (
                    fetched_round latest (count_diff s) (
                      fetch_chunks (remote.fetch peer) parts our_groups relay_accepts
                        (record { stored = 0; rejected = 0; duplicate = 0 }, s.storage)))
              ]
        ]

    -- After the answer to the sync request, if there is one.
    unfoldable pub answered_round :
        ReplicationEngine
        → Remote
        → NodeId
        → String
        → List String
        → Option String
        → Option (String → Bool)
        → Option SyncResponse
        → ReplicationLoop F
        → Option (Round F)
    unfolding diff_round
    answered_round engine remote peer group_id our_groups since relay_accepts none s =
        some (none, s)
    answered_round engine remote peer group_id our_groups since relay_accepts (some resp) s =
        diff_round engine remote peer group_id our_groups since relay_accepts resp s

    abbrev pub pick_peer : (ℕ → ℕ) → Bool → String → PeerPool F → Option (PeerHandle F)
    pick_peer rng is_relay group_id pool =
        if is_relay
        then random_hot_peer_for_group_or_relays rng group_id pool
        else random_hot_peer_for_group rng group_id pool

    unfoldable pub run_anti_entropy :
        ReplicationEngine
        → (ℕ → ℕ)
        → Remote
        → Bool
        → String
        → List String
        → Option String
        → Option (String → Bool)
        → ReplicationLoop F
        → Option (Round F)
    unfolding answered_round
    run_anti_entropy engine rng remote is_relay group_id our_groups since relay_accepts s =
        elim (pick_peer rng is_relay group_id s.pool) [
          | none ↦ some (some none, s)
          | some p ↦
              if s.is_cmd_open
              then answered_round engine remote p.node_id group_id our_groups since relay_accepts
                  (remote.sync p.node_id (record {
                    group_id = group_id;
                    since = since;
                    limit = engine.config.max_batch_size;
                  }))
                  s
              else some (none, s)
        ]
