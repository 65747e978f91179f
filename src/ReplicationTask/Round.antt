-- ===== src/ReplicationTask/Round.antt =====
-- crates/cordelia-node/src/replication_task.rs and swarm_task.rs: a round of anti-entropy with a peer that
-- answers from its tables.
use cordelia_core.Prelude.{
  ℕ, String, Bool, true, Option, none, some, List, [], ◌∷◌, ◌++◌, is_empty, ◌<◌, ◌≡◌, refl, arith,
  if_split, ap, sym, ◌∙◌, subst, string_eq,
}
use mathlib.Core.List.{append_assoc}
use cordelia_core.Protocol.Messages.{Hashing, FetchedItem, ItemHeader, SyncRequest}
use cordelia_core.Pool.Peers.{PeerHandle}
use cordelia_core.Storage.Rows.{ok}
use cordelia_core.Storage.Items.{SqliteStorage, sqlite_storage, list_group_items}
use cordelia_core.Replication.Culture.{diff_headers}
use cordelia_core.Replication.Engine.{ReplicationEngine, Texts}
use cordelia_core.Replication.Convergence.{receive_all}
use cordelia_core.Swarm.Requests.{handle_sync_request, handle_fetch_request, fetched_all}
use cordelia_core.ReplicationTask.State.{ReplicationLoop, Remote}
use cordelia_core.ReplicationTask.Chunks.{concat, chunks_lem}
use cordelia_core.ReplicationTask.AntiEntropy.{
  Round, max_text, Tally, receive_items, fetch_chunks, count_diff, fetched_round, diff_round,
  answered_round, pick_peer, run_anti_entropy,
}

-- Every chunk was answered.
abbrev complete : Tally × SqliteStorage → Bool × Tally × SqliteStorage
complete (t, s) = (true, t, s)

module _ (h : Hashing) (x : Texts) (our_groups : List String)
    (relay_accepts : Option (String → Bool)) where
  receive_items-append :
      (items more : List FetchedItem) (t : Tally × SqliteStorage)
      → receive_items h x (items ++ more) our_groups relay_accepts t
        ≡ receive_items h x more our_groups relay_accepts
            (receive_items h x items our_groups relay_accepts t)
  unfolding receive_items
  receive_items-append [] more (t, s) = refl
  receive_items-append (a ∷ items) more (t, s) = receive_items-append items more _

  receive_items-storage :
      (items : List FetchedItem) (t : Tally) (s : SqliteStorage)
      → (receive_items h x items our_groups relay_accepts (t, s)).1
        ≡ receive_all h x (sqlite_storage h) our_groups relay_accepts items s
  unfolding receive_items receive_all
  receive_items-storage [] t s = refl
  receive_items-storage (item ∷ items) t s = receive_items-storage items _ _

  -- The answer to a fetch is that to its parts.
  handle_fetch_request-append :
      (ids more : List String) (db : SqliteStorage)
      → handle_fetch_request h x (sqlite_storage h) (ids ++ more) db
        ≡ handle_fetch_request h x (sqlite_storage h) ids db
          ++ handle_fetch_request h x (sqlite_storage h) more db
  unfolding handle_fetch_request
  handle_fetch_request-append [] more db = refl
  handle_fetch_request-append (id ∷ ids) more db =
      ap (λ r. fetched_all ((sqlite_storage h).read_l2_item id db) ++ r)
        (handle_fetch_request-append ids more db)
      ∙ sym (append_assoc (fetched_all ((sqlite_storage h).read_l2_item id db)) _ _)

  fetch_chunks_lem :
      (fetch : List String → Option (List FetchedItem)) (db : SqliteStorage)
      → ((ids : List String)
          → fetch ids ≡ some (handle_fetch_request h x (sqlite_storage h) ids db))
      → (parts : List (List String)) (t : Tally × SqliteStorage)
      → fetch_chunks h x fetch parts our_groups relay_accepts t
        ≡ complete (
            receive_items h x
              (handle_fetch_request h x (sqlite_storage h) (concat parts) db)
              our_groups
              relay_accepts
              t)
  unfolding fetch_chunks handle_fetch_request receive_items
  fetch_chunks_lem fetch db answers [] (t, s) = refl
  fetch_chunks_lem fetch db answers (ids ∷ parts) (t, s) =
      let items = handle_fetch_request h x (sqlite_storage h) ids db in
      let first : fetch_chunks h x fetch (ids ∷ parts) our_groups relay_accepts (t, s)
          ≡ fetch_chunks h x fetch parts our_groups relay_accepts
              (receive_items h x items our_groups relay_accepts (t, s)) =
        rw (fetch_chunks, answers ids) refl in
      first
      ∙ (fetch_chunks_lem fetch db answers parts
            (receive_items h x items our_groups relay_accepts (t, s))
          ∙ ap complete (
              sym (
                receive_items-append items
                  (handle_fetch_request h x (sqlite_storage h) (concat parts) db) (t, s))
              ∙ ap (λ its. receive_items h x its our_groups relay_accepts (t, s))
                  (sym (handle_fetch_request-append ids (concat parts) db))))

-- A peer that answers from the tables `db`.
abbrev pub AnswersFrom : Hashing → Texts → SqliteStorage → Remote → Type 0
AnswersFrom h x db remote =
    ((node : ℕ) (req : SyncRequest) → remote.sync node req ≡ some (handle_sync_request req db))
    × ((node : ℕ) (ids : List String)
        → remote.fetch node ids ≡ some (handle_fetch_request h x (sqlite_storage h) ids db))

-- What the round asks for.
abbrev pub request_of : ReplicationEngine → String → Option String → SyncRequest
request_of engine g since = record {
  group_id = g;
  since = since;
  limit = engine.config.max_batch_size;
}

empty_is : (ids : List String) → is_empty ids ≡ true → ids ≡ []
empty_is [] e = refl
empty_is (i ∷ ids) e = absurd (ground arith)

abbrev start : Tally
start = record { stored = 0; rejected = 0; duplicate = 0 }

module _ {F : Type 0} (h : Hashing) (x : Texts) (engine : ReplicationEngine) (remote : Remote)
    (db : SqliteStorage) (answers : AnswersFrom h x db remote)
    (positive : 0 < engine.config.max_batch_size) where
  -- What a round comes to: no panic, the latest timestamp on offer, and the missing items taken in, in
  -- order.
  abbrev Received :
      String
      → Option String
      → List String
      → Option (String → Bool)
      → List ItemHeader
      → ReplicationLoop F
      → Option (Round F)
      → Type 0
  Received g since our_groups relay here s r =
      let offered = (handle_sync_request (request_of engine g since) db).items in
      (a : Round F) × (r ≡ some a)
      × (a.0 ≡ some (max_text none offered))
      × (a.1.storage
          ≡ receive_all h x (sqlite_storage h) our_groups relay
              (handle_fetch_request h x (sqlite_storage h) (diff_headers here offered) db)
              s.storage)

  diff_round_lem :
      (node : ℕ) (g : String) (since : Option String) (our_groups : List String)
      (relay : Option (String → Bool)) (here : List ItemHeader) (s : ReplicationLoop F)
      → list_group_items g since engine.config.max_batch_size s.storage ≡ ok here
      → Received g since our_groups relay here s (
          diff_round h x engine remote node g our_groups since relay
            (handle_sync_request (request_of engine g since) db)
            s)
  unfolding diff_round receive_all handle_fetch_request
  diff_round_lem node g since our_groups relay here s listed =
      let offered = (handle_sync_request (request_of engine g since) db).items in
      let needed = diff_headers here offered in
      let (parts, cut, whole) = chunks_lem engine.config.max_batch_size needed positive in
      rw (diff_round, listed, cut)
        (if_split (Received g since our_groups relay here s) (is_empty needed) _ _
          (λ none_needed. (_, refl, refl, rw (empty_is needed none_needed) refl))
          (λ some_needed.
            subst
              (λ r.
                Received g since our_groups relay here s
                  (some (fetched_round h x (max_text none offered) (count_diff h x s) r)))
              (sym (
                fetch_chunks_lem h x our_groups relay (remote.fetch node) db (answers.1 node) parts
                  (start, s.storage)
                ∙ ap
                    (λ ids. complete (
                      receive_items h x (handle_fetch_request h x (sqlite_storage h) ids db)
                        our_groups relay (start, s.storage)))
                    whole))
              (
                _,
                refl,
                refl,
                receive_items-storage h x our_groups relay
                    (handle_fetch_request h x (sqlite_storage h) needed db) start s.storage,
              )))

  -- With a peer at hand that answers from its tables, while the swarm task listens, our own tables can be
  -- read, and a batch may hold an item, a round neither panics nor fails: it yields the latest timestamp on offer, and
  -- takes in what the peer has of the missing items, and nothing else, as if in one delivery.
  pub run_anti_entropy-receive_all :
      (rng : ℕ → ℕ) (is_relay : Bool) (g : String) (our_groups : List String)
      (since : Option String) (relay : Option (String → Bool)) (s : ReplicationLoop F)
      (p : PeerHandle F) (here : List ItemHeader)
      → pick_peer h x rng is_relay g s.pool ≡ some p
      → s.is_cmd_open ≡ true
      → list_group_items g since engine.config.max_batch_size s.storage ≡ ok here
      → Received g since our_groups relay here s
          (run_anti_entropy h x engine rng remote is_relay g our_groups since relay s)
  unfolding run_anti_entropy answered_round
  run_anti_entropy-receive_all rng is_relay g our_groups since relay s p here found listens listed =
      let eq : run_anti_entropy h x engine rng remote is_relay g our_groups since relay s
          ≡ diff_round h x engine remote p.node_id g our_groups since relay
              (handle_sync_request (request_of engine g since) db) s =
        rw (run_anti_entropy, found, listens, answers.0 p.node_id (request_of engine g since))
          refl in
      subst (Received g since our_groups relay here s) (sym eq)
        (diff_round_lem p.node_id g since our_groups relay here s listed)
