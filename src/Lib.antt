-- ===== src/Lib.antt =====
-- The core of Cordelia: a peer-to-peer node that keeps a set of connections at its targets and
-- replicates encrypted items between the members of groups.
--
-- Parts, and how they interact. The governor decides which known peers are cold, warm, hot or banned;
-- the node tells it of connections, disconnections and activity, and calls it once per tick. What a tick
-- decides is applied to the peer pool, the registry that the other tasks read to find peers for a push or
-- a sync. The replication engine decides what is sent on a local write and takes in what arrives, through
-- the storage interface, which the SQLite tables implement. The HTTP API writes to the same tables and
-- tells the replication task of each write, which pushes it to peers and syncs with them at intervals.
--
-- * Protocol (crates/cordelia-protocol/src): the constants of the era, and the wire messages. SHA-256 and
--   the bytes of a text are the parameter `Hashing`.
-- * Governor (crates/cordelia-governor/src/lib.rs): Peer holds the types and scores, Handlers the calls
--   between ticks, Backoff the reconnect wait, Tick and Steps the seven steps of `tick` and `tick` itself;
--   Events makes every call a constructor, and `run` a history of calls.
-- * Storage (crates/cordelia-storage/src/lib.rs, schema_v4.sql): Rows, the interface of item storage with
--   its laws, and the tables: Items for `l2_items` and `access_log`, Groups and Members for `groups`,
--   `group_members` and `l1_hot`, Devices, and Search for metadata, counts and full-text search, where the
--   index is a parameter; Schema for the migration of a database (schema_v4.sql to schema_v7.sql);
--   Membership and Revocation for what they do.
-- * Replication (crates/cordelia-replication/src, crates/cordelia-node/src/replication_task.rs): Culture
--   for strategies, checksums and `diff_headers`; Engine for `on_local_write` and `on_receive`; Batches for
--   `split_into_batches`; Receive, Versions, Convergence and Diff for what they do.
-- * Pool (crates/cordelia-node/src/peer_pool.rs): Peers and Select for the calls, Actions for
--   `apply_governor_actions`.
-- * Swarm (crates/cordelia-node/src/swarm_task.rs): Descriptors for `merge_descriptors` on the group
--   tables, where hexadecimal decoding and Ed25519 are the parameter `Signing`; Announce for
--   `build_descriptors`; Requests for the answers
--   to sync, fetch and push requests; Merge, Unverified, Tombstone, Announced and Exchange for
--   what they do.
-- * Api (crates/cordelia-api/src/lib.rs): State and Requests for the types, Items, Groups, Devices and
--   Status for the handlers, Router for the routes; Auth, Writes, Deletes, GroupDeletion and
--   SignedDeletion for what they do. JSON and base64 are the parameter `Json`.
-- * ReplicationTask (crates/cordelia-node/src/replication_task.rs): Push for the write buffer, its flush
--   and the retries, AntiEntropy for a round with a peer, Sync for the ticks and `turn`, one turn of the
--   loop; Sending, Retries, Flush, Peers, Chunks, Round, Turns and Delivery for what they do. A peer's answers are the parameter
--   `Remote` of an event; `none` is a panic, of the table of backoffs or of `chunks`.
-- * GovernorTask (crates/cordelia-node/src/governor_task.rs): State for the loop's variables and the
--   bootnodes, Events for what the swarm reports, Tick for the tick and the discovery of peers, Loop for
--   the loop over its inputs; Admission and Discovery for what they do. libp2p and the DNS are the
--   parameter `Network`.
-- * Crypto (crates/cordelia-crypto/src/lib.rs): Provider for the encryption of payloads over the
--   parameter `Primitives`, RoundTrip for what it keeps.
--
-- State is passed explicitly: a call takes the state and returns the next one, as the locks of the node
-- make each call one step. A hash map is an association list whose order stands for the unspecified
-- order of iteration. Instants and durations count nanoseconds in ℕ; each call that reads the clock takes
-- its reading, and `now - t` stops at 0 as the standard library's `elapsed` does. Counters of 32 and 64
-- bits wrap. Floating point numbers are the parameter `Floats`: nothing proved relies on their values.
-- Timestamps are texts compared by code points, as Rust and SQLite compare their bytes. Every loop runs
-- over a list but `chunks`, whose fuel is the length of its list, which is enough for chunks of any size
-- but 0.
--
-- Not modelled: libp2p, axum, serde, SQLite, the hash and the signatures, which are third-party code;
-- logging; the dispatch of events in the swarm task, the identity file, opening
-- database files, configuration and start-up. A failure of SQLite is a field of the connection and lasts for a
-- call; the reading of an item's metadata can fail alone. Foreign keys of schema_v4.sql are conditions that
-- SQLite enforces, as the connection's pragma asks.
mod Prelude
pub mod Protocol
pub mod Governor
pub mod Storage
pub mod Replication
pub mod Pool
pub mod Swarm
pub mod Api
pub mod ReplicationTask
pub mod GovernorTask
pub mod Crypto
