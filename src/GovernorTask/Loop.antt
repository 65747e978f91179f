-- ===== src/GovernorTask/Loop.antt =====
-- crates/cordelia-node/src/governor_task.rs: `governor_loop`, as a sequence of what it reacts to. The
-- answers to an exchange and to a share request, which spawned tasks await, are inputs of their own.
use cordelia_core.Prelude.{ℕ, String, Bool, Option, List, for_each}
use cordelia_core.Prelude.Float.{Floats}
use cordelia_core.Governor.Peer.{NodeId, Multiaddr, GroupId}
use cordelia_core.Governor.Steps.{Readings}
use cordelia_core.Pool.Peers.{PeerHandle}
use cordelia_core.GovernorTask.State.{GovernorTask, Network, resolve_bootnode}
use cordelia_core.GovernorTask.Events.{
  on_peer_connected, on_initial_exchange, on_exchange, on_peer_disconnected, on_ping_rtt,
  on_identify, on_dial_failure,
}
use cordelia_core.GovernorTask.Tick.{PeerAddress, on_tick, on_peers_shared}

-- Readings of the clock come first. `shared_groups_changed` is another task's write.
pub data Input (F : Type 0) : Type 0 where
  tick_due : Readings → ℕ → (List (PeerHandle F) → List (PeerHandle F)) → Input F
  peer_connected : ℕ → NodeId → List Multiaddr → Input F
  initial_exchange_done : ℕ → NodeId → Bool → List GroupId → Input F
  exchange_done : NodeId → Bool → List GroupId → Input F
  peers_shared : ℕ → NodeId → List PeerAddress → Input F
  peer_disconnected : ℕ → NodeId → Input F
  ping_rtt : ℕ → NodeId → F → Input F
  identify_received : ℕ → NodeId → List Multiaddr → Input F
  dial_failure : ℕ → Option NodeId → Input F
  external_addr_confirmed : Multiaddr → Input F
  lagged : ℕ → Input F
  shared_groups_changed : List GroupId → Input F

-- What the loop starts with: the bootnodes that the DNS knows are seeded.
unfoldable pub start : {F : Type 0} → Network → ℕ → List String → GovernorTask F → GovernorTask F
start net now bootnodes t = for_each bootnodes (resolve_bootnode net now) t

module _ (fl : Floats) where
  open fl use {F64}

  unfoldable pub handle : Network → Input F64 → GovernorTask F64 → GovernorTask F64
  handle net (tick_due readings now shuffle) t = on_tick fl net readings now shuffle t
  handle net (peer_connected now id addrs) t = on_peer_connected now id addrs t
  handle net (initial_exchange_done now id is_relay groups) t =
      on_initial_exchange now id is_relay groups t
  handle net (exchange_done id is_relay groups) t = on_exchange id is_relay groups t
  handle net (peers_shared now our_peer_id peers) t = on_peers_shared net now our_peer_id peers t
  handle net (peer_disconnected now id) t = on_peer_disconnected now id t
  handle net (ping_rtt now id rtt_ms) t = on_ping_rtt now id rtt_ms t
  handle net (identify_received now id addrs) t = on_identify net now id addrs t
  handle net (dial_failure now id) t = on_dial_failure now id t
  handle net (external_addr_confirmed addr) t = t
  handle net (lagged n) t = t
  handle net (shared_groups_changed groups) t = record t { shared_groups = groups }

  unfoldable pub governor_loop : Network → List (Input F64) → GovernorTask F64 → GovernorTask F64
  governor_loop net inputs t = for_each inputs (handle net) t
