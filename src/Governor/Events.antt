-- ===== src/Governor/Events.antt =====
-- crates/cordelia-governor/src/lib.rs: the calls that the node makes, as one type of events.
use cordelia_core.Prelude.{ℕ, String, Bool, Option, List, [], ◌∷◌}
use cordelia_core.Prelude.Float.{Floats}
use cordelia_core.Governor.Peer.{NodeId, Multiaddr, GroupId, Governor}
use cordelia_core.Governor.Handlers
use cordelia_core.Governor.Steps.{Readings, tick}

-- Each carries the clock's reading where the operation reads the clock.
pub data Event (F : Type 0) : Type 0 where
  groups_set : List GroupId → Event F
  peer_added : ℕ → NodeId → List Multiaddr → List GroupId → Event F
  activity : ℕ → NodeId → Option F → Event F
  delivered : ℕ → NodeId → ℕ → Event F
  connected : ℕ → NodeId → Event F
  disconnected : ℕ → NodeId → Event F
  dial_failed : ℕ → NodeId → Event F
  id_replaced : NodeId → NodeId → List GroupId → Event F
  peer_banned : ℕ → NodeId → String → Event F
  relay_set : NodeId → Bool → Event F
  ticked : Readings → Event F

module _ (fl : Floats) where
  open fl use {F64}

  unfoldable pub step : Event F64 → Governor F64 → Governor F64
  step (groups_set groups) g = Handlers.set_groups g groups
  step (peer_added now id addrs groups) g = Handlers.add_peer now g id addrs groups
  step (activity now id rtt) g = Handlers.record_activity now g id rtt
  step (delivered now id count) g = Handlers.record_items_delivered now g id count
  step (connected now id) g = Handlers.mark_connected now g id
  step (disconnected now id) g = Handlers.mark_disconnected now g id
  step (dial_failed now id) g = Handlers.mark_dial_failed now g id
  step (id_replaced old target groups) g = (Handlers.replace_node_id g old target groups).0
  step (peer_banned now id reason) g = Handlers.ban_peer now g id reason
  step (relay_set id flag) g = Handlers.set_peer_relay g id flag
  step (ticked t) g = (tick fl t g).0

  unfoldable pub run : List (Event F64) → Governor F64 → Governor F64
  run [] g = g
  run (e ∷ es) g = run es (step e g)
