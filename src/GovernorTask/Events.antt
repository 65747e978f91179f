-- ===== src/GovernorTask/Events.antt =====
-- crates/cordelia-node/src/governor_task.rs: what the swarm reports.
use cordelia_core.Prelude.{
  ℕ, Bool, true, false, not, Option, none, some, List, [], ◌∷◌, any, contains, is_empty,
  if◌then◌else◌, ◌==◌, ◌&&◌, string_eq, nat_eq,
}
use cordelia_core.Prelude.Dict.{Dict, lookup, remove, values}
use cordelia_core.Governor.Peer.{NodeId, Multiaddr, GroupId, Governor, PeerInfo, warm, is_cold}
use cordelia_core.Governor.Handlers.{
  add_peer, mark_connected, mark_disconnected, mark_dial_failed, record_activity, replace_node_id,
  peer_info,
}
use cordelia_core.Pool.Peers.{
  PeerHandle, insert_peer, remove_peer, get, update_peer_groups, update_addrs, update_rtt,
}
use cordelia_core.GovernorTask.State.{
  send_group_exchange, GovernorTask, Network, send, filter_identify_addrs, advertised, learn,
}

-- `addrs.iter().find_map(|a| pending_dials.remove(a))`
unfoldable pub take_dial :
    List Multiaddr → Dict Multiaddr NodeId → Option NodeId × Dict Multiaddr NodeId
take_dial [] dials = (none, dials)
take_dial (a ∷ addrs) dials = elim (lookup a dials) [
  | some id ↦ (some id, remove a dials)
  | none ↦ take_dial addrs dials
]

abbrev pub learn_from : Bool → List GroupId → Option (List GroupId) → Option (List GroupId)
learn_from is_relay groups none = none
learn_from is_relay groups (some set) = some (if is_relay then set else learn groups set)

-- The lists of addresses of a peer, compared in order.
abbrev pub same_addrs : List Multiaddr → List Multiaddr → Bool
same_addrs [] [] = true
same_addrs (a ∷ xs) (b ∷ ys) = a == b && same_addrs xs ys
same_addrs _ _ = false

module _ {F : Type 0} where
  abbrev pub known_relay : Option (PeerInfo F) → Bool
  known_relay none = false
  known_relay (some p) = p.is_relay

  abbrev pub replace_if_other : NodeId → NodeId → Governor F → Governor F
  replace_if_other old peer_id g =
      if old == peer_id then g else (replace_node_id g old peer_id []).0

  -- The placeholder of a dial gives way to the real id; a peer that is not known is added.
  unfoldable pub admit : ℕ → NodeId → List Multiaddr → Option NodeId → Governor F → Governor F
  admit now peer_id addrs (some old) g = mark_connected now (replace_if_other old peer_id g) peer_id
  admit now peer_id addrs none g = elim (peer_info g peer_id) [
    | some p ↦ mark_connected now g peer_id
    | none ↦ mark_connected now (add_peer now g peer_id addrs []) peer_id
  ]

  unfoldable pub on_peer_connected : ℕ → NodeId → List Multiaddr → GovernorTask F → GovernorTask F
  unfolding admit
  on_peer_connected now peer_id addrs t =
      let (placeholder, dials) = take_dial addrs t.pending_dials in
      let g = admit now peer_id addrs placeholder t.governor in
      send (send_group_exchange peer_id (advertised t.relay_learned_groups t.shared_groups))
        (record t {
          governor = g;
          pending_dials = dials;
          pool = insert_peer peer_id addrs [] warm 1 (known_relay (peer_info g peer_id)) t.pool;
        })

  abbrev pub addrs_of : Option (PeerHandle F) → List Multiaddr
  addrs_of none = []
  addrs_of (some p) = p.addrs

  -- The answer to the exchange after a connection.
  unfoldable pub on_initial_exchange :
      ℕ → NodeId → Bool → List GroupId → GovernorTask F → GovernorTask F
  on_initial_exchange now peer_id is_relay groups t =
      let pool = update_peer_groups peer_id groups t.pool in
      record t {
        pool = pool;
        governor = add_peer now t.governor peer_id (addrs_of (get peer_id pool)) groups;
        relay_learned_groups = learn_from is_relay groups t.relay_learned_groups;
      }

  -- The answer to a periodic exchange.
  unfoldable pub on_exchange : NodeId → Bool → List GroupId → GovernorTask F → GovernorTask F
  on_exchange peer_id is_relay groups t = record t {
    pool = update_peer_groups peer_id groups t.pool;
    relay_learned_groups = learn_from is_relay groups t.relay_learned_groups;
  }

  unfoldable pub on_peer_disconnected : ℕ → NodeId → GovernorTask F → GovernorTask F
  on_peer_disconnected now peer_id t = record t {
    pool = (remove_peer peer_id t.pool).1;
    governor = mark_disconnected now t.governor peer_id;
  }

  unfoldable pub on_ping_rtt : ℕ → NodeId → F → GovernorTask F → GovernorTask F
  on_ping_rtt now peer_id rtt_ms t = record t {
    governor = record_activity now t.governor peer_id (some rtt_ms);
    pool = update_rtt peer_id rtt_ms t.pool;
  }

  -- A cold peer, other than this one, with one of its addresses.
  abbrev pub is_placeholder : NodeId → List Multiaddr → PeerInfo F → Bool
  is_placeholder peer_id listen_addrs p =
      not (p.node_id == peer_id) && (is_cold p.state && any (λ a. contains listen_addrs a) p.addrs)

  abbrev pub find_placeholder : NodeId → List Multiaddr → List (PeerInfo F) → Option NodeId
  find_placeholder peer_id listen_addrs [] = none
  find_placeholder peer_id listen_addrs (p ∷ ps) =
      let rest = find_placeholder peer_id listen_addrs ps in
      if is_placeholder peer_id listen_addrs p then some p.node_id else rest

  abbrev pub replace_found : NodeId → Option NodeId → Governor F → Governor F
  replace_found peer_id none g = g
  replace_found peer_id (some old) g = (replace_node_id g old peer_id []).0

  -- The end of the handler below.
  abbrev pub update_identified :
      ℕ → NodeId → List Multiaddr → Option (PeerHandle F) → GovernorTask F → GovernorTask F
  update_identified now peer_id addrs none t = t
  update_identified now peer_id addrs (some p) t =
      if same_addrs p.addrs addrs then t else record t {
        governor = add_peer now t.governor peer_id addrs p.groups;
        pool = update_addrs peer_id addrs t.pool;
      }

  unfoldable pub on_identify :
      Network → ℕ → NodeId → List Multiaddr → GovernorTask F → GovernorTask F
  on_identify net now peer_id listen_addrs t =
      let placeholder = find_placeholder peer_id listen_addrs (values t.governor.peers) in
      let replaced : GovernorTask F = record t {
        governor = replace_found peer_id placeholder t.governor;
      } in
      let addrs = filter_identify_addrs net listen_addrs in
      if is_empty addrs
      then replaced
      else update_identified now peer_id addrs (get peer_id t.pool) replaced

  unfoldable pub on_dial_failure : ℕ → Option NodeId → GovernorTask F → GovernorTask F
  on_dial_failure now none t = t
  on_dial_failure now (some peer_id) t = record t {
    governor = mark_dial_failed now t.governor peer_id;
  }
