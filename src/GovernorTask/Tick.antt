-- ===== src/GovernorTask/Tick.antt =====
-- crates/cordelia-node/src/governor_task.rs: the tick, the discovery of peers, and the loop's branches.
use cordelia_core.Prelude.{
  ℕ, String, Bool, true, false, not, Option, none, some, List, [], ◌∷◌, for_each, take, any,
  contains, is_empty, if◌then◌else◌, ◌==◌, ◌&&◌, leb, ltb, ◌+◌, ◌%◌, ◌^◌, string_eq, nat_eq,
}
use cordelia_core.Prelude.Dict.{insert}
use cordelia_core.Prelude.Float.{Floats}
use cordelia_core.Protocol.Era.{era_0}
use cordelia_core.Governor.Peer.{NodeId, Multiaddr, GroupId, Governor, PeerInfo, is_active}
use cordelia_core.Governor.Handlers.{set_groups, add_peer, set_peer_relay, peer_info}
use cordelia_core.Governor.Steps.{Readings, tick}
use cordelia_core.Pool.Peers.{PeerHandle}
use cordelia_core.Pool.Select.{active_peers, relay_peers}
use cordelia_core.Pool.Actions.{apply_governor_actions}
use cordelia_core.GovernorTask.State.{
  dial, disconnect, send_group_exchange, send_peer_share_request, GovernorTask, Network, send,
  resolve_bootnode, advertised, parse_bootnode_multiaddr,
}

-- A peer in an answer to a share request.
pub record PeerAddress : Type 0 where
  pub peer_id : String
  pub addrs : List String
  pub last_seen : ℕ
  pub groups : List GroupId
  pub role : String

-- `filter_map(|a| a.parse().ok())`
unfoldable pub parsed_addrs : Network → List String → List Multiaddr
parsed_addrs net [] = []
parsed_addrs net (s ∷ texts) = elim (net.parse_multiaddr s) [
  | some a ↦ a ∷ parsed_addrs net texts
  | none ↦ parsed_addrs net texts
]

abbrev pub gossip_fan_out : ℕ
gossip_fan_out = 3

abbrev pub fresh_addr : Network → String → Multiaddr → Multiaddr
fresh_addr net boot addr = elim (parse_bootnode_multiaddr net boot) [
  | none ↦ addr
  | some fresh ↦ fresh
]

module _ {F : Type 0} where
  abbrev pub dial_first : NodeId → List Multiaddr → GovernorTask F → GovernorTask F
  dial_first id [] t = t
  dial_first id (a ∷ addrs) t =
      send (dial a) (record t { pending_dials = insert a id t.pending_dials })

  -- A dial to the first known address.
  unfoldable pub connect_to : NodeId → GovernorTask F → GovernorTask F
  connect_to id t = elim (peer_info t.governor id) [ none ↦ t | some p ↦ dial_first id p.addrs t ]

  unfoldable pub retry_bootnodes : Network → ℕ → GovernorTask F → GovernorTask F
  retry_bootnodes net now t =
      if not (is_empty t.unresolved_bootnodes) && leb t.tick_count 6
      then for_each t.unresolved_bootnodes (resolve_bootnode net now)
          (record t { unresolved_bootnodes = [] })
      else t

  abbrev pub is_connected_addr : Multiaddr → List (PeerHandle F) → Bool
  is_connected_addr addr peers = any (λ (p : PeerHandle F). contains p.addrs addr) peers

  unfoldable pub redial_bootnodes : Network → GovernorTask F → GovernorTask F
  redial_bootnodes net t =
      if ltb 0 t.tick_count && t.tick_count % 6 == 0
      then for_each t.resolved_bootnode_addrs
          (λ (b : String × Multiaddr) (s : GovernorTask F).
            if is_connected_addr b.1 (active_peers t.pool)
            then s
            else send (dial (fresh_addr net b.0 b.1)) s)
          t
      else t

  unfoldable pub exchange_groups : GovernorTask F → GovernorTask F
  exchange_groups t =
      if t.tick_count % era_0.group_exchange_ticks == 0
      then for_each (active_peers t.pool)
          (λ (p : PeerHandle F) (s : GovernorTask F).
            send (send_group_exchange p.node_id (advertised t.relay_learned_groups t.shared_groups))
              s)
          t
      else t

  -- `discover_peers`, up to the answers; `shuffle` is the random order.
  unfoldable pub ask_relays :
      (List (PeerHandle F) → List (PeerHandle F)) → GovernorTask F → GovernorTask F
  ask_relays shuffle t =
      if t.tick_count % era_0.peer_discovery_ticks == 0
      then for_each (take gossip_fan_out (shuffle (relay_peers t.pool)))
          (λ (p : PeerHandle F) (s : GovernorTask F). send (send_peer_share_request p.node_id 20) s)
          t
      else t

  abbrev pub is_active_entry : Option (PeerInfo F) → Bool
  is_active_entry none = false
  is_active_entry (some p) = is_active p.state

  -- A peer that was heard of: not ourselves, not connected, with an address.
  unfoldable pub register_peer : Network → ℕ → NodeId → PeerAddress → Governor F → Governor F
  register_peer net now our_peer_id pa g = elim (net.parse_peer_id pa.peer_id) [
    | none ↦ g
    | some id ↦
        let addrs = parsed_addrs net pa.addrs in
        let added = add_peer now g id addrs pa.groups in
        if id == our_peer_id
        then g
        else if is_active_entry (peer_info g id)
        then g
        else if is_empty addrs
        then g
        else if pa.role == "relay"
        then set_peer_relay added id true
        else added
  ]

  unfoldable pub on_peers_shared :
      Network → ℕ → NodeId → List PeerAddress → GovernorTask F → GovernorTask F
  on_peers_shared net now our_peer_id peers t = record t {
    governor = for_each peers (register_peer net now our_peer_id) t.governor;
  }

module _ (fl : Floats) where
  open fl use {F64}

  abbrev pub send_disconnects : List NodeId → GovernorTask F64 → GovernorTask F64
  send_disconnects ids t = for_each ids (λ id (s : GovernorTask F64). send (disconnect id) s) t

  -- The governor's tick, and what it asks for.
  unfoldable pub apply_tick : Readings → GovernorTask F64 → GovernorTask F64
  apply_tick readings t =
      let (g, actions) = tick fl readings (set_groups t.governor t.shared_groups) in
      let (pool, disconnected) = apply_governor_actions actions t.pool in
      for_each actions.connect connect_to
        (send_disconnects disconnected (record t { governor = g; pool = pool }))

  unfoldable pub on_tick :
      Network
      → Readings
      → ℕ
      → (List (PeerHandle F64) → List (PeerHandle F64))
      → GovernorTask F64
      → GovernorTask F64
  unfolding apply_tick
  on_tick net readings now shuffle t =
      let ticked = apply_tick readings t in
      ask_relays shuffle (
        exchange_groups (
          redial_bootnodes net (
            retry_bootnodes net now
              (record ticked { tick_count = (ticked.tick_count + 1) % 2 ^ 64 }))))
