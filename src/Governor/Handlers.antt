-- ===== src/Governor/Handlers.antt =====
-- crates/cordelia-governor/src/lib.rs: the operations that the node calls between ticks. Each takes
-- the clock's reading; counters are machine words and wrap.
use cordelia_core.Prelude.{
  ℕ, suc, ◌+◌, ◌*◌, ◌%◌, String, Bool, true, false, Option, none, some, List, if◌then◌else◌, ◌&&◌,
  contains,
}
use cordelia_core.Prelude
use cordelia_core.Prelude.{nat_eq, string_eq}
use mathlib.Core.Option
use cordelia_core.Prelude.Dict.{lookup, insert, modify, remove, values}
use cordelia_core.Protocol.Era.{era_0, from_secs}
use cordelia_core.Governor.Peer.{
  NodeId, Multiaddr, GroupId, DialPolicy, all, GovernorTargets, PeerState, cold, warm, banned,
  is_active, is_hot, PeerInfo, new_peer, Governor,
}

abbrev pub u32_mod : ℕ
u32_mod = 4294967296

abbrev pub u64_mod : ℕ
u64_mod = 18446744073709551616

abbrev pub escalate : PeerState → ℕ
escalate (banned until reason escalation) = (escalation + 1) % u32_mod
escalate _ = 1

-- `DEFAULT_BAN_DURATION * escalation`
abbrev pub ban_duration : ℕ → ℕ
ban_duration escalation = from_secs era_0.ban_base_duration_secs * escalation

module _ {F : Type 0} where
  -- `Governor::with_dial_policy`
  unfoldable pub with_dial_policy : ℕ → GovernorTargets F → List GroupId → DialPolicy → Governor F
  with_dial_policy now targets our_groups dial_policy = record {
    peers = Prelude.List.[];
    targets = targets;
    our_groups = our_groups;
    last_churn = now;
    dial_policy = dial_policy;
  }

  -- `Governor::new`
  unfoldable pub new : ℕ → GovernorTargets F → List GroupId → Governor F
  unfolding with_dial_policy
  new now targets our_groups = with_dial_policy now targets our_groups all

  unfoldable pub set_groups : Governor F → List GroupId → Governor F
  set_groups g groups = record g { our_groups = groups }

  unfoldable pub add_peer : ℕ → Governor F → NodeId → List Multiaddr → List GroupId → Governor F
  add_peer now g id addrs groups = elim (lookup id g.peers) [
    | some p ↦ record g {
      peers = modify id (λ q. record q { addrs = addrs; groups = groups }) g.peers;
    }
    | none ↦ record g { peers = insert id (new_peer now id addrs groups) g.peers }
  ]

  -- `if let Some(rtt) = rtt_ms { peer.rtt_ms = Some(rtt) }`
  abbrev newer_rtt : Option F → Option F → Option F
  newer_rtt (some rtt) old = some rtt
  newer_rtt none old = old

  unfoldable pub record_activity : ℕ → Governor F → NodeId → Option F → Governor F
  record_activity now g id rtt = record g {
    peers =
        modify id (λ p. record p { last_activity = now; rtt_ms = newer_rtt rtt p.rtt_ms }) g.peers;
  }

  unfoldable pub record_items_delivered : ℕ → Governor F → NodeId → ℕ → Governor F
  record_items_delivered now g id count = record g {
    peers =
        modify id
          (λ p. record p {
            items_delivered = (p.items_delivered + count) % u64_mod;
            last_activity = now;
          })
          g.peers;
  }

  unfoldable pub connect_peer : ℕ → PeerInfo F → PeerInfo F
  connect_peer now p = elim p.state [
    | cold ↦ record p { state = warm; connected_since = some now; last_activity = now }
    | _ ↦ p
  ]

  unfoldable pub mark_connected : ℕ → Governor F → NodeId → Governor F
  unfolding connect_peer
  mark_connected now g id = record g { peers = modify id (connect_peer now) g.peers }

  unfoldable pub disconnect_peer : ℕ → PeerInfo F → PeerInfo F
  disconnect_peer now p =
      if is_active p.state
      then (record p {
        state = cold;
        connected_since = none;
        disconnect_count = (p.disconnect_count + 1) % u32_mod;
        last_disconnected = some now;
      })
      else p

  unfoldable pub mark_disconnected : ℕ → Governor F → NodeId → Governor F
  unfolding disconnect_peer
  mark_disconnected now g id = record g { peers = modify id (disconnect_peer now) g.peers }

  unfoldable pub mark_dial_failed : ℕ → Governor F → NodeId → Governor F
  mark_dial_failed now g id = record g {
    peers =
        modify id
          (λ p. record p {
            disconnect_count = (p.disconnect_count + 1) % u32_mod;
            last_disconnected = some now;
          })
          g.peers;
  }

  -- `if old_peer.is_relay { target.is_relay = true }`
  abbrev pub carry_relay : PeerInfo F → PeerInfo F → PeerInfo F
  carry_relay old p = if old.is_relay then record p { is_relay = true } else p

  -- The target is connected: the placeholder goes, and its relay flag is carried over.
  unfoldable pub drop_placeholder : Governor F → NodeId → NodeId → Governor F
  drop_placeholder g old target = elim (lookup old g.peers) [
    | some p ↦ record g { peers = modify target (carry_relay p) (remove old g.peers) }
    | none ↦ g
  ]

  unfoldable pub move_peer : Governor F → NodeId → NodeId → List GroupId → Governor F × Bool
  move_peer g old target groups = elim (lookup old g.peers) [
    | some p ↦ (
      record g {
        peers = insert target (record p { node_id = target; groups = groups }) (remove old g.peers);
      },
      true,
    )
    | none ↦ (g, false)
  ]

  abbrev pub is_active_entry : Option (PeerInfo F) → Bool
  is_active_entry none = false
  is_active_entry (some p) = is_active p.state

  unfoldable pub replace_node_id : Governor F → NodeId → NodeId → List GroupId → Governor F × Bool
  unfolding drop_placeholder move_peer
  replace_node_id g old target groups =
      if is_active_entry (lookup target g.peers)
      then (drop_placeholder g old target, true)
      else move_peer g old target groups

  unfoldable pub ban_one : ℕ → String → PeerInfo F → PeerInfo F
  ban_one now reason p = record p {
    state = banned (now + ban_duration (escalate p.state)) reason (escalate p.state);
    connected_since = none;
  }

  unfoldable pub ban_peer : ℕ → Governor F → NodeId → String → Governor F
  unfolding ban_one
  ban_peer now g id reason = record g { peers = modify id (ban_one now reason) g.peers }

  unfoldable pub set_peer_relay : Governor F → NodeId → Bool → Governor F
  set_peer_relay g id flag = record g {
    peers = modify id (λ p. record p { is_relay = flag }) g.peers;
  }

  -- `peer_info`
  abbrev pub peer_info : Governor F → NodeId → Option (PeerInfo F)
  peer_info g id = lookup id g.peers

  abbrev pub peer_state : Governor F → NodeId → Option PeerState
  peer_state g id = Option.map (λ p. p.state) (lookup id g.peers)

  unfoldable pub hot_peers_for_group : Governor F → GroupId → List (PeerInfo F)
  hot_peers_for_group g gid =
      Prelude.filter (λ p. is_hot p.state && contains p.groups gid) (values g.peers)
