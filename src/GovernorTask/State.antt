-- ===== src/GovernorTask/State.antt =====
-- crates/cordelia-node/src/governor_task.rs: the loop's variables, bootnodes, and addresses. What libp2p and
-- the DNS say is a parameter, and so is the key that is made from a hash.
use cordelia_core.Prelude.{
  ℕ, String, Bool, true, not, Option, none, some, List, [], ◌∷◌, ◌++◌, filter, any, contains,
  if◌then◌else◌, string_eq, nat_eq,
}
use cordelia_core.Prelude.Dict.{Dict}
use cordelia_core.Governor.Peer.{NodeId, Multiaddr, GroupId, Governor}
use cordelia_core.Governor.Handlers.{add_peer, set_peer_relay}
use cordelia_core.Pool.Peers.{PeerPool}

-- The commands that this task sends. The answers come back as events.
pub data SwarmCommand : Type 0 where
  dial : Multiaddr → SwarmCommand
  disconnect : NodeId → SwarmCommand
  send_group_exchange : NodeId → List GroupId → SwarmCommand
  send_peer_share_request : NodeId → ℕ → SwarmCommand

-- `commands` holds what was sent, in order. `shared_groups` belongs to other tasks.
pub record GovernorTask (F : Type 0) : Type 0 where
  pub governor : Governor F
  pub pool : PeerPool F
  pub shared_groups : List GroupId
  pub relay_learned_groups : Option (List GroupId)
  pub unresolved_bootnodes : List String
  pub resolved_bootnode_addrs : List (String × Multiaddr)
  pub pending_dials : Dict Multiaddr NodeId
  pub tick_count : ℕ
  pub commands : List SwarmCommand

abbrev pub Ip4Addr : Type 0
Ip4Addr = ℕ

abbrev pub SocketAddr : Type 0
SocketAddr = ℕ × ℕ

-- What libp2p reads in a text or an address, what the DNS answers, and the id that stands for a bootnode.
pub record Network : Type 0 where
  pub parse_multiaddr : String → Option Multiaddr
  pub parse_peer_id : String → Option NodeId
  pub parse_socket_addr : String → Option SocketAddr
  pub format_socket_addr : SocketAddr → String
  pub lookup_host : String → Option (List SocketAddr)
  pub placeholder_id : String → NodeId
  pub ip4_parts : Multiaddr → List Ip4Addr
  pub is_loopback : Ip4Addr → Bool
  pub is_private : Ip4Addr → Bool

abbrev pub first_resolved : Network → Option (List SocketAddr) → Option Multiaddr
first_resolved net (some (s ∷ rest)) = net.parse_multiaddr (net.format_socket_addr s)
first_resolved net _ = none

-- An address as it stands, an IP and a port, or a host name that the DNS knows.
unfoldable pub parse_bootnode_multiaddr : Network → String → Option Multiaddr
parse_bootnode_multiaddr net boot = elim (net.parse_multiaddr boot) [
  | some addr ↦ some addr
  | none ↦ elim (net.parse_socket_addr boot) [
    | some s ↦ net.parse_multiaddr (net.format_socket_addr s)
    | none ↦ first_resolved net (net.lookup_host boot)
  ]
]

abbrev pub is_loopback_addr : Network → Multiaddr → Bool
is_loopback_addr net addr = any net.is_loopback (net.ip4_parts addr)

abbrev pub is_public_addr : Network → Multiaddr → Bool
is_public_addr net addr = not (any net.is_private (net.ip4_parts addr))

module _ {F : Type 0} where
  abbrev pub send : SwarmCommand → GovernorTask F → GovernorTask F
  send c t = record t { commands = t.commands ++ c ∷ [] }

  -- A cold relay under an id that the first connection replaces.
  unfoldable pub seed_bootnode : Network → ℕ → String → Multiaddr → Governor F → Governor F
  seed_bootnode net now bootnode_addr addr g =
      set_peer_relay (add_peer now g (net.placeholder_id bootnode_addr) (addr ∷ []) [])
        (net.placeholder_id bootnode_addr) true

  -- One bootnode, at the start or on a retry.
  abbrev pub resolve_bootnode : Network → ℕ → String → GovernorTask F → GovernorTask F
  resolve_bootnode net now boot t = elim (parse_bootnode_multiaddr net boot) [
    | none ↦ record t { unresolved_bootnodes = t.unresolved_bootnodes ++ boot ∷ [] }
    | some addr ↦ record t {
      governor = seed_bootnode net now boot addr t.governor;
      resolved_bootnode_addrs = t.resolved_bootnode_addrs ++ (boot, addr) ∷ [];
    }
  ]

-- Loopback goes; of public and private addresses the public ones stay.
unfoldable pub filter_identify_addrs : Network → List Multiaddr → List Multiaddr
filter_identify_addrs net addrs =
    let non_loopback = filter (λ a. not (is_loopback_addr net a)) addrs in
    if any (is_public_addr net) non_loopback
    then filter (is_public_addr net) non_loopback
    else non_loopback

-- Our groups, and on a relay those that it learned.
unfoldable pub advertised : Option (List GroupId) → List GroupId → List GroupId
advertised none groups = groups
advertised (some []) groups = groups
advertised (some (g ∷ gs)) groups =
    advertised (some gs) (if contains groups g then groups else groups ++ g ∷ [])

-- `insert` of each, into a set.
unfoldable pub learn : List GroupId → List GroupId → List GroupId
learn [] set = set
learn (g ∷ gs) set = learn gs (if contains set g then set else set ++ g ∷ [])
