-- ===== src/GovernorTask/Tests.antt =====
-- crates/cordelia-node/src/governor_task.rs: runs of the loop, and each theorem at one.
use cordelia_core.Prelude.{
  ℕ, true, none, some, List, [], ◌∷◌, ◌≡◌, refl, nat_eq, string_eq, ℕ_discrete, ◌==◌, if◌then◌else◌,
}
use cordelia_core.Prelude.Dict.{lookup, insert, modify}
use cordelia_core.Governor.Peer
use cordelia_core.Governor.Peer.{
  NodeId, Multiaddr, Governor, PeerInfo, new_peer, banned, warm, hot, PeerState,
}
use cordelia_core.Governor.Handlers
use cordelia_core.Governor.Handlers.{peer_info}
use cordelia_core.Governor.Tests.{targets}
use cordelia_core.Pool.Peers
use cordelia_core.Pool.Peers.{get}
use cordelia_core.GovernorTask.State.{GovernorTask, Network, filter_identify_addrs}
use cordelia_core.GovernorTask.Events.{
  take_dial, on_peer_connected, on_peer_disconnected, on_identify, on_initial_exchange,
}
use cordelia_core.GovernorTask.Tick.{PeerAddress, on_peers_shared}
use cordelia_core.GovernorTask.State.{send_group_exchange, parse_bootnode_multiaddr, advertised}
use cordelia_core.Governor.Tests.{milli}
use cordelia_core.GovernorTask.Loop.{
  handle, Input, peer_connected, initial_exchange_done, identify_received, peer_disconnected, start,
  governor_loop,
}
use cordelia_core.GovernorTask.Discovery.{is_exempt, on_peers_shared-exempt}
use cordelia_core.GovernorTask.Admission.{IsAdmitted, on_peer_connected-IsAdmitted}

-- Texts are addresses as they stand, but for a host name that the DNS knows.
abbrev net : Network
net = record {
  parse_multiaddr = λ s. if s == "boot1:9474" then none else some s;
  parse_peer_id = λ s. if s == "peer5" then some 5 else some 6;
  parse_socket_addr = λ s. none;
  format_socket_addr = λ s. "/ip4/198.51.100.7/tcp/9474";
  lookup_host = λ s. some ((7, 9474) ∷ []);
  placeholder_id = λ s. 1000;
  ip4_parts = λ a.
      if a == "/ip4/127.0.0.1/tcp/1"
      then 127 ∷ []
      else if a == "/ip4/10.0.0.1/tcp/1"
      then 10 ∷ []
      else 198 ∷ [];
  is_loopback = λ ip. ip == 127;
  is_private = λ ip. ip == 10;
}

abbrev fresh : GovernorTask ℕ
fresh = record {
  governor = Handlers.with_dial_policy 0 targets ("g1" ∷ []) Peer.all;
  pool = Peers.new ("g1" ∷ []);
  shared_groups = "g1" ∷ [];
  relay_learned_groups = none;
  unresolved_bootnodes = [];
  resolved_bootnode_addrs = [];
  pending_dials = [];
  tick_count = 0;
  commands = [];
}

-- A peer connects, answers and goes again.
abbrev inputs : List (Input ℕ)
inputs =
    peer_connected 11 7 ("/ip4/198.51.100.7/tcp/9474" ∷ [])
    ∷ initial_exchange_done 12 7 true ("g1" ∷ [])
    ∷ identify_received 13 7 ("/ip4/127.0.0.1/tcp/1" ∷ "/ip4/198.51.100.7/tcp/1" ∷ [])
    ∷ peer_disconnected 14 7
    ∷ []

-- The exchange is asked for once; the host name of the bootnode is resolved at the start.
loop_test :
    let t = governor_loop milli net inputs (start net 0 ("boot1:9474" ∷ []) fresh) in
    (t.commands ≡ send_group_exchange 7 ("g1" ∷ []) ∷ [])
    × (t.resolved_bootnode_addrs ≡ ("boot1:9474", "/ip4/198.51.100.7/tcp/9474") ∷ [])
unfolding governor_loop handle on_peer_disconnected on_identify filter_identify_addrs string_eq
    ℕ_discrete lookup on_initial_exchange Peers.update_peer_groups modify on_peer_connected
    Peers.insert_peer insert start parse_bootnode_multiaddr advertised take_dial
loop_test = (refl, refl)

filter_test :
    filter_identify_addrs net
      ("/ip4/127.0.0.1/tcp/1" ∷ "/ip4/10.0.0.1/tcp/1" ∷ "/ip4/198.51.100.7/tcp/1" ∷ [])
    ≡ "/ip4/198.51.100.7/tcp/1" ∷ []
unfolding filter_identify_addrs string_eq ℕ_discrete
filter_test = refl

-- A node that knows peer 5 as banned for an hour.
abbrev with_banned : GovernorTask ℕ
with_banned = record fresh {
  governor = record fresh.governor {
    peers = (5, record (new_peer 0 5 [] []) { state = banned 3600 "spam" 1 }) ∷ [];
  };
}

on_peer_connected-IsAdmitted_example :
    IsAdmitted 5 true
      (on_peer_connected 1 5 ("/ip4/198.51.100.9/tcp/1" ∷ []) with_banned).governor
      (get 5 (on_peer_connected 1 5 ("/ip4/198.51.100.9/tcp/1" ∷ []) with_banned).pool)
unfolding take_dial lookup ℕ_discrete string_eq
on_peer_connected-IsAdmitted_example =
    on_peer_connected-IsAdmitted 1 5 ("/ip4/198.51.100.9/tcp/1" ∷ []) with_banned refl

abbrev with_hot : GovernorTask ℕ
with_hot = record fresh {
  governor = record fresh.governor {
    peers = (5, record (new_peer 0 5 [] []) { state = hot }) ∷ [];
  };
}

-- A relay names the hot peer with another address, and one that is not known.
abbrev named : List PeerAddress
named =
    record {
      peer_id = "peer5";
      addrs = "/ip4/203.0.113.1/tcp/1" ∷ [];
      last_seen = 0;
      groups = [];
      role = "relay";
    }
    ∷ record {
      peer_id = "peer6";
      addrs = "/ip4/203.0.113.2/tcp/1" ∷ [];
      last_seen = 0;
      groups = [];
      role = "";
    }
    ∷ []

five_is_exempt : is_exempt 1 5 with_hot.governor ≡ true
unfolding lookup ℕ_discrete
five_is_exempt = refl

on_peers_shared-exempt_example :
    peer_info (on_peers_shared net 1 1 named with_hot).governor 5 ≡ peer_info with_hot.governor 5
on_peers_shared-exempt_example = on_peers_shared-exempt net 1 1 5 named with_hot five_is_exempt
