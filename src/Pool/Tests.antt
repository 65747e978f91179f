-- ===== src/Pool/Tests.antt =====
-- crates/cordelia-node/src/peer_pool.rs: each theorem at a concrete pool.

use cordelia_core.Prelude.{ℕ, false, none, some, [], ◌∷◌, ◌≡◌, refl, nat_eq, string_eq, ℕ_discrete}
use cordelia_core.Prelude.Dict.{lookup}
use cordelia_core.Governor.Peer.{NodeId, PeerState, warm, hot, GovernorActions}
use cordelia_core.Pool.Peers.{PeerHandle, PeerPool, compute_intersection, get}
use cordelia_core.Pool.Actions.{apply_governor_actions, apply_governor_actions_lem}
use cordelia_core.Pool.Invariant.{
  update_peer_groups_call, run_call, IsConsistent, run_call-IsConsistent,
}

abbrev handle : NodeId → PeerState → PeerHandle ℕ
handle id state = record {
  node_id = id;
  addrs = [];
  state = state;
  groups = "g1" ∷ "g2" ∷ [];
  group_intersection = "g1" ∷ [];
  rtt_ms = none;
  protocol_version = 1;
  is_relay = false;
  items_delivered = 0;
}

abbrev pool : PeerPool ℕ
pool = record {
  inner = (1, handle 1 hot) ∷ (2, handle 2 warm) ∷ (3, handle 3 hot) ∷ [];
  our_groups = "g1" ∷ [];
  relay_learned_groups = none;
}

abbrev actions : GovernorActions
actions = record {
  connect = [];
  disconnect = 3 ∷ [];
  transitions = (1, "hot", "warm") ∷ (2, "warm", "hot") ∷ [];
}

apply_governor_actions_lem_example :
    get 2 (apply_governor_actions actions pool).0 ≡ some (handle 2 hot)
unfolding lookup ℕ_discrete string_eq
apply_governor_actions_lem_example = apply_governor_actions_lem actions pool 2

pool-IsConsistent : IsConsistent ℕ pool
unfolding compute_intersection string_eq
pool-IsConsistent = ((refl, refl), ((refl, refl), ((refl, refl), tt)))

run_call-IsConsistent_example :
    IsConsistent ℕ (run_call ℕ (update_peer_groups_call 2 ("g2" ∷ [])) pool)
run_call-IsConsistent_example =
    run_call-IsConsistent ℕ (update_peer_groups_call 2 ("g2" ∷ [])) pool pool-IsConsistent
