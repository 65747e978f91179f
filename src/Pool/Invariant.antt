-- ===== src/Pool/Invariant.antt =====
-- crates/cordelia-node/src/peer_pool.rs: what every call keeps true of the pool.
use cordelia_core.Prelude.{ℕ, String, Bool, List, [], ◌∷◌, ◌≡◌, refl, nat_eq, arith, string_eq}
use cordelia_core.Prelude.Dict.{
  Dict, modify, remove, AllEntries, AllEntries-modify, AllEntries-insert, AllEntries-remove,
}
use cordelia_core.Governor.Peer.{NodeId, Multiaddr, GroupId, PeerState, GovernorActions}
use cordelia_core.Pool.Peers.{
  PeerHandle, PeerPool, compute_intersection, insert_peer, remove_peer, update_peer_groups,
  update_addrs, record_items_delivered, update_rtt, set_relay, set_state,
}
use cordelia_core.Pool.Actions.{
  apply_governor_actions, apply_transitions, disconnect_peers, move_to,
}

module _ (F : Type 0) where
  -- The calls that change the pool.
  pub data Call : Type 0 where
    insert_peer_call : NodeId → List Multiaddr → List GroupId → PeerState → ℕ → Bool → Call
    remove_peer_call : NodeId → Call
    update_peer_groups_call : NodeId → List GroupId → Call
    update_addrs_call : NodeId → List Multiaddr → Call
    record_items_delivered_call : NodeId → ℕ → Call
    update_rtt_call : NodeId → F → Call
    set_relay_call : NodeId → Bool → Call
    set_state_call : NodeId → PeerState → Call
    apply_governor_actions_call : GovernorActions → Call

  unfoldable pub run_call : Call → PeerPool F → PeerPool F
  unfolding insert_peer remove_peer update_peer_groups update_addrs record_items_delivered
      update_rtt set_relay set_state apply_governor_actions
  run_call (insert_peer_call id addrs groups state version is_relay) =
      insert_peer id addrs groups state version is_relay
  run_call (remove_peer_call id) = λ pool. (remove_peer id pool).1
  run_call (update_peer_groups_call id groups) = update_peer_groups id groups
  run_call (update_addrs_call id addrs) = update_addrs id addrs
  run_call (record_items_delivered_call id count) = record_items_delivered id count
  run_call (update_rtt_call id rtt_ms) = update_rtt id rtt_ms
  run_call (set_relay_call id is_relay) = set_relay id is_relay
  run_call (set_state_call id state) = set_state id state
  run_call (apply_governor_actions_call actions) = λ pool. (apply_governor_actions actions pool).0

  -- A handle stands under its own id, and its intersection is that of its groups with ours.
  abbrev pub IsHandle : PeerPool F → NodeId → PeerHandle F → Type 0
  IsHandle pool id p =
      (p.node_id ≡ id) × (p.group_intersection ≡ compute_intersection pool p.groups)

  abbrev pub IsConsistent : PeerPool F → Type 0
  IsConsistent pool = AllEntries (IsHandle pool) pool.inner

  transitions-AllEntries :
      (pool : PeerPool F) (ts : List (NodeId × String × String)) (d : Dict NodeId (PeerHandle F))
      → AllEntries (IsHandle pool) d
      → AllEntries (IsHandle pool) (apply_transitions ts d)
  unfolding apply_transitions
  transitions-AllEntries pool [] d h = h
  transitions-AllEntries pool ((id, from, to) ∷ ts) d h =
      transitions-AllEntries pool ts (modify id (move_to to) d)
        (AllEntries-modify (IsHandle pool) id (move_to to) d (λ j p k. ground arith) h)

  disconnect-AllEntries :
      (pool : PeerPool F) (ids : List NodeId) (d : Dict NodeId (PeerHandle F)) (out : List NodeId)
      → AllEntries (IsHandle pool) d
      → AllEntries (IsHandle pool) (disconnect_peers ids d out).0
  unfolding disconnect_peers
  disconnect-AllEntries pool [] d out h = h
  disconnect-AllEntries pool (id ∷ ids) d out h =
      disconnect-AllEntries pool ids (remove id d) _ (AllEntries-remove (IsHandle pool) id d h)

  -- Every call keeps each handle under its own id, with an intersection that holds exactly those groups
  -- of the peer that are ours or that the relay has learned, as long as those two sets stay as they are.
  pub run_call-IsConsistent :
      (call : Call) (pool : PeerPool F) → IsConsistent pool → IsConsistent (run_call call pool)
  unfolding run_call compute_intersection
  run_call-IsConsistent (insert_peer_call id addrs groups state version is_relay) pool h =
      AllEntries-insert (IsHandle pool) id _ pool.inner (refl, refl) h
  run_call-IsConsistent (remove_peer_call id) pool h =
      AllEntries-remove (IsHandle pool) id pool.inner h
  run_call-IsConsistent (update_peer_groups_call id groups) pool h =
      AllEntries-modify (IsHandle pool) id _ pool.inner (λ j p k. (k.0, refl)) h
  run_call-IsConsistent (update_addrs_call id addrs) pool h =
      AllEntries-modify (IsHandle pool) id _ pool.inner (λ j p k. k) h
  run_call-IsConsistent (record_items_delivered_call id count) pool h =
      AllEntries-modify (IsHandle pool) id _ pool.inner (λ j p k. k) h
  run_call-IsConsistent (update_rtt_call id rtt_ms) pool h =
      AllEntries-modify (IsHandle pool) id _ pool.inner (λ j p k. k) h
  run_call-IsConsistent (set_relay_call id is_relay) pool h =
      AllEntries-modify (IsHandle pool) id _ pool.inner (λ j p k. k) h
  run_call-IsConsistent (set_state_call id state) pool h =
      AllEntries-modify (IsHandle pool) id _ pool.inner (λ j p k. k) h
  run_call-IsConsistent (apply_governor_actions_call actions) pool h =
      disconnect-AllEntries pool actions.disconnect _ _
        (transitions-AllEntries pool actions.transitions pool.inner h)
