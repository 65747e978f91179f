-- ===== src/Pool/Peers.antt =====
-- crates/cordelia-node/src/peer_pool.rs: the pool's state, and the operations on one peer. The locks
-- make each call one step, so that a call is a function on the state.
use cordelia_core.Prelude.{
  ℕ, ◌+◌, ◌%◌, ◌^◌, Bool, false, Option, none, some, List, [], filter, length, contains, ◌||◌,
  nat_eq, string_eq,
}
use cordelia_core.Prelude.Dict.{Dict, lookup, insert, modify, remove, values}
use cordelia_core.Governor.Peer.{NodeId, Multiaddr, GroupId, PeerState, is_warm, is_hot}

pub record PeerHandle (F : Type 0) : Type 0 where
  pub node_id : NodeId
  pub addrs : List Multiaddr
  pub state : PeerState
  pub groups : List GroupId
  pub group_intersection : List GroupId
  pub rtt_ms : Option F
  pub protocol_version : ℕ
  pub is_relay : Bool
  pub items_delivered : ℕ

-- `our_groups` and `relay_learned_groups` are shared with other tasks, which may change them.
pub record PeerPool (F : Type 0) : Type 0 where
  pub inner : Dict NodeId (PeerHandle F)
  pub our_groups : List GroupId
  pub relay_learned_groups : Option (List GroupId)

abbrev pub is_learned : Option (List GroupId) → GroupId → Bool
is_learned none g = false
is_learned (some learned) g = contains learned g

module _ {F : Type 0} where
  -- `PeerPool::new`
  abbrev pub new : List GroupId → PeerPool F
  new our_groups = record { inner = []; our_groups = our_groups; relay_learned_groups = none }

  abbrev pub new_relay : List GroupId → List GroupId → PeerPool F
  new_relay our_groups learned = record {
    inner = [];
    our_groups = our_groups;
    relay_learned_groups = some learned;
  }

  -- The peer's groups that are ours too, or that this relay has learned.
  unfoldable pub compute_intersection : PeerPool F → List GroupId → List GroupId
  compute_intersection pool peer_groups =
      filter (λ g. contains pool.our_groups g || is_learned pool.relay_learned_groups g) peer_groups

  unfoldable pub insert_peer :
      NodeId → List Multiaddr → List GroupId → PeerState → ℕ → Bool → PeerPool F → PeerPool F
  insert_peer node_id addrs peer_groups state protocol_version is_relay pool = record pool {
    inner =
        insert node_id
          (record {
            node_id = node_id;
            addrs = addrs;
            state = state;
            groups = peer_groups;
            group_intersection = compute_intersection pool peer_groups;
            rtt_ms = none;
            protocol_version = protocol_version;
            is_relay = is_relay;
            items_delivered = 0;
          })
          pool.inner;
  }

  unfoldable pub remove_peer : NodeId → PeerPool F → Option (PeerHandle F) × PeerPool F
  remove_peer node_id pool =
      (lookup node_id pool.inner, record pool { inner = remove node_id pool.inner })

  abbrev pub get : NodeId → PeerPool F → Option (PeerHandle F)
  get node_id pool = lookup node_id pool.inner

  -- `if let Some(handle) = get_mut(..)`, as the updates below use it.
  abbrev pub update : NodeId → (PeerHandle F → PeerHandle F) → PeerPool F → PeerPool F
  update node_id f pool = record pool { inner = modify node_id f pool.inner }

  unfoldable pub update_peer_groups : NodeId → List GroupId → PeerPool F → PeerPool F
  update_peer_groups node_id groups pool =
      update node_id
        (λ (p : PeerHandle F). record p {
          group_intersection = compute_intersection pool groups;
          groups = groups;
        })
        pool

  unfoldable pub update_addrs : NodeId → List Multiaddr → PeerPool F → PeerPool F
  update_addrs node_id addrs pool =
      update node_id (λ (p : PeerHandle F). record p { addrs = addrs }) pool

  -- A `u64` counter.
  unfoldable pub record_items_delivered : NodeId → ℕ → PeerPool F → PeerPool F
  record_items_delivered node_id count pool =
      update node_id
        (λ (p : PeerHandle F). record p { items_delivered = (p.items_delivered + count) % 2 ^ 64 })
        pool

  unfoldable pub update_rtt : NodeId → F → PeerPool F → PeerPool F
  update_rtt node_id rtt_ms pool =
      update node_id (λ (p : PeerHandle F). record p { rtt_ms = some rtt_ms }) pool

  unfoldable pub set_relay : NodeId → Bool → PeerPool F → PeerPool F
  set_relay node_id is_relay pool =
      update node_id (λ (p : PeerHandle F). record p { is_relay = is_relay }) pool

  unfoldable pub set_state : NodeId → PeerState → PeerPool F → PeerPool F
  set_state node_id state pool =
      update node_id (λ (p : PeerHandle F). record p { state = state }) pool

  -- Warm peers, and hot ones.
  abbrev pub peer_count_by_state : PeerPool F → ℕ × ℕ
  peer_count_by_state pool = (
    length (filter (λ (p : PeerHandle F). is_warm p.state) (values pool.inner)),
    length (filter (λ (p : PeerHandle F). is_hot p.state) (values pool.inner)),
  )
