-- ===== src/Pool/Actions.antt =====
-- crates/cordelia-node/src/peer_pool.rs: `apply_governor_actions`.
use cordelia_core.Prelude.{
  String, none, some, List, [], ◌∷◌, ◌++◌, contains, for_each, if◌then◌else◌, ◌==◌, nat_eq,
  string_eq, ◌≡◌, refl, arith,
}
use mathlib.Core.Option
use cordelia_core.Prelude.Dict.{Dict, lookup, modify, remove, lookup-modify, lookup-remove}
use cordelia_core.Governor.Peer.{NodeId, warm, hot, GovernorActions}
use cordelia_core.Pool.Peers.{PeerHandle, PeerPool, get}

module _ {F : Type 0} where
  -- `match to.as_str()`
  abbrev pub move_to : String → PeerHandle F → PeerHandle F
  move_to to p =
      if to == "hot"
      then record p { state = hot }
      else if to == "warm"
      then record p { state = warm }
      else p

  unfoldable pub apply_transitions :
      List (NodeId × String × String) → Dict NodeId (PeerHandle F) → Dict NodeId (PeerHandle F)
  apply_transitions transitions pool =
      for_each transitions (λ t pool. modify t.0 (move_to t.2) pool) pool

  -- The second component lists the peers that were in the pool.
  unfoldable pub disconnect_peers :
      List NodeId
      → Dict NodeId (PeerHandle F)
      → List NodeId
      → Dict NodeId (PeerHandle F) × List NodeId
  disconnect_peers [] pool disconnected = (pool, disconnected)
  disconnect_peers (id ∷ ids) pool disconnected =
      disconnect_peers ids (remove id pool)
        (elim (lookup id pool) [ none ↦ disconnected | some p ↦ disconnected ++ id ∷ [] ])

  unfoldable pub apply_governor_actions : GovernorActions → PeerPool F → PeerPool F × List NodeId
  unfolding disconnect_peers apply_transitions
  apply_governor_actions actions pool =
      let (inner, disconnected) =
        disconnect_peers actions.disconnect (apply_transitions actions.transitions pool.inner) [] in
      (record pool { inner = inner }, disconnected)

  -- The transitions of one peer, in their order.
  abbrev pub moved : NodeId → List (NodeId × String × String) → PeerHandle F → PeerHandle F
  moved id [] p = p
  moved id ((j, from, to) ∷ ts) p = moved id ts (if j == id then move_to to p else p)

  lookup-apply_transitions :
      (id : NodeId) (ts : List (NodeId × String × String)) (pool : Dict NodeId (PeerHandle F))
      → lookup id (apply_transitions ts pool) ≡ Option.map (moved id ts) (lookup id pool)
  unfolding apply_transitions
  lookup-apply_transitions id [] pool = ground arith
  lookup-apply_transitions id ((j, from, to) ∷ ts) pool = ground (
    arith,
    lookup-apply_transitions id ts (modify j (move_to to) pool),
    lookup-modify id j (move_to to) pool,
  )

  lookup-disconnect_peers :
      (id : NodeId) (ids : List NodeId) (pool : Dict NodeId (PeerHandle F))
      (disconnected : List NodeId)
      → lookup id (disconnect_peers ids pool disconnected).0
        ≡ (if contains ids id then none else lookup id pool)
  unfolding disconnect_peers
  lookup-disconnect_peers id [] pool disconnected = refl
  lookup-disconnect_peers id (j ∷ ids) pool disconnected = ground (
    arith,
    lookup-disconnect_peers id ids (remove j pool)
        (elim (lookup j pool) [ none ↦ disconnected | some p ↦ disconnected ++ j ∷ [] ]),
    lookup-remove id j pool,
  )

  -- The pool follows the governor: a peer that the governor disconnects is gone, and every other peer
  -- is there exactly if it was, changed by its own transitions in their order and by nothing else.
  pub apply_governor_actions_lem :
      (actions : GovernorActions) (pool : PeerPool F) (id : NodeId)
      → get id (apply_governor_actions actions pool).0 ≡ (
          if contains actions.disconnect id
          then none
          else Option.map (moved id actions.transitions) (get id pool))
  unfolding apply_governor_actions
  apply_governor_actions_lem actions pool id =
      rw
        (
          lookup-disconnect_peers id actions.disconnect
              (apply_transitions actions.transitions pool.inner) [],
          lookup-apply_transitions id actions.transitions pool.inner,
        )
        refl
