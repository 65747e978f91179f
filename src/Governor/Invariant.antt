-- ===== src/Governor/Invariant.antt =====
-- crates/cordelia-governor/src/lib.rs: the peer table's invariant, kept by every operation.
use cordelia_core.Prelude.{
  ℕ, String, true, none, List, [], ◌∷◌, ◌≡◌, refl, ◌⊎◌, inl, inr, arith, nat_eq, if_both, map,
  filter, for_each, for_each_inv, Option-cases, take,
}
use cordelia_core.Prelude.Dict.{
  values, lookup, insert, modify, remove, NodupKeys, insert-NodupKeys, remove-NodupKeys,
  modify-NodupKeys, map_values-NodupKeys, AllEntries, AllEntries-modify, AllEntries-insert,
  AllEntries-remove, AllEntries-map_values, AllEntries-lookup,
}
use cordelia_core.Prelude.Float.{Floats}
use cordelia_core.Governor.Peer.{
  NodeId, GroupId, Multiaddr, DialPolicy, GovernorTargets, is_active, PeerInfo, new_peer,
  no_actions, Governor,
}
use cordelia_core.Governor.Handlers.{
  with_dial_policy, set_groups, add_peer, record_activity, record_items_delivered, connect_peer,
  mark_connected, disconnect_peer, mark_disconnected, mark_dial_failed, carry_relay,
  drop_placeholder, move_peer, replace_node_id, ban_one, ban_peer, set_peer_relay,
}
use cordelia_core.Governor.Tick.{
  Run, unban_expired, unban_one, reap_one, reap_dead, reap_hot, to_cold, promote_cold_to_warm,
  move_id, to_hot, to_warm, churn_one, is_dead, evict_excess_cold, oldest_cold, with_peers,
}
use cordelia_core.Governor.Steps.{
  Readings, promote_best, promote_warm_to_hot, demote_excess_hot, best_warm, warm_by_score,
  hot_by_rank, churn_ids, churn_count, rotate, churn, tick,
}
use cordelia_core.Governor.Targets.{until_promoted}
use cordelia_core.Governor.Events.{
  Event, groups_set, peer_added, activity, delivered, connected, disconnected, dial_failed,
  id_replaced, peer_banned, relay_set, ticked, step, run,
}

-- An entry is stored under its own id, and has a connection time only while it is connected.
abbrev pub IsEntry : {F : Type 0} → NodeId → PeerInfo F → Type 0
IsEntry id p = (p.node_id ≡ id) × ((is_active p.state ≡ true) ⊎ (p.connected_since ≡ none))

pub record IsValid (F : Type 0) (g : Governor F) : Type 0 where
  pub entries : AllEntries IsEntry g.peers
  pub nodup : NodupKeys g.peers

-- A change of one peer that keeps an entry an entry.
abbrev pub Keeps : (F : Type 0) → (PeerInfo F → PeerInfo F) → Type 0
Keeps F f = (id : NodeId) (p : PeerInfo F) → IsEntry id p → IsEntry id (f p)

module _ {F : Type 0} where
  modify-IsValid :
      (f : PeerInfo F → PeerInfo F) (id : NodeId) (g : Governor F)
      → Keeps F f
      → IsValid F g
      → IsValid F (with_peers g (modify id f g.peers))
  modify-IsValid f id g keep v = record {
    entries = AllEntries-modify IsEntry id f g.peers keep v.entries;
    nodup = modify-NodupKeys id f g.peers v.nodup;
  }

  remove-IsValid :
      (id : NodeId) (g : Governor F) → IsValid F g → IsValid F (with_peers g (remove id g.peers))
  remove-IsValid id g v = record {
    entries = AllEntries-remove IsEntry id g.peers v.entries;
    nodup = remove-NodupKeys id g.peers v.nodup;
  }

  insert-IsValid :
      (id : NodeId) (p : PeerInfo F) (g : Governor F)
      → IsEntry id p
      → IsValid F g
      → IsValid F (with_peers g (insert id p g.peers))
  insert-IsValid id p g h v = record {
    entries = AllEntries-insert IsEntry id p g.peers h v.entries;
    nodup = insert-NodupKeys id p g.peers v.nodup;
  }

  connect_peer-Keeps : (now : ℕ) → Keeps F (connect_peer now)
  unfolding connect_peer
  connect_peer-Keeps now id p h = ground arith

  disconnect_peer-Keeps : (now : ℕ) → Keeps F (disconnect_peer now)
  unfolding disconnect_peer
  disconnect_peer-Keeps now id p h = ground arith

  ban_one-Keeps : (now : ℕ) (reason : String) → Keeps F (ban_one now reason)
  unfolding ban_one
  ban_one-Keeps now reason id p h = ground arith

  unban_one-Keeps : (now : ℕ) → Keeps F (unban_one now)
  unban_one-Keeps now id p h = ground arith

  reap_hot-Keeps : (now : ℕ) → Keeps F (reap_hot now)
  reap_hot-Keeps now id p h = (h.0, inl refl)

  to_cold-Keeps : Keeps F to_cold
  to_cold-Keeps id p h = (h.0, inr refl)

  carry_relay-Keeps : (old : PeerInfo F) → Keeps F (carry_relay old)
  carry_relay-Keeps old id p h = ground arith

  -- The operations outside `tick`, but for those above.
  add_peer-IsValid :
      (now : ℕ) (g : Governor F) (id : NodeId) (addrs : List Multiaddr) (groups : List GroupId)
      → IsValid F g
      → IsValid F (add_peer now g id addrs groups)
  unfolding add_peer
  add_peer-IsValid now g id addrs groups v = elim (Option-cases (lookup id g.peers)) [
    | inl e ↦
        rw (e, add_peer) (insert-IsValid id (new_peer now id addrs groups) g (refl, inr refl) v)
    | inr (p, e) ↦ rw (e, add_peer) (modify-IsValid _ id g (λ j q h. h) v)
  ]

  drop_placeholder-IsValid :
      (g : Governor F) (old target : NodeId)
      → IsValid F g
      → IsValid F (drop_placeholder g old target)
  unfolding drop_placeholder
  drop_placeholder-IsValid g old target v = elim (Option-cases (lookup old g.peers)) [
    | inl e ↦ rw (e, drop_placeholder) v
    | inr (p, e) ↦
        rw (e, drop_placeholder)
          (modify-IsValid _ target (with_peers g (remove old g.peers)) (carry_relay-Keeps p)
            (remove-IsValid old g v))
  ]

  move_peer-IsValid :
      (g : Governor F) (old target : NodeId) (groups : List GroupId)
      → IsValid F g
      → IsValid F (move_peer g old target groups).0
  unfolding move_peer
  move_peer-IsValid g old target groups v = elim (Option-cases (lookup old g.peers)) [
    | inl e ↦ rw (e, move_peer) v
    | inr (p, e) ↦
        rw (e, move_peer)
          (insert-IsValid target (record p { node_id = target; groups = groups })
            (with_peers g (remove old g.peers))
            (refl, (AllEntries-lookup IsEntry old p g.peers v.entries e).1)
            (remove-IsValid old g v))
  ]

  replace_node_id-IsValid :
      (g : Governor F) (old target : NodeId) (groups : List GroupId)
      → IsValid F g
      → IsValid F (replace_node_id g old target groups).0
  unfolding replace_node_id
  replace_node_id-IsValid g old target groups v =
      ground
        (arith, drop_placeholder-IsValid g old target v, move_peer-IsValid g old target groups v)

  -- The steps of `tick`.
  pub unban_expired-IsValid :
      (now : ℕ) (s : Run F) → IsValid F s.0 → IsValid F (unban_expired now s).0
  unfolding unban_expired
  unban_expired-IsValid now (g, a) v = record {
    entries = AllEntries-map_values IsEntry (unban_one now) g.peers (unban_one-Keeps now) v.entries;
    nodup = map_values-NodupKeys (unban_one now) g.peers v.nodup;
  }

  reap_one-IsValid :
      (now : ℕ) (id : NodeId) (s : Run F) → IsValid F s.0 → IsValid F (reap_one now id s).0
  unfolding reap_one
  reap_one-IsValid now id (g, a) v = ground (
    arith,
    modify-IsValid (reap_hot now) id g (reap_hot-Keeps now) v,
    modify-IsValid to_cold id g to_cold-Keeps v,
  )

  move_id-IsValid :
      (f : PeerInfo F → PeerInfo F) (from to : String)
      → Keeps F f
      → (id : NodeId) (s : Run F) → IsValid F s.0
      → IsValid F (move_id f from to id s).0
  unfolding move_id
  move_id-IsValid f from to keep id (g, a) v = ground (arith, modify-IsValid f id g keep v)

  churn_one-IsValid : (id : NodeId) (s : Run F) → IsValid F s.0 → IsValid F (churn_one id s).0
  unfolding churn_one
  churn_one-IsValid id (g, a) v = ground (arith, modify-IsValid to_cold id g to_cold-Keeps v)

  pub reap_dead-IsValid : (now : ℕ) (s : Run F) → IsValid F s.0 → IsValid F (reap_dead now s).0
  unfolding reap_dead
  reap_dead-IsValid now (g, a) v =
      for_each_inv (λ s. IsValid F s.0) (reap_one now) (reap_one-IsValid now)
        (map (λ p. p.node_id) (filter (is_dead now) (values g.peers))) (g, a) v

  pub promote_cold_to_warm-IsValid :
      (now : ℕ) (s : Run F) → IsValid F s.0 → IsValid F (promote_cold_to_warm now s).0
  unfolding promote_cold_to_warm
  promote_cold_to_warm-IsValid now (g, a) v = ground arith

  evict_excess_cold-IsValid : (s : Run F) → IsValid F s.0 → IsValid F (evict_excess_cold s).0
  unfolding evict_excess_cold
  evict_excess_cold-IsValid (g, a) v =
      if_both (λ (s : Run F). IsValid F s.0) _ _ _ v
        (for_each_inv (λ ps. IsValid F (with_peers g ps)) remove
          (λ id ps. remove-IsValid id (with_peers g ps)) (take _ (oldest_cold g)) g.peers v)

module _ (fl : Floats) where
  open fl use {F64}

  -- A loop over ids that moves each of them.
  move_each-IsValid :
      (f : PeerInfo F64 → PeerInfo F64) (from to : String) (ids : List NodeId) (s : Run F64)
      → Keeps F64 f
      → IsValid F64 s.0
      → IsValid F64 (for_each ids (move_id f from to) s).0
  move_each-IsValid f from to ids s keep v =
      for_each_inv (λ s. IsValid F64 s.0) (move_id f from to) (move_id-IsValid f from to keep) ids s
        v

  promote_best-IsValid :
      (now n : ℕ) (s : Run F64) → IsValid F64 s.0 → IsValid F64 (promote_best fl now n s).0
  unfolding promote_best
  promote_best-IsValid now n (g, a) v = elim (Option-cases (best_warm fl now g)) [
    | inl e ↦ rw (e, promote_best) v
    | inr (p, e) ↦
        rw (e, promote_best)
          (if_both (λ (s : Run F64). IsValid F64 s.0) _ _ _
            (move_id-IsValid to_hot "warm" "hot" (λ id q h. (h.0, inl refl)) p.node_id (g, a) v) v)
  ]

  promote_warm_to_hot-IsValid :
      (now : ℕ) (s : Run F64) → IsValid F64 s.0 → IsValid F64 (promote_warm_to_hot fl now s).0
  unfolding promote_warm_to_hot
  promote_warm_to_hot-IsValid now (g, a) v =
      if_both (λ (s : Run F64). IsValid F64 s.0) _ _ _ (promote_best-IsValid now _ (g, a) v)
        (move_each-IsValid to_hot "warm" "hot" (take _ (warm_by_score fl now g)) (g, a)
          (λ id p h. (h.0, inl refl)) v)

  pub demote_excess_hot-IsValid :
      (now : ℕ) (s : Run F64) → IsValid F64 s.0 → IsValid F64 (demote_excess_hot fl now s).0
  unfolding demote_excess_hot
  demote_excess_hot-IsValid now (g, a) v =
      if_both (λ (s : Run F64). IsValid F64 s.0) _ _ _ v
        (move_each-IsValid to_warm "hot" "warm" (take _ (hot_by_rank fl now g)) (g, a)
          (λ id p h. (h.0, inl refl)) v)

  pub churn-IsValid : (now : ℕ) (s : Run F64) → IsValid F64 s.0 → IsValid F64 (churn fl now s).0
  unfolding churn rotate
  churn-IsValid now (g, a) v =
      let g' : Governor F64 = record g { last_churn = now } in
      let v' : IsValid F64 g' = record { entries = v.entries; nodup = v.nodup } in
      if_both (λ (s : Run F64). IsValid F64 s.0) _ _ _ v
        (if_both (λ (s : Run F64). IsValid F64 s.0) _ _ _ v'
          (for_each_inv (λ s. IsValid F64 s.0) churn_one churn_one-IsValid
            (churn_ids fl g' (churn_count fl g)) (g', a) v'))

  pub until_promoted-IsValid :
      (t : Readings) (g : Governor F64) → IsValid F64 g → IsValid F64 (until_promoted fl t g).0
  until_promoted-IsValid t g v = promote_warm_to_hot-IsValid t.promote _ (
      promote_cold_to_warm-IsValid t.dial _
        (reap_dead-IsValid t.reap _ (unban_expired-IsValid t.unban (g, no_actions) v)))

  pub tick-IsValid : (t : Readings) (g : Governor F64) → IsValid F64 g → IsValid F64 (tick fl t g).0
  unfolding tick
  tick-IsValid t g v = evict_excess_cold-IsValid _ (
      churn-IsValid t.churn _ (demote_excess_hot-IsValid t.demote _ (until_promoted-IsValid t g v)))

  -- Every call of the node keeps the peer table valid, `tick` included.
  pub step-IsValid : (e : Event F64) (g : Governor F64) → IsValid F64 g → IsValid F64 (step fl e g)
  unfolding step set_groups record_activity record_items_delivered mark_connected mark_disconnected
      mark_dial_failed ban_peer set_peer_relay
  step-IsValid (groups_set groups) g v = record { entries = v.entries; nodup = v.nodup }
  step-IsValid (peer_added now id addrs groups) g v = add_peer-IsValid now g id addrs groups v
  step-IsValid (activity now id rtt) g v = modify-IsValid _ id g (λ j p h. h) v
  step-IsValid (delivered now id count) g v = modify-IsValid _ id g (λ j p h. h) v
  step-IsValid (connected now id) g v = modify-IsValid _ id g (connect_peer-Keeps now) v
  step-IsValid (disconnected now id) g v = modify-IsValid _ id g (disconnect_peer-Keeps now) v
  step-IsValid (dial_failed now id) g v = modify-IsValid _ id g (λ j p h. h) v
  step-IsValid (id_replaced old target groups) g v = replace_node_id-IsValid g old target groups v
  step-IsValid (peer_banned now id reason) g v = modify-IsValid _ id g (ban_one-Keeps now reason) v
  step-IsValid (relay_set id flag) g v = modify-IsValid _ id g (λ j p h. h) v
  step-IsValid (ticked t) g v = tick-IsValid t g v

  run-IsValid :
      (es : List (Event F64)) (g : Governor F64) → IsValid F64 g → IsValid F64 (run fl es g)
  unfolding run
  run-IsValid [] g v = v
  run-IsValid (e ∷ es) g v = run-IsValid es (step fl e g) (step-IsValid e g v)

  -- Whatever the node calls after it creates the governor, each entry of the peer table is stored
  -- under its own id, no id has two entries, and a peer that is neither warm nor hot has no
  -- connection time.
  pub run-with_dial_policy-IsValid :
      (now : ℕ) (targets : GovernorTargets F64) (groups : List GroupId) (policy : DialPolicy)
      (es : List (Event F64))
      → IsValid F64 (run fl es (with_dial_policy now targets groups policy))
  unfolding with_dial_policy
  run-with_dial_policy-IsValid now targets groups policy es =
      run-IsValid es _ (record { entries = tt; nodup = tt })
