-- ===== src/Governor/Bounds.antt =====
-- crates/cordelia-governor/src/lib.rs: the limits of the pool after a tick.
use cordelia_core.Prelude.{
  ℕ, ◌+◌, ◌-◌, ◌≤◌, String, Bool, some, List, [], ◌∷◌, ◌≡◌, refl, ◌≢◌, ap, arith, Option-cases, inl,
  inr, nat_eq, if_split, ltb, leb, length, All, for_each, take,
}
use cordelia_core.Prelude.Dict.{
  Dict, lookup, lookup-modify, lookup-remove, modify, remove, remove-NodupKeys, NodupKeys,
}
use cordelia_core.Prelude.Distinct.{Distinct}
use cordelia_core.Prelude.Float.{Floats}
use cordelia_core.Governor.Peer.{NodeId, PeerInfo, score, Governor, GovernorTargets}
use cordelia_core.Governor.Tick.{
  Run, with_peers, move_id, to_warm, to_cold, stale_timeout, churn_one, oldest_cold, by_time,
  evict_excess_cold,
}
use cordelia_core.Governor.Steps.{
  Readings, Rank, by_rank, hot_by_rank, demote_excess_hot, rotate, churn, churn_ids, churn_count,
  tick,
}
use cordelia_core.Governor.Invariant.{
  IsValid, until_promoted-IsValid, demote_excess_hot-IsValid, churn-IsValid,
}
use cordelia_core.Governor.Targets.{until_promoted, until_promoted-Same, churned-Same, tick-Same}
use cordelia_core.Governor.Count.{
  hot_peer, cold_peer, one_if, hot_count, cold_count, Holds, hot_count-length, cold_count-length,
  hot_count-modify, hot_count-remove, cold_count-remove, selected-Holds, length-selected,
}

module _ {F : Type 0} where
  -- Holding survives a change of another id.
  Holds-modify :
      (test : PeerInfo F → Bool) (id : NodeId) (f : PeerInfo F → PeerInfo F)
      (ps : Dict NodeId (PeerInfo F)) (ids : List NodeId)
      → All (λ j. id ≢ j) ids
      → All (Holds test ps) ids
      → All (Holds test (modify id f ps)) ids
  Holds-modify test id f ps [] n h = tt
  Holds-modify test id f ps (j ∷ ids) n ((p, e, t), h) =
      ((p, ground (arith, lookup-modify j id f ps), t), Holds-modify test id f ps ids n.1 h)

  Holds-remove :
      (test : PeerInfo F → Bool) (id : NodeId) (ps : Dict NodeId (PeerInfo F)) (ids : List NodeId)
      → All (λ j. id ≢ j) ids
      → All (Holds test ps) ids
      → All (Holds test (remove id ps)) ids
  Holds-remove test id ps [] n h = tt
  Holds-remove test id ps (j ∷ ids) n ((p, e, t), h) =
      ((p, ground (arith, lookup-remove j id ps), t), Holds-remove test id ps ids n.1 h)

  move_id_found :
      (f : PeerInfo F → PeerInfo F) (from to : String) (id : NodeId) (s : Run F) (p : PeerInfo F)
      → lookup id s.0.peers ≡ some p
      → (move_id f from to id s).0 ≡ with_peers s.0 (modify id f s.0.peers)
  unfolding move_id
  move_id_found f from to id (g, a) p e = ground arith

  -- Demoting distinct hot peers takes one hot peer off for each.
  demote_each :
      (from to : String) (ids : List NodeId) (s : Run F)
      → Distinct (λ (i : NodeId). i) ids
      → All (Holds hot_peer s.0.peers) ids
      → hot_count (for_each ids (move_id to_warm from to) s).0.peers + length ids
        ≡ hot_count s.0.peers
  demote_each from to [] s d h = omega arith
  demote_each from to (i ∷ ids) s d ((p, e, t), h) =
      let moved = move_id_found to_warm from to i s p e in
      omega (
        arith,
        demote_each from to ids (move_id to_warm from to i s) d.1
            (rw moved (Holds-modify hot_peer i to_warm s.0.peers ids d.0 h)),
        ap (λ (g : Governor F). hot_count g.peers) moved,
        hot_count-modify i to_warm s.0.peers p e,
        ap one_if t,
      )

  -- Removing distinct cold peers takes one cold peer off for each.
  evict_each :
      (ids : List NodeId) (ps : Dict NodeId (PeerInfo F))
      → NodupKeys ps
      → Distinct (λ (i : NodeId). i) ids
      → All (Holds cold_peer ps) ids
      → cold_count (for_each ids remove ps) + length ids ≡ cold_count ps
  evict_each [] ps n d h = omega arith
  evict_each (i ∷ ids) ps n d ((p, e, t), h) = omega (
    arith,
    evict_each ids (remove i ps) (remove-NodupKeys i ps n) d.1
        (Holds-remove cold_peer i ps ids d.0 h),
    cold_count-remove i ps p n e,
    ap one_if t,
  )

  remove_each-hot_le :
      (ids : List NodeId) (ps : Dict NodeId (PeerInfo F))
      → hot_count (for_each ids remove ps) ≤ hot_count ps
  remove_each-hot_le [] ps = omega arith
  remove_each-hot_le (i ∷ ids) ps =
      omega (arith, remove_each-hot_le ids (remove i ps), hot_count-remove i ps)

  churn_one-hot_le :
      (id : NodeId) (s : Run F) → hot_count (churn_one id s).0.peers ≤ hot_count s.0.peers
  unfolding churn_one
  churn_one-hot_le id (g, a) = elim (Option-cases (lookup id g.peers)) [
    | inl e ↦ rw (e, churn_one) (omega arith)
    | inr (p, e) ↦ rw (e, churn_one) (omega (arith, hot_count-modify id to_cold g.peers p e))
  ]

  churn_each-hot_le :
      (ids : List NodeId) (s : Run F)
      → hot_count (for_each ids churn_one s).0.peers ≤ hot_count s.0.peers
  churn_each-hot_le [] s = omega arith
  churn_each-hot_le (i ∷ ids) s =
      omega (arith, churn_each-hot_le ids (churn_one i s), churn_one-hot_le i s)

  -- The last step leaves at most `cold_max` cold peers, and no more hot ones than before.
  evict_excess_cold_bounds :
      (s : Run F)
      → IsValid F s.0
      → (cold_count (evict_excess_cold s).0.peers ≤ s.0.targets.cold_max)
        × (hot_count (evict_excess_cold s).0.peers ≤ hot_count s.0.peers)
  unfolding evict_excess_cold oldest_cold
  evict_excess_cold_bounds (g, a) v =
      if_split
        (λ (s : Run F).
          (cold_count s.0.peers ≤ g.targets.cold_max) × (hot_count s.0.peers ≤ hot_count g.peers))
        (leb (cold_count g.peers) g.targets.cold_max) (g, a) _ (λ few. (ground arith, omega arith))
        λ many.
          let excess = cold_count g.peers - g.targets.cold_max in
          let (held, distinct) =
            selected-Holds cold_peer g.peers (λ (c : NodeId × ℕ). c.0)
              (λ p. (p.node_id, p.last_activity)) by_time excess (λ p. refl) v.entries v.nodup in
          let size =
            length-selected cold_peer g.peers (λ (c : NodeId × ℕ). c.0)
              (λ p. (p.node_id, p.last_activity)) by_time excess in
          (
            omega (
              arith,
              evict_each _ g.peers v.nodup distinct held,
              size,
              cold_count-length g.peers,
            ),
            remove_each-hot_le (take excess (oldest_cold g)) g.peers,
          )

module _ (fl : Floats) where
  open fl use {F64}

  -- After the demotions at most `hot_max` peers are hot.
  demote_excess_hot_bound :
      (now : ℕ) (s : Run F64)
      → IsValid F64 s.0
      → hot_count (demote_excess_hot fl now s).0.peers ≤ s.0.targets.hot_max
  unfolding demote_excess_hot hot_by_rank
  demote_excess_hot_bound now (g, a) v =
      let rank : PeerInfo F64 → Rank fl =
        λ p. (p.node_id, score fl now p, ltb stale_timeout (now - p.last_activity)) in
      if_split (λ (s : Run F64). hot_count s.0.peers ≤ g.targets.hot_max)
        (leb (hot_count g.peers) g.targets.hot_max) (g, a) _ (λ few. ground arith)
        λ many.
          let excess = hot_count g.peers - g.targets.hot_max in
          let (held, distinct) =
            selected-Holds hot_peer g.peers (λ (c : Rank fl). c.0) rank (by_rank fl) excess
              (λ p. refl) v.entries v.nodup in
          omega (
            arith,
            demote_each "hot" "warm" _ (g, a) distinct held,
            length-selected hot_peer g.peers (λ (c : Rank fl). c.0) rank (by_rank fl) excess,
            hot_count-length g.peers,
          )

  rotate-hot_le : (n : ℕ) (s : Run F64) → hot_count (rotate fl n s).0.peers ≤ hot_count s.0.peers
  unfolding rotate
  rotate-hot_le n s = churn_each-hot_le (churn_ids fl s.0 n) s

  churn-hot_le : (now : ℕ) (s : Run F64) → hot_count (churn fl now s).0.peers ≤ hot_count s.0.peers
  unfolding churn
  churn-hot_le now (g, a) =
      ground (arith, rotate-hot_le (churn_count fl g) (record g { last_churn = now }, a))

  -- From a valid governor, after a tick at most `hot_max` peers are hot and at most `cold_max` are
  -- cold, and the targets are those from before.
  pub tick_bounds :
      (t : Readings) (g : Governor F64)
      → IsValid F64 g
      → (hot_count (tick fl t g).0.peers ≤ g.targets.hot_max)
        × (cold_count (tick fl t g).0.peers ≤ g.targets.cold_max)
        × ((tick fl t g).0.targets ≡ g.targets)
  unfolding tick
  tick_bounds t g v =
      let promoted = until_promoted fl t g in
      let demoted = demote_excess_hot fl t.demote promoted in
      let churned = churn fl t.churn demoted in
      let v₁ = until_promoted-IsValid fl t g v in
      let v₂ =
        churn-IsValid fl t.churn demoted (demote_excess_hot-IsValid fl t.demote promoted v₁) in
      let limits = evict_excess_cold_bounds churned v₂ in
      let hot_max =
        ap (λ (ts : GovernorTargets F64). ts.hot_max) (until_promoted-Same fl t g).targets in
      let cold_max = ap (λ (ts : GovernorTargets F64). ts.cold_max) (churned-Same fl t g).targets in
      (
        omega (
          arith,
          limits.1,
          churn-hot_le t.churn demoted,
          demote_excess_hot_bound t.demote promoted v₁,
          hot_max,
        ),
        omega (arith, limits.0, cold_max),
        (tick-Same fl t g).targets,
      )
