-- ===== src/Governor/Steps.antt =====
-- crates/cordelia-governor/src/lib.rs: the steps of `tick` that compare scores, and `tick` itself.
use Prim.Native.Nat.Ordering.{gt}
use cordelia_core.Prelude.{
  nat_eq, ℕ, ◌-◌, Bool, true, false, Option, none, some, List, map, if◌then◌else◌, ◌&&◌, ◌||◌, ltb,
  leb, ◌==◌, take, filter, for_each, Ordering,
}
use cordelia_core.Prelude.Dict.{values}
use cordelia_core.Prelude.Sort.{sort_by, min_by, max_by, or_equal, then_cmp}
use cordelia_core.Prelude.Float.{Floats}
use cordelia_core.Protocol.Era.{from_secs}
use cordelia_core.Governor.Peer.{
  NodeId, is_cold, is_warm, is_hot, PeerInfo, Governor, no_actions, is_dialable, score,
}
use cordelia_core.Governor.Tick.{
  Run, counts, push_connect, bool_cmp, is_promotable, move_id, to_hot, to_warm, churn_one,
  stale_timeout, unban_expired, reap_dead, promote_cold_to_warm, evict_excess_cold,
}

-- The clock's readings during one tick, in order.
pub record Readings : Type 0 where
  pub unban : ℕ
  pub reap : ℕ
  pub dial : ℕ
  pub promote : ℕ
  pub demote : ℕ
  pub churn : ℕ

module _ (fl : Floats) where
  open fl use {F64, of_ℕ, mul, ceil_to_ℕ, max_value, partial_cmp}

  -- `a > b`
  abbrev gt_F64 : F64 → F64 → Bool
  gt_F64 a b = elim (partial_cmp a b) [ some o ↦ elim o [ gt ↦ true | _ ↦ false ] | none ↦ false ]

  abbrev unwrap_or : F64 → Option F64 → F64
  unwrap_or d none = d
  unwrap_or d (some a) = a

  unfoldable pub worst_hot_score : ℕ → Governor F64 → F64
  worst_hot_score now g = unwrap_or max_value (
      min_by (λ a b. or_equal (partial_cmp a b))
        (map (score fl now) (filter (λ p. is_hot p.state) (values g.peers))))

  unfoldable pub best_warm : ℕ → Governor F64 → Option (PeerInfo F64)
  best_warm now g =
      max_by (λ a b. or_equal (partial_cmp (score fl now a) (score fl now b)))
        (filter (is_promotable now) (values g.peers))

  -- There are enough hot peers: only the best warm one, if it does better than the worst hot one.
  unfoldable pub promote_best : ℕ → ℕ → Run F64 → Run F64
  unfolding best_warm worst_hot_score
  promote_best now hot_count (g, a) = elim (best_warm now g) [
    | none ↦ (g, a)
    | some p ↦
        if ltb hot_count g.targets.hot_max && gt_F64 (score fl now p) (worst_hot_score now g)
        then move_id to_hot "warm" "hot" p.node_id (g, a)
        else (g, a)
  ]

  -- The warm peers that may be promoted, the best first.
  unfoldable pub warm_by_score : ℕ → Governor F64 → List NodeId
  warm_by_score now g =
      map (λ (c : NodeId × F64). c.0)
        (sort_by (λ a b. or_equal (partial_cmp b.1 a.1))
          (map (λ p. (p.node_id, score fl now p)) (filter (is_promotable now) (values g.peers))))

  unfoldable pub promote_warm_to_hot : ℕ → Run F64 → Run F64
  unfolding promote_best warm_by_score counts
  promote_warm_to_hot now (g, a) =
      let (h, w, c, b) = counts g.peers in
      if leb g.targets.hot_min h
      then promote_best now h (g, a)
      else for_each (take (g.targets.hot_min - h) (warm_by_score now g))
          (move_id to_hot "warm" "hot") (g, a)

  abbrev pub Rank : Type 0
  Rank = NodeId × F64 × Bool

  -- Stale peers first, then the worst scores.
  abbrev pub by_rank : Rank → Rank → Ordering
  by_rank a b = then_cmp (bool_cmp b.2 a.2) (or_equal (partial_cmp a.1 b.1))

  unfoldable pub hot_by_rank : ℕ → Governor F64 → List NodeId
  hot_by_rank now g =
      map (λ (c : Rank). c.0)
        (sort_by by_rank (
          map (λ p. (p.node_id, score fl now p, ltb stale_timeout (now - p.last_activity)))
            (filter (λ p. is_hot p.state) (values g.peers))))

  unfoldable pub demote_excess_hot : ℕ → Run F64 → Run F64
  unfolding hot_by_rank counts
  demote_excess_hot now (g, a) =
      let (h, w, c, b) = counts g.peers in
      if leb h g.targets.hot_max
      then (g, a)
      else for_each (take (h - g.targets.hot_max) (hot_by_rank now g))
          (move_id to_warm "hot" "warm") (g, a)

  unfoldable pub churn_count : Governor F64 → ℕ
  churn_count g =
      let (h, w, c, b) = counts g.peers in ceil_to_ℕ (mul (of_ℕ w) g.targets.churn_fraction)

  unfoldable pub churn_ids : Governor F64 → ℕ → List NodeId
  churn_ids g n = map (λ p. p.node_id) (take n (filter (λ p. is_warm p.state) (values g.peers)))

  -- The peers dialled to replace them, found after the demotions.
  unfoldable pub replacement_ids : Governor F64 → ℕ → List NodeId
  replacement_ids g n =
      map (λ p. p.node_id)
        (take n (filter (λ p. is_cold p.state && is_dialable g.dial_policy p) (values g.peers)))

  unfoldable pub rotate : ℕ → Run F64 → Run F64
  unfolding churn_one churn_ids replacement_ids
  rotate n (g, a) =
      let (g', a') = for_each (churn_ids g n) churn_one (g, a) in
      (g', push_connect a' (replacement_ids g' n))

  unfoldable pub churn : ℕ → Run F64 → Run F64
  unfolding rotate churn_count counts
  churn now (g, a) =
      if ltb (now - g.last_churn) (from_secs g.targets.churn_interval_secs)
      then (g, a)
      else let (h, w, c, b) = counts g.peers in
        let g' : Governor F64 = record g { last_churn = now } in
        if churn_count g == 0 || c == 0 then (g', a) else rotate (churn_count g) (g', a)

  unfoldable pub tick : Readings → Governor F64 → Run F64
  tick t g = evict_excess_cold (
      churn t.churn (
        demote_excess_hot t.demote (
          promote_warm_to_hot t.promote (
            promote_cold_to_warm t.dial
              (reap_dead t.reap (unban_expired t.unban (g, no_actions)))))))
