-- ===== src/Governor/Targets.antt =====
-- crates/cordelia-governor/src/lib.rs: a tick changes neither the targets nor the dial policy.
use cordelia_core.Prelude.{
  ℕ, String, List, ◌≡◌, refl, arith, if_both, for_each, for_each_inv, map, filter, take,
  Option-cases, inl, inr,
}
use cordelia_core.Prelude.Dict.{values}
use cordelia_core.Prelude.Float.{Floats}
use cordelia_core.Governor.Peer.{NodeId, PeerInfo, Governor, no_actions}
use cordelia_core.Governor.Tick.{
  Run, unban_expired, reap_one, reap_dead, is_dead, promote_cold_to_warm, move_id, to_hot, to_warm,
  churn_one, evict_excess_cold,
}
use cordelia_core.Governor.Steps.{
  Readings, best_warm, promote_best, promote_warm_to_hot, warm_by_score, hot_by_rank,
  demote_excess_hot, rotate, churn, churn_ids, churn_count, tick,
}

-- What a tick leaves alone, at the values that it had before.
pub record Same (F : Type 0) (g h : Governor F) : Type 0 where
  pub targets : h.targets ≡ g.targets
  pub policy : h.dial_policy ≡ g.dial_policy
  pub groups : h.our_groups ≡ g.our_groups

module _ {F : Type 0} (g : Governor F) where
  abbrev Kept : Run F → Type 0
  Kept s = Same F g s.0

  unban_expired-Same : (now : ℕ) (s : Run F) → Kept s → Kept (unban_expired now s)
  unfolding unban_expired
  unban_expired-Same now s k = record { targets = k.targets; policy = k.policy; groups = k.groups }

  reap_one-Same : (now : ℕ) (id : NodeId) (s : Run F) → Kept s → Kept (reap_one now id s)
  unfolding reap_one
  reap_one-Same now id s k = ground arith

  reap_dead-Same : (now : ℕ) (s : Run F) → Kept s → Kept (reap_dead now s)
  unfolding reap_dead
  reap_dead-Same now (h, a) k =
      for_each_inv Kept (reap_one now) (reap_one-Same now)
        (map (λ p. p.node_id) (filter (is_dead now) (values h.peers))) (h, a) k

  promote_cold_to_warm-Same : (now : ℕ) (s : Run F) → Kept s → Kept (promote_cold_to_warm now s)
  unfolding promote_cold_to_warm
  promote_cold_to_warm-Same now s k = ground arith

  move_id-Same :
      (f : PeerInfo F → PeerInfo F) (from to : String) (id : NodeId) (s : Run F)
      → Kept s
      → Kept (move_id f from to id s)
  unfolding move_id
  move_id-Same f from to id s k = ground arith

  move_each-Same :
      (f : PeerInfo F → PeerInfo F) (from to : String) (ids : List NodeId) (s : Run F)
      → Kept s
      → Kept (for_each ids (move_id f from to) s)
  move_each-Same f from to = for_each_inv Kept (move_id f from to) (move_id-Same f from to)

  churn_one-Same : (id : NodeId) (s : Run F) → Kept s → Kept (churn_one id s)
  unfolding churn_one
  churn_one-Same id s k = ground arith

  evict_excess_cold-Same : (s : Run F) → Kept s → Kept (evict_excess_cold s)
  unfolding evict_excess_cold
  evict_excess_cold-Same s k = ground arith

module _ (fl : Floats) where
  open fl use {F64}

  module _ (g : Governor F64) where
    promote_best-Same :
        (now n : ℕ) (s : Run F64) → Same F64 g s.0 → Same F64 g (promote_best fl now n s).0
    unfolding promote_best
    promote_best-Same now n s k = elim (Option-cases (best_warm fl now s.0)) [
      | inl e ↦ rw (e, promote_best) k
      | inr (p, e) ↦
          rw (e, promote_best)
            (if_both (λ (s : Run F64). Same F64 g s.0) _ _ _
              (move_id-Same g to_hot "warm" "hot" p.node_id s k) k)
    ]

    promote_warm_to_hot-Same :
        (now : ℕ) (s : Run F64) → Same F64 g s.0 → Same F64 g (promote_warm_to_hot fl now s).0
    unfolding promote_warm_to_hot
    promote_warm_to_hot-Same now (h, a) k =
        if_both (λ (s : Run F64). Same F64 g s.0) _ _ _ (promote_best-Same now _ (h, a) k)
          (move_each-Same g to_hot "warm" "hot" (take _ (warm_by_score fl now h)) (h, a) k)

    demote_excess_hot-Same :
        (now : ℕ) (s : Run F64) → Same F64 g s.0 → Same F64 g (demote_excess_hot fl now s).0
    unfolding demote_excess_hot
    demote_excess_hot-Same now (h, a) k =
        if_both (λ (s : Run F64). Same F64 g s.0) _ _ _ k
          (move_each-Same g to_warm "hot" "warm" (take _ (hot_by_rank fl now h)) (h, a) k)

    rotate-Same : (n : ℕ) (s : Run F64) → Same F64 g s.0 → Same F64 g (rotate fl n s).0
    unfolding rotate
    rotate-Same n (h, a) k =
        let all : Same F64 g (for_each (churn_ids fl h n) churn_one (h, a)).0 =
          for_each_inv (λ (s : Run F64). Same F64 g s.0) churn_one (churn_one-Same g)
            (churn_ids fl h n) (h, a) k in
        record { targets = all.targets; policy = all.policy; groups = all.groups }

    churn-Same : (now : ℕ) (s : Run F64) → Same F64 g s.0 → Same F64 g (churn fl now s).0
    unfolding churn
    churn-Same now (h, a) k = ground (
      arith,
      rotate-Same (churn_count fl h) (record h { last_churn = now }, a)
          (record { targets = k.targets; policy = k.policy; groups = k.groups }),
    )

  -- The governor when `promote_warm_to_hot` is done.
  abbrev pub until_promoted : Readings → Governor F64 → Run F64
  until_promoted t g =
      promote_warm_to_hot fl t.promote
        (promote_cold_to_warm t.dial (reap_dead t.reap (unban_expired t.unban (g, no_actions))))

  pub until_promoted-Same : (t : Readings) (g : Governor F64) → Same F64 g (until_promoted t g).0
  until_promoted-Same t g = promote_warm_to_hot-Same g t.promote _ (
      promote_cold_to_warm-Same g t.dial _ (
        reap_dead-Same g t.reap _ (
          unban_expired-Same g t.unban (g, no_actions)
            (record { targets = refl; policy = refl; groups = refl }))))

  pub tick-Same : (t : Readings) (g : Governor F64) → Same F64 g (tick fl t g).0
  unfolding tick
  tick-Same t g =
      evict_excess_cold-Same g _
        (churn-Same g t.churn _ (demote_excess_hot-Same g t.demote _ (until_promoted-Same t g)))

  pub demoted-Same :
      (t : Readings) (g : Governor F64)
      → Same F64 g (demote_excess_hot fl t.demote (until_promoted t g)).0
  demoted-Same t g = demote_excess_hot-Same g t.demote _ (until_promoted-Same t g)

  pub churned-Same :
      (t : Readings) (g : Governor F64)
      → Same F64 g (churn fl t.churn (demote_excess_hot fl t.demote (until_promoted t g))).0
  churned-Same t g = churn-Same g t.churn _ (demoted-Same t g)
