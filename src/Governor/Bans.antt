-- ===== src/Governor/Bans.antt =====
-- crates/cordelia-governor/src/lib.rs: how long a ban lasts, and what lifts it early.
use cordelia_core.Prelude.{
  ℕ, String, true, false, some, List, [], ◌∷◌, ◌≡◌, refl, ◌≢◌, ◌∙◌, arith, ap, nat_eq, if_both, All,
  for_each, map, filter, take, Option-cases, inl, inr, leb, ◌-◌,
}
use cordelia_core.Prelude.Dict.{
  Dict, lookup, values, lookup-modify, lookup-remove, lookup-map_values, remove,
}
use cordelia_core.Prelude.Float.{Floats}
use cordelia_core.Governor.Peer.{NodeId, is_active, is_banned, PeerInfo, Governor, no_actions}
use cordelia_core.Governor.Tick.{
  Run, counts, unban_expired, unban_one, reap_one, reap_dead, is_dead, reap_hot, to_cold,
  is_expired, promote_cold_to_warm, move_id, is_promotable, to_hot, to_warm, churn_one,
  evict_excess_cold, oldest_cold,
}
use cordelia_core.Governor.Steps.{
  Readings, best_warm, promote_best, promote_warm_to_hot, warm_by_score, hot_by_rank,
  demote_excess_hot, rotate, churn, churn_ids, churn_count, tick,
}
use cordelia_core.Governor.Invariant.{
  IsValid, unban_expired-IsValid, reap_dead-IsValid, promote_cold_to_warm-IsValid,
  until_promoted-IsValid, demote_excess_hot-IsValid, churn-IsValid,
}
use cordelia_core.Governor.Count.{hot_peer, cold_peer}
use cordelia_core.Governor.Selected.{
  Holds-ne, dead_ids-Holds, oldest_cold-Holds, best_warm-Holds, warm_by_score-Holds,
  hot_by_rank-Holds, churn_ids-Holds, warm_peer,
}

module _ {F : Type 0} (id : NodeId) where
  -- A loop whose body changes the entry of its own id alone leaves the entries of other ids.
  for_each_frame :
      (body : NodeId → Run F → Run F)
      → ((j : NodeId) (s : Run F) → j ≢ id → lookup id (body j s).0.peers ≡ lookup id s.0.peers)
      → (ids : List NodeId) (s : Run F) → All (λ j. j ≢ id) ids
      → lookup id (for_each ids body s).0.peers ≡ lookup id s.0.peers
  for_each_frame body keep [] s n = refl
  for_each_frame body keep (j ∷ ids) s n =
      for_each_frame body keep ids (body j s) n.1 ∙ keep j s n.0

  lookup-move_id :
      (f : PeerInfo F → PeerInfo F) (from to : String) (j : NodeId) (s : Run F)
      → j ≢ id
      → lookup id (move_id f from to j s).0.peers ≡ lookup id s.0.peers
  unfolding move_id
  lookup-move_id f from to j (g, a) n = ground (arith, lookup-modify id j f g.peers)

  lookup-reap_one :
      (now : ℕ) (j : NodeId) (s : Run F)
      → j ≢ id
      → lookup id (reap_one now j s).0.peers ≡ lookup id s.0.peers
  unfolding reap_one
  lookup-reap_one now j (g, a) n =
      ground (arith, lookup-modify id j (reap_hot now) g.peers, lookup-modify id j to_cold g.peers)

  lookup-churn_one :
      (j : NodeId) (s : Run F) → j ≢ id → lookup id (churn_one j s).0.peers ≡ lookup id s.0.peers
  unfolding churn_one
  lookup-churn_one j (g, a) n = ground (arith, lookup-modify id j to_cold g.peers)

  lookup-remove_each :
      (ids : List NodeId) (ps : Dict NodeId (PeerInfo F))
      → All (λ j. j ≢ id) ids
      → lookup id (for_each ids remove ps) ≡ lookup id ps
  lookup-remove_each [] ps n = refl
  lookup-remove_each (j ∷ ids) ps n =
      lookup-remove_each ids (remove j ps) n.1 ∙ ground (arith, lookup-remove id j ps)

-- From here on `p` is the entry of `id`, and it is banned.
module _ {F : Type 0} (id : NodeId) (p : PeerInfo F) (b : is_banned p.state ≡ true) where
  abbrev Found : Run F → Type 0
  Found s = lookup id s.0.peers ≡ some p

  not_active : is_active p.state ≡ false
  not_active = ground arith

  reap_dead-Found : (now : ℕ) (s : Run F) → IsValid F s.0 → Found s → Found (reap_dead now s)
  unfolding reap_dead
  reap_dead-Found now (g, a) v e =
      let ids = map (λ p. p.node_id) (filter (is_dead now) (values g.peers)) in
      for_each_frame id (reap_one now) (lookup-reap_one id now) ids (g, a)
        (Holds-ne (is_dead now) g.peers id p ids e (ground arith) (dead_ids-Holds g v now))
      ∙ e

  promote_cold_to_warm-Found : (now : ℕ) (s : Run F) → Found s → Found (promote_cold_to_warm now s)
  unfolding promote_cold_to_warm
  promote_cold_to_warm-Found now (g, a) e = ground arith

  evict_excess_cold-Found : (s : Run F) → IsValid F s.0 → Found s → Found (evict_excess_cold s)
  unfolding evict_excess_cold
  evict_excess_cold-Found (g, a) v e =
      let n = (counts g.peers).2 - g.targets.cold_max in
      let ids = take n (oldest_cold g) in
      let kept : lookup id (for_each ids remove g.peers) ≡ some p =
        lookup-remove_each id ids g.peers
          (Holds-ne cold_peer g.peers id p ids e (ground arith) (oldest_cold-Holds g v n))
        ∙ e in
      ground (arith, kept)

  unban_expired-Found :
      (now : ℕ) (s : Run F) → is_expired now p ≡ false → Found s → Found (unban_expired now s)
  unfolding unban_expired
  unban_expired-Found now (g, a) still e =
      lookup-map_values id (unban_one now) g.peers ∙ rw e (ap some (rw still refl))

module _ (fl : Floats) where
  open fl use {F64}

  module _ (id : NodeId) (p : PeerInfo F64) (b : is_banned p.state ≡ true) where
    promote_best-Found :
        (now n : ℕ) (s : Run F64)
        → IsValid F64 s.0
        → lookup id s.0.peers ≡ some p
        → lookup id (promote_best fl now n s).0.peers ≡ some p
    unfolding promote_best
    promote_best-Found now n s v e = elim (Option-cases (best_warm fl now s.0)) [
      | inl none_found ↦ rw (none_found, promote_best) e
      | inr (q, found) ↦
          rw (found, promote_best)
            (if_both (λ (s : Run F64). lookup id s.0.peers ≡ some p) _ _ _
              (lookup-move_id id to_hot "warm" "hot" q.node_id s
                  (Holds-ne (is_promotable now) s.0.peers id p (q.node_id ∷ []) e (ground arith)
                    (best_warm-Holds fl s.0 v now q found, tt)).0
                ∙ e)
              e)
    ]

    promote_warm_to_hot-Found :
        (now : ℕ) (s : Run F64)
        → IsValid F64 s.0
        → lookup id s.0.peers ≡ some p
        → lookup id (promote_warm_to_hot fl now s).0.peers ≡ some p
    unfolding promote_warm_to_hot
    promote_warm_to_hot-Found now (g, a) v e =
        let n = g.targets.hot_min - (counts g.peers).0 in
        let ids = take n (warm_by_score fl now g) in
        if_both (λ (s : Run F64). lookup id s.0.peers ≡ some p)
          (leb g.targets.hot_min (counts g.peers).0) _ _
          (promote_best-Found now (counts g.peers).0 (g, a) v e)
          (for_each_frame id (move_id to_hot "warm" "hot") (lookup-move_id id to_hot "warm" "hot")
              ids (g, a)
              (Holds-ne (is_promotable now) g.peers id p ids e (ground arith)
                (warm_by_score-Holds fl g v now n))
            ∙ e)

    demote_excess_hot-Found :
        (now : ℕ) (s : Run F64)
        → IsValid F64 s.0
        → lookup id s.0.peers ≡ some p
        → lookup id (demote_excess_hot fl now s).0.peers ≡ some p
    unfolding demote_excess_hot
    demote_excess_hot-Found now (g, a) v e =
        let n = (counts g.peers).0 - g.targets.hot_max in
        let ids = take n (hot_by_rank fl now g) in
        if_both (λ (s : Run F64). lookup id s.0.peers ≡ some p)
          (leb (counts g.peers).0 g.targets.hot_max) (g, a) _ e
          (for_each_frame id (move_id to_warm "hot" "warm") (lookup-move_id id to_warm "hot" "warm")
              ids (g, a)
              (Holds-ne hot_peer g.peers id p ids e (ground arith) (hot_by_rank-Holds fl g v now n))
            ∙ e)

    rotate-Found :
        (n : ℕ) (s : Run F64)
        → IsValid F64 s.0
        → lookup id s.0.peers ≡ some p
        → lookup id (rotate fl n s).0.peers ≡ some p
    unfolding rotate
    rotate-Found n (g, a) v e =
        for_each_frame id churn_one (lookup-churn_one id) (churn_ids fl g n) (g, a)
          (Holds-ne warm_peer g.peers id p (churn_ids fl g n) e (ground arith)
            (churn_ids-Holds fl g v n))
        ∙ e

    churn-Found :
        (now : ℕ) (s : Run F64)
        → IsValid F64 s.0
        → lookup id s.0.peers ≡ some p
        → lookup id (churn fl now s).0.peers ≡ some p
    unfolding churn
    churn-Found now (g, a) v e = ground (
      arith,
      rotate-Found (churn_count fl g) (record g { last_churn = now }, a)
          (record { entries = v.entries; nodup = v.nodup }) e,
    )

    pub tick-Found :
        (t : Readings) (g : Governor F64)
        → IsValid F64 g
        → is_expired t.unban p ≡ false
        → lookup id g.peers ≡ some p
        → lookup id (tick fl t g).0.peers ≡ some p
    unfolding tick
    tick-Found t g v still e =
        let s₀ : Run F64 = (g, no_actions) in
        let v₁ = unban_expired-IsValid t.unban s₀ v in
        let e₁ = unban_expired-Found id p b t.unban s₀ still e in
        let v₂ = reap_dead-IsValid t.reap (unban_expired t.unban s₀) v₁ in
        let e₂ = reap_dead-Found id p b t.reap (unban_expired t.unban s₀) v₁ e₁ in
        let v₃ = promote_cold_to_warm-IsValid t.dial _ v₂ in
        let e₃ = promote_cold_to_warm-Found id p b t.dial _ e₂ in
        let v₄ = until_promoted-IsValid fl t g v in
        let e₄ = promote_warm_to_hot-Found t.promote _ v₃ e₃ in
        let v₅ = demote_excess_hot-IsValid fl t.demote _ v₄ in
        let e₅ = demote_excess_hot-Found t.demote _ v₄ e₄ in
        evict_excess_cold-Found id p b _ (churn-IsValid fl t.churn _ v₅)
          (churn-Found t.churn _ v₅ e₅)
