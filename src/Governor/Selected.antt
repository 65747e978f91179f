-- ===== src/Governor/Selected.antt =====
-- crates/cordelia-governor/src/lib.rs: the ids that each step of `tick` works through are distinct,
-- and are those of known peers in the state that the step looks for.
use cordelia_core.Prelude.{
  ℕ, Bool, some, List, ◌≡◌, refl, nat_eq, ltb, ◌-◌, All, All-map, All-take, filter, take, map, ◌≢◌,
  [], ◌∷◌, false,
}
use cordelia_core.Prelude.Dict.{Dict, lookup, values}
use cordelia_core.Prelude.Sort.{or_equal, All-max_by}
use cordelia_core.Prelude.Float.{Floats}
use cordelia_core.Governor.Peer.{NodeId, PeerInfo, Governor, is_warm, score}
use cordelia_core.Governor.Tick.{is_dead, is_promotable, by_time, oldest_cold, stale_timeout}
use cordelia_core.Governor.Steps.{best_warm, warm_by_score, Rank, by_rank, hot_by_rank, churn_ids}
use cordelia_core.Governor.Invariant.{IsValid}
use cordelia_core.Governor.Count.{Holds, filter-Holds, selected-Holds, hot_peer, cold_peer}

abbrev pub warm_peer : {F : Type 0} → PeerInfo F → Bool
warm_peer p = is_warm p.state

module _ {F : Type 0} (g : Governor F) (v : IsValid F g) where
  pub dead_ids-Holds :
      (now : ℕ)
      → All
          (Holds (is_dead now) g.peers)
          (map (λ p. p.node_id) (filter (is_dead now) (values g.peers)))
  dead_ids-Holds now =
      All-map (Holds (is_dead now) g.peers) (λ p. p.node_id) _
        (filter-Holds (is_dead now) g.peers v.entries v.nodup)

  pub oldest_cold-Holds : (n : ℕ) → All (Holds cold_peer g.peers) (take n (oldest_cold g))
  unfolding oldest_cold
  oldest_cold-Holds n =
      (selected-Holds cold_peer g.peers (λ (c : NodeId × ℕ). c.0)
        (λ p. (p.node_id, p.last_activity)) by_time n (λ p. refl) v.entries v.nodup).0

module _ (fl : Floats) where
  open fl use {F64, partial_cmp}

  module _ (g : Governor F64) (v : IsValid F64 g) where
    pub best_warm-Holds :
        (now : ℕ) (p : PeerInfo F64)
        → best_warm fl now g ≡ some p
        → Holds (is_promotable now) g.peers p.node_id
    unfolding best_warm
    best_warm-Holds now p e =
        All-max_by (λ a b. or_equal (partial_cmp (score fl now a) (score fl now b)))
          (λ q. Holds (is_promotable now) g.peers q.node_id)
          (filter (is_promotable now) (values g.peers)) p
          (filter-Holds (is_promotable now) g.peers v.entries v.nodup) e

    pub warm_by_score-Holds :
        (now n : ℕ) → All (Holds (is_promotable now) g.peers) (take n (warm_by_score fl now g))
    unfolding warm_by_score
    warm_by_score-Holds now n =
        (selected-Holds (is_promotable now) g.peers (λ (c : NodeId × F64). c.0)
          (λ p. (p.node_id, score fl now p)) (λ a b. or_equal (partial_cmp b.1 a.1)) n (λ p. refl)
          v.entries v.nodup).0

    pub hot_by_rank-Holds :
        (now n : ℕ) → All (Holds hot_peer g.peers) (take n (hot_by_rank fl now g))
    unfolding hot_by_rank
    hot_by_rank-Holds now n =
        (selected-Holds hot_peer g.peers (λ (c : Rank fl). c.0)
          (λ p. (p.node_id, score fl now p, ltb stale_timeout (now - p.last_activity))) (by_rank fl)
          n (λ p. refl) v.entries v.nodup).0

    pub churn_ids-Holds : (n : ℕ) → All (Holds warm_peer g.peers) (churn_ids fl g n)
    unfolding churn_ids
    churn_ids-Holds n =
        All-map (Holds warm_peer g.peers) (λ p. p.node_id) _
          (All-take (λ p. Holds warm_peer g.peers p.node_id) n _
            (filter-Holds warm_peer g.peers v.entries v.nodup))

-- A known peer that fails the test is not among ids that pass it.
pub Holds-ne :
    {F : Type 0} (test : PeerInfo F → Bool) (ps : Dict NodeId (PeerInfo F)) (id : NodeId)
    (p : PeerInfo F) (ids : List NodeId)
    → lookup id ps ≡ some p
    → test p ≡ false
    → All (Holds test ps) ids
    → All (λ j. j ≢ id) ids
Holds-ne test ps id p [] e t h = tt
Holds-ne test ps id p (j ∷ ids) e t ((q, f, s), h) =
    (λ same. clash same, Holds-ne test ps id p ids e t h)
  where
    clash : j ≡ id → ⊥
    clash same = cc (rw same at f)
