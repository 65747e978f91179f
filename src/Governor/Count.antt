-- ===== src/Governor/Count.antt =====
-- crates/cordelia-governor/src/lib.rs: what `counts` counts, and how a change of one peer moves it.
use cordelia_core.Prelude.{
  ℕ, ◌+◌, ◌≤◌, Bool, true, false, none, some, List, [], ◌∷◌, ◌≡◌, refl, ◌≢◌, arith, nat_eq,
  if_split, length, filter, All, All-imp, map, take, min, Ordering, All-take, All-map, length-take,
  length-map,
}
use cordelia_core.Prelude.Dict.{Dict, lookup, modify, remove, values, NodupKeys, AllEntries}
use cordelia_core.Prelude.Distinct.{
  Distinct, Distinct-filter, Distinct-take, Distinct-sort_by, Distinct-map,
}
use cordelia_core.Prelude.Sort.{sort_by, All-sort_by, length-sort_by}
use cordelia_core.Governor.Peer.{NodeId, is_cold, is_hot, PeerInfo}
use cordelia_core.Governor.Tick.{counts}
use cordelia_core.Governor.Invariant.{IsEntry}

abbrev pub one_if : Bool → ℕ
one_if true = 1
one_if false = 0

module _ {F : Type 0} where
  abbrev pub hot_peer : PeerInfo F → Bool
  hot_peer p = is_hot p.state

  abbrev pub cold_peer : PeerInfo F → Bool
  cold_peer p = is_cold p.state

  abbrev pub hot_count : Dict NodeId (PeerInfo F) → ℕ
  hot_count ps = (counts ps).0

  abbrev pub cold_count : Dict NodeId (PeerInfo F) → ℕ
  cold_count ps = (counts ps).2

  -- An id whose entry is that the test accepts.
  abbrev pub Holds : (PeerInfo F → Bool) → Dict NodeId (PeerInfo F) → NodeId → Type 0
  Holds test ps id = (p : PeerInfo F) × (lookup id ps ≡ some p) × (test p ≡ true)

  pub hot_count-length :
      (ps : Dict NodeId (PeerInfo F))
      → hot_count ps ≡ length (filter (λ p. is_hot p.state) (values ps))
  unfolding counts
  hot_count-length [] = refl
  hot_count-length ((k, p) ∷ ps) = ground (arith, hot_count-length ps)

  pub cold_count-length :
      (ps : Dict NodeId (PeerInfo F))
      → cold_count ps ≡ length (filter (λ p. is_cold p.state) (values ps))
  unfolding counts
  cold_count-length [] = refl
  cold_count-length ((k, p) ∷ ps) = ground (arith, cold_count-length ps)

  pub hot_count-modify :
      (id : NodeId) (f : PeerInfo F → PeerInfo F) (ps : Dict NodeId (PeerInfo F)) (p : PeerInfo F)
      → lookup id ps ≡ some p
      → hot_count (modify id f ps) + one_if (is_hot p.state)
        ≡ hot_count ps + one_if (is_hot (f p).state)
  unfolding counts modify lookup
  hot_count-modify id f [] p e = absurd (ground arith)
  hot_count-modify id f ((k, q) ∷ ps) p e = ground (arith, hot_count-modify id f ps p)

  pub hot_count-remove :
      (id : NodeId) (ps : Dict NodeId (PeerInfo F)) → hot_count (remove id ps) ≤ hot_count ps
  unfolding counts remove
  hot_count-remove id [] = omega arith
  hot_count-remove id ((k, q) ∷ ps) = ground (arith, hot_count-remove id ps)

  cold_count-remove_missing :
      (id : NodeId) (ps : Dict NodeId (PeerInfo F))
      → lookup id ps ≡ none
      → cold_count (remove id ps) ≡ cold_count ps
  unfolding counts remove lookup
  cold_count-remove_missing id [] e = refl
  cold_count-remove_missing id ((k, q) ∷ ps) e = ground (arith, cold_count-remove_missing id ps)

  pub cold_count-remove :
      (id : NodeId) (ps : Dict NodeId (PeerInfo F)) (p : PeerInfo F)
      → NodupKeys ps
      → lookup id ps ≡ some p
      → cold_count (remove id ps) + one_if (is_cold p.state) ≡ cold_count ps
  unfolding counts remove lookup
  cold_count-remove id [] p n e = absurd (ground arith)
  cold_count-remove id ((k, q) ∷ ps) p n e =
      ground (arith, cold_count-remove id ps p n.1, cold_count-remove_missing id ps)

  -- Each value is found under its own id.
  values-lookup :
      (ps : Dict NodeId (PeerInfo F))
      → AllEntries IsEntry ps
      → NodupKeys ps
      → All (λ p. lookup p.node_id ps ≡ some p) (values ps)
  unfolding lookup
  values-lookup [] h n = tt
  values-lookup ((k, q) ∷ ps) h n = (
    ground arith,
    All-imp (λ p. lookup p.node_id ps ≡ some p) (λ p. lookup p.node_id ((k, q) ∷ ps) ≡ some p)
        (λ p e. ground arith) (values ps) (values-lookup ps h.1 n.1),
  )

  pub values-Distinct :
      (ps : Dict NodeId (PeerInfo F))
      → AllEntries IsEntry ps
      → NodupKeys ps
      → Distinct (λ p. p.node_id) (values ps)
  unfolding lookup
  values-Distinct [] h n = tt
  values-Distinct ((k, q) ∷ ps) h n = (
    All-imp (λ p. lookup p.node_id ps ≡ some p) (λ p. q.node_id ≢ p.node_id) (λ p e d. ground arith)
        (values ps) (values-lookup ps h.1 n.1),
    values-Distinct ps h.1 n.1,
  )

  -- The ids that a filter by state selects hold that state.
  pub filter-Holds :
      (test : PeerInfo F → Bool) (ps : Dict NodeId (PeerInfo F))
      → AllEntries IsEntry ps
      → NodupKeys ps
      → All (λ p. Holds test ps p.node_id) (filter test (values ps))
  filter-Holds test ps h n = both (values ps) (values-lookup ps h n)
    where
      both :
          (vs : List (PeerInfo F))
          → All (λ p. lookup p.node_id ps ≡ some p) vs
          → All (λ p. Holds test ps p.node_id) (filter test vs)
      both [] k = tt
      both (p ∷ vs) k =
          let rest = both vs k.1 in
          if_split (All (λ p. Holds test ps p.node_id)) (test p) _ _ (λ t. ((p, k.0, t), rest))
            (λ _. rest)

  -- The same ids, sorted by any comparison of what the code computes from the peers, and cut.
  pub selected-Holds {ℓ} :
      {B : Type ℓ} (test : PeerInfo F → Bool) (ps : Dict NodeId (PeerInfo F)) (key : B → NodeId)
      (f : PeerInfo F → B) (cmp : B → B → Ordering) (n : ℕ)
      → ((p : PeerInfo F) → key (f p) ≡ p.node_id)
      → AllEntries IsEntry ps
      → NodupKeys ps
      → let ids = take n (map key (sort_by cmp (map f (filter test (values ps))))) in
        All (Holds test ps) ids × Distinct (λ (i : NodeId). i) ids
  selected-Holds test ps key f cmp n same h u =
      let found = filter test (values ps) in
      (
        All-take (Holds test ps) n _ (
            All-map (Holds test ps) key _ (
              All-sort_by cmp (λ b. Holds test ps (key b)) (map f found)
                (All-map (λ b. Holds test ps (key b)) f found
                  (All-imp (λ p. Holds test ps p.node_id) (λ p. Holds test ps (key (f p)))
                    (λ p k. rw (same p) k) found (filter-Holds test ps h u))))),
        Distinct-take (λ (i : NodeId). i) n _
            (Distinct-map key (λ (i : NodeId). i) key (λ b. refl) _
              (Distinct-sort_by key cmp (map f found) (
                Distinct-map (λ p. p.node_id) key f same found
                  (Distinct-filter (λ p. p.node_id) test (values ps) (values-Distinct ps h u))))),
      )

  pub length-selected {ℓ} :
      {B : Type ℓ} (test : PeerInfo F → Bool) (ps : Dict NodeId (PeerInfo F)) (key : B → NodeId)
      (f : PeerInfo F → B) (cmp : B → B → Ordering) (n : ℕ)
      → length (take n (map key (sort_by cmp (map f (filter test (values ps))))))
        ≡ min n (length (filter test (values ps)))
  length-selected test ps key f cmp n =
      let found = filter test (values ps) in
      rw (
        length-take n (map key (sort_by cmp (map f found))),
        length-map key (sort_by cmp (map f found)),
        length-sort_by cmp (map f found),
        length-map f found,
      )
