-- ===== src/Pool/Select.antt =====
-- crates/cordelia-node/src/peer_pool.rs: the peers that a push or a sync goes to.
use cordelia_core.Prelude.{
  ℕ, zero, suc, ◌<◌, Bool, true, Option, none, some, List, [], ◌∷◌, filter, length, is_empty,
  contains, ◌||◌, ◌&&◌, if◌then◌else◌, string_eq, ◌≡◌, ◌≢◌, refl, arith, All, All-imp,
  All-filter_self, ◌⊎◌, inl, inr,
}
use cordelia_core.Prelude.Dict.{values}
use cordelia_core.Governor.Peer.{GroupId, is_active, is_hot}
use cordelia_core.Pool.Peers.{PeerHandle, PeerPool}

-- `peers[idx]`
abbrev pub get_elem? {ℓ} : {A : Type ℓ} → List A → ℕ → Option A
get_elem? [] n = none
get_elem? (x ∷ xs) zero = some x
get_elem? (x ∷ xs) (suc n) = get_elem? xs n

module _ {F : Type 0} where
  abbrev pub shares : GroupId → PeerHandle F → Bool
  shares group_id p = contains p.group_intersection group_id

  abbrev pub select : (PeerHandle F → Bool) → PeerPool F → List (PeerHandle F)
  select test pool = filter test (values pool.inner)

  abbrev pub hot_peers_for_group : GroupId → PeerPool F → List (PeerHandle F)
  hot_peers_for_group group_id = select (λ (p : PeerHandle F). is_hot p.state && shares group_id p)

  abbrev pub active_peers_for_group : GroupId → PeerPool F → List (PeerHandle F)
  active_peers_for_group group_id =
      select (λ (p : PeerHandle F). is_active p.state && shares group_id p)

  abbrev pub active_peers : PeerPool F → List (PeerHandle F)
  active_peers = select (λ (p : PeerHandle F). is_active p.state)

  abbrev pub active_peers_for_group_or_relays : GroupId → PeerPool F → List (PeerHandle F)
  active_peers_for_group_or_relays group_id =
      select (λ (p : PeerHandle F). is_active p.state && (p.is_relay || shares group_id p))

  abbrev pub hot_relays : PeerPool F → List (PeerHandle F)
  hot_relays = select (λ (p : PeerHandle F). is_hot p.state && p.is_relay)

  abbrev pub relay_peers : PeerPool F → List (PeerHandle F)
  relay_peers = select (λ (p : PeerHandle F). is_active p.state && p.is_relay)

  abbrev pub or_else : List (PeerHandle F) → List (PeerHandle F) → List (PeerHandle F)
  or_else peers fallback = if is_empty peers then fallback else peers

  -- `gen_range(0..n)` is `rng n`.
  abbrev pub choose : (ℕ → ℕ) → List (PeerHandle F) → Option (PeerHandle F)
  choose rng peers = if is_empty peers then none else get_elem? peers (rng (length peers))

  unfoldable pub random_hot_peer_for_group : (ℕ → ℕ) → GroupId → PeerPool F → Option (PeerHandle F)
  random_hot_peer_for_group rng group_id pool =
      choose rng
        (or_else (hot_peers_for_group group_id pool) (active_peers_for_group group_id pool))

  -- The four priorities.
  unfoldable pub candidates : GroupId → PeerPool F → List (PeerHandle F)
  candidates group_id pool =
      or_else
        (or_else
          (or_else (hot_peers_for_group group_id pool) (active_peers_for_group group_id pool))
          (hot_relays pool))
        (relay_peers pool)

  unfoldable pub random_hot_peer_for_group_or_relays :
      (ℕ → ℕ) → GroupId → PeerPool F → Option (PeerHandle F)
  unfolding candidates
  random_hot_peer_for_group_or_relays rng group_id pool = choose rng (candidates group_id pool)

  -- An active peer that is a relay or shares the group.
  abbrev pub is_target : GroupId → PeerHandle F → Bool
  is_target group_id p = is_active p.state && (p.is_relay || shares group_id p)

  pub All-or_else :
      (P : PeerHandle F → Type 0) (xs ys : List (PeerHandle F))
      → All P xs
      → All P ys
      → All P (or_else xs ys)
  All-or_else P [] ys hx hy = hy
  All-or_else P (x ∷ xs) ys hx hy = hx

  pub All-select :
      (P : PeerHandle F → Type 0) (test : PeerHandle F → Bool) (pool : PeerPool F)
      → ((p : PeerHandle F) → test p ≡ true → P p)
      → All P (select test pool)
  All-select P test pool imply =
      All-imp (λ (p : PeerHandle F). test p ≡ true) P imply (select test pool)
        (All-filter_self {0, 0} test (values pool.inner))

  candidates-All :
      (group_id : GroupId) (pool : PeerPool F)
      → All (λ (p : PeerHandle F). is_target group_id p ≡ true) (candidates group_id pool)
  unfolding candidates
  candidates-All group_id pool =
      let P = λ (p : PeerHandle F). is_target group_id p ≡ true in
      let hot = hot_peers_for_group group_id pool in
      let active = active_peers_for_group group_id pool in
      All-or_else P (or_else (or_else hot active) (hot_relays pool)) (relay_peers pool)
        (All-or_else P (or_else hot active) (hot_relays pool)
          (All-or_else P hot active (All-select P _ pool (λ p e. ground arith))
            (All-select P _ pool (λ p e. ground arith)))
          (All-select P _ pool (λ p e. ground arith)))
        (All-select P _ pool (λ p e. ground arith))

  -- A narrower test finds nothing where a wider one does not.
  pub filter-nil :
      (wide narrow : PeerHandle F → Bool) (xs : List (PeerHandle F))
      → ((p : PeerHandle F) → narrow p ≡ true → wide p ≡ true)
      → filter wide xs ≡ []
      → filter narrow xs ≡ []
  filter-nil wide narrow [] imply e = refl
  filter-nil wide narrow (x ∷ xs) imply e = ground (arith, filter-nil wide narrow xs imply, imply x)

  targets-nil :
      (group_id : GroupId) (xs : List (PeerHandle F))
      → filter (λ (p : PeerHandle F). is_active p.state && shares group_id p) xs ≡ []
      → filter (λ (p : PeerHandle F). is_active p.state && p.is_relay) xs ≡ []
      → filter (is_target group_id) xs ≡ []
  targets-nil group_id [] e f = refl
  targets-nil group_id (x ∷ xs) e f = ground (arith, targets-nil group_id xs)

  pub or_else-nil : (xs ys : List (PeerHandle F)) → or_else xs ys ≡ [] → (xs ≡ []) × (ys ≡ [])
  or_else-nil [] ys e = (refl, e)
  or_else-nil (x ∷ xs) ys e = absurd (ground arith)

  candidates-nil :
      (group_id : GroupId) (pool : PeerPool F)
      → candidates group_id pool ≡ []
      → active_peers_for_group_or_relays group_id pool ≡ []
  unfolding candidates
  candidates-nil group_id pool e =
      let hot = hot_peers_for_group group_id pool in
      let active = active_peers_for_group group_id pool in
      let (rest, relays) =
        or_else-nil (or_else (or_else hot active) (hot_relays pool)) (relay_peers pool) e in
      let (members, _) = or_else-nil (or_else hot active) (hot_relays pool) rest in
      targets-nil group_id (values pool.inner) (or_else-nil hot active members).1 relays

  nil-candidates :
      (group_id : GroupId) (pool : PeerPool F)
      → active_peers_for_group_or_relays group_id pool ≡ []
      → candidates group_id pool ≡ []
  unfolding candidates
  nil-candidates group_id pool e =
      let none_of =
        λ (test : PeerHandle F → Bool)
            (imply : (p : PeerHandle F) → test p ≡ true → is_target group_id p ≡ true).
          filter-nil (is_target group_id) test (values pool.inner) imply e in
      rw
        (
          none_of (λ (p : PeerHandle F). is_hot p.state && shares group_id p) (λ p t. ground arith),
          none_of (λ (p : PeerHandle F). is_active p.state && shares group_id p)
              (λ p t. ground arith),
          none_of (λ (p : PeerHandle F). is_hot p.state && p.is_relay) (λ p t. ground arith),
          none_of (λ (p : PeerHandle F). is_active p.state && p.is_relay) (λ p t. ground arith),
        )
        refl

  get_elem?-All :
      (P : PeerHandle F → Type 0) (xs : List (PeerHandle F)) (n : ℕ)
      → All P xs
      → n < length xs
      → (p : PeerHandle F) × (get_elem? xs n ≡ some p) × P p
  get_elem?-All P [] n h below = absurd (omega arith)
  get_elem?-All P (x ∷ xs) zero h below = (x, refl, h.0)
  get_elem?-All P (x ∷ xs) (suc n) h below = get_elem?-All P xs n h.1 (omega arith)

  pub choose-All :
      (P : PeerHandle F → Type 0) (rng : ℕ → ℕ) (xs : List (PeerHandle F))
      → ((n : ℕ) → 0 < n → rng n < n)
      → All P xs
      → (xs ≡ []) × (choose rng xs ≡ none) ⊎ ((p : PeerHandle F) × (choose rng xs ≡ some p) × P p)
  choose-All P rng [] within h = inl (refl, refl)
  choose-All P rng (x ∷ xs) within h =
      inr (
        get_elem?-All P (x ∷ xs) (rng (length (x ∷ xs))) h (within (length (x ∷ xs)) (omega arith)))

  -- If the random index is within the range asked for, a relay finds no peer for a group exactly when no
  -- active peer is a relay or shares the group, and any peer found is such a peer.
  pub random_hot_peer_for_group_or_relays_lem :
      (rng : ℕ → ℕ) (group_id : GroupId) (pool : PeerPool F)
      → ((n : ℕ) → 0 < n → rng n < n)
      → ((active_peers_for_group_or_relays group_id pool ≡ [])
          × (random_hot_peer_for_group_or_relays rng group_id pool ≡ none))
        ⊎ ((active_peers_for_group_or_relays group_id pool ≢ [])
            × (p : PeerHandle F) × (random_hot_peer_for_group_or_relays rng group_id pool ≡ some p)
            × (is_target group_id p ≡ true))
  unfolding random_hot_peer_for_group_or_relays
  random_hot_peer_for_group_or_relays_lem rng group_id pool within =
      elim (choose-All (λ (p : PeerHandle F). is_target group_id p ≡ true) rng
        (candidates group_id pool) within (candidates-All group_id pool)) [
          | inl (e, nobody) ↦ inl (candidates-nil group_id pool e, nobody)
          | inr (p, found, fits) ↦ inr (
            (λ e.
                let empty = nil-candidates group_id pool e in
                let nobody : choose rng (candidates group_id pool) ≡ none = rw empty refl in
                absurd (ground arith)),
            p,
            found,
            fits,
          )
        ]
