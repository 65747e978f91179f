-- ===== src/ReplicationTask/Peers.antt =====
-- crates/cordelia-node/src/replication_task.rs and peer_pool.rs: the peer that a round of anti-entropy goes to.
use cordelia_core.Prelude.{
  ℕ, Bool, true, false, Option, none, some, [], ◌||◌, ◌&&◌, ◌<◌, ◌≡◌, ◌≢◌, ◌⊎◌, inl, inr, refl,
  arith, string_eq,
}
use cordelia_core.Prelude.Dict.{values}
use cordelia_core.Protocol.Messages.{Hashing}
use cordelia_core.Replication.Engine.{Texts}
use cordelia_core.Governor.Peer.{GroupId, is_active, is_hot}
use cordelia_core.Pool.Peers.{PeerHandle, PeerPool}
use cordelia_core.Pool.Select.{
  shares, select, hot_peers_for_group, active_peers_for_group, or_else, choose,
  random_hot_peer_for_group, random_hot_peer_for_group_or_relays_lem, choose-All, All-or_else,
  All-select, filter-nil, or_else-nil,
}
use cordelia_core.ReplicationTask.AntiEntropy.{pick_peer}

module _ {F : Type 0} where
  -- A relay syncs with an active peer that is a relay or shares the group, another node with an active
  -- peer that shares it.
  abbrev pub is_partner : Bool → GroupId → PeerHandle F → Bool
  is_partner is_relay group_id p =
      is_active p.state && ((is_relay && p.is_relay) || shares group_id p)

  -- Nobody, where there is no partner; a partner, where there is one.
  abbrev pub Partnered : (PeerHandle F → Bool) → PeerPool F → Option (PeerHandle F) → Type 0
  Partnered partner pool found =
      ((select partner pool ≡ []) × (found ≡ none))
      ⊎ ((select partner pool ≢ []) × (p : PeerHandle F) × (found ≡ some p) × (partner p ≡ true))

  member_lem :
      (rng : ℕ → ℕ) (group_id : GroupId) (pool : PeerPool F)
      → ((n : ℕ) → 0 < n → rng n < n)
      → Partnered (is_partner false group_id) pool (random_hot_peer_for_group rng group_id pool)
  unfolding random_hot_peer_for_group
  member_lem rng group_id pool within =
      let P = λ (p : PeerHandle F). is_partner false group_id p ≡ true in
      let hot = hot_peers_for_group group_id pool in
      let active = active_peers_for_group group_id pool in
      let fit =
        All-or_else P hot active (All-select P _ pool (λ p e. ground arith))
          (All-select P _ pool (λ p e. ground arith)) in
      elim (choose-All P rng (or_else hot active) within fit) [
        | inl (e, nobody) ↦ inl ((or_else-nil hot active e).1, nobody)
        | inr (p, found, fits) ↦ inr (
          (λ e.
              let no_hot =
                filter-nil (is_partner false group_id)
                  (λ (q : PeerHandle F). is_hot q.state && shares group_id q) (values pool.inner)
                  (λ q t. ground arith) e in
              let nobody : choose rng (or_else hot active) ≡ none = rw (no_hot, e) refl in
              absurd (ground arith)),
          p,
          found,
          fits,
        )
      ]

  -- If the random index is within the range asked for, a round of anti-entropy finds no peer exactly when
  -- there is no partner, and any peer found is one: for a relay an active peer that is a relay or shares
  -- the group, for another node an active peer that shares the group, so that relays do not count.
  pub pick_peer_lem :
      (h : Hashing) (x : Texts) (rng : ℕ → ℕ) (is_relay : Bool) (group_id : GroupId)
      (pool : PeerPool F)
      → ((n : ℕ) → 0 < n → rng n < n)
      → ((select (is_partner is_relay group_id) pool ≡ [])
          × (pick_peer h x rng is_relay group_id pool ≡ none))
        ⊎ ((select (is_partner is_relay group_id) pool ≢ [])
            × (p : PeerHandle F) × (pick_peer h x rng is_relay group_id pool ≡ some p)
            × (is_partner is_relay group_id p ≡ true))
  pick_peer_lem h x rng true group_id pool within =
      random_hot_peer_for_group_or_relays_lem rng group_id pool within
  pick_peer_lem h x rng false group_id pool within = member_lem rng group_id pool within
