-- ===== src/Governor/Tick.antt =====
-- crates/cordelia-governor/src/lib.rs: `tick` and its seven steps. A step takes the governor and the
-- actions collected so far. Where the code reads the clock, the step takes the reading.
use Prim.Native.Nat.Ordering.{lt, eq, gt}
use cordelia_core.Prelude.{
  nat_eq, ℕ, ◌+◌, ◌-◌, String, Bool, true, false, none, some, List, [], ◌∷◌, ◌++◌, map,
  if◌then◌else◌, ◌&&◌, ltb, leb, take, filter, for_each, is_empty, Ordering, compare,
}
use cordelia_core.Prelude.Dict.{Dict, lookup, modify, remove, values, map_values}
use cordelia_core.Prelude.Sort.{sort_by}
use cordelia_core.Protocol.Era.{era_0, from_secs}
use cordelia_core.Governor.Peer.{
  NodeId, PeerState, cold, warm, hot, banned, is_active, is_cold, is_warm, name, PeerInfo, Governor,
  GovernorActions, has_group_overlap, is_dialable,
}
use cordelia_core.Governor.Backoff.{reconnect_backoff}

abbrev pub dead_timeout : ℕ
dead_timeout = from_secs era_0.dead_timeout_secs

abbrev pub stale_timeout : ℕ
stale_timeout = from_secs era_0.stale_timeout_secs

-- `(hot, warm, cold, banned)`
abbrev pub Counts : Type 0
Counts = ℕ × ℕ × ℕ × ℕ

abbrev tally : PeerState → Counts → Counts
tally hot (h, w, c, b) = (h + 1, w, c, b)
tally warm (h, w, c, b) = (h, w + 1, c, b)
tally cold (h, w, c, b) = (h, w, c + 1, b)
tally (banned u r n) (h, w, c, b) = (h, w, c, b + 1)

abbrev pub push_connect : GovernorActions → List NodeId → GovernorActions
push_connect a ids = record a { connect = a.connect ++ ids }

abbrev pub push_disconnect : GovernorActions → NodeId → GovernorActions
push_disconnect a id = record a { disconnect = a.disconnect ++ id ∷ [] }

abbrev pub push_transition : GovernorActions → NodeId → String → String → GovernorActions
push_transition a id from to = record a { transitions = a.transitions ++ (id, from, to) ∷ [] }

-- `Reverse(overlap)`: peers that share a group come first.
abbrev pub by_overlap : NodeId × Bool → NodeId × Bool → Ordering
by_overlap (i, true) (j, false) = lt
by_overlap (i, false) (j, true) = gt
by_overlap (i, true) (j, true) = eq
by_overlap (i, false) (j, false) = eq

-- `cmp` of `bool`
abbrev pub bool_cmp : Bool → Bool → Ordering
bool_cmp false true = lt
bool_cmp true false = gt
bool_cmp true true = eq
bool_cmp false false = eq

abbrev pub by_time : NodeId × ℕ → NodeId × ℕ → Ordering
by_time (i, s) (j, t) = compare s t

-- What a step reads and writes: the governor, and the actions collected so far.
abbrev pub Run : Type 0 → Type 0
Run F = Governor F × GovernorActions

module _ {F : Type 0} where
  unfoldable pub counts : Dict NodeId (PeerInfo F) → Counts
  counts [] = (0, 0, 0, 0)
  counts ((id, p) ∷ ps) = tally p.state (counts ps)

  abbrev pub with_peers : Governor F → Dict NodeId (PeerInfo F) → Governor F
  with_peers g ps = record g { peers = ps }

  -- 1. Bans that have run out.
  abbrev pub is_expired : ℕ → PeerInfo F → Bool
  is_expired now p = elim p.state [ banned until r n ↦ leb until now | _ ↦ false ]

  abbrev pub unban_one : ℕ → PeerInfo F → PeerInfo F
  unban_one now p = if is_expired now p then record p { state = cold } else p

  unfoldable pub unban_expired : ℕ → Run F → Run F
  unban_expired now (g, a) = (
    with_peers g (map_values (unban_one now) g.peers),
    record a {
      transitions =
          a.transitions
          ++ map (λ p. (p.node_id, name p.state, "cold"))
              (filter (is_expired now) (values g.peers));
    },
  )

  -- 2. Peers that have been silent.
  abbrev pub is_dead : ℕ → PeerInfo F → Bool
  is_dead now p = is_active p.state && ltb dead_timeout (now - p.last_activity)

  abbrev pub reap_hot : ℕ → PeerInfo F → PeerInfo F
  reap_hot now p = record p { state = warm; connected_since = none; demoted_at = some now }

  abbrev pub to_cold : PeerInfo F → PeerInfo F
  to_cold p = record p { state = cold; connected_since = none }

  abbrev pub reap_state : ℕ → NodeId → PeerState → Run F → Run F
  reap_state now id hot (g, a) =
      (with_peers g (modify id (reap_hot now) g.peers), push_transition a id "hot" "warm")
  reap_state now id warm (g, a) = (
    with_peers g (modify id to_cold g.peers),
    push_transition (push_disconnect a id) id "warm" "cold",
  )
  reap_state now id _ s = s

  unfoldable pub reap_one : ℕ → NodeId → Run F → Run F
  reap_one now id (g, a) = elim (lookup id g.peers) [
    | some p ↦ reap_state now id p.state (g, a)
    | none ↦ (g, a)
  ]

  unfoldable pub reap_dead : ℕ → Run F → Run F
  unfolding reap_one
  reap_dead now (g, a) =
      for_each (map (λ p. p.node_id) (filter (is_dead now) (values g.peers))) (reap_one now) (g, a)

  -- 3. Cold peers to dial.
  abbrev pub out_of_backoff : ℕ → PeerInfo F → Bool
  out_of_backoff now p = elim p.last_disconnected [
    | none ↦ true
    | some t ↦ leb (reconnect_backoff p.disconnect_count) (now - t)
  ]

  abbrev pub is_candidate : ℕ → Governor F → PeerInfo F → Bool
  is_candidate now g p = is_cold p.state && is_dialable g.dial_policy p && out_of_backoff now p

  unfoldable pub candidates : ℕ → Governor F → ℕ → List NodeId
  candidates now g needed = take needed (
      map (λ (c : NodeId × Bool). c.0)
        (sort_by by_overlap (
          map (λ p. (p.node_id, has_group_overlap p g.our_groups))
            (filter (is_candidate now g) (values g.peers)))))

  -- "If no sorting available, just take first N"
  unfoldable pub first_candidates : ℕ → Governor F → ℕ → List NodeId
  first_candidates now g needed =
      map (λ p. p.node_id) (take needed (filter (is_candidate now g) (values g.peers)))

  unfoldable pub dial_list : ℕ → Governor F → ℕ → List NodeId
  unfolding candidates first_candidates
  dial_list now g needed =
      let sorted = candidates now g needed in
      if is_empty sorted then first_candidates now g needed else sorted

  abbrev pub active_count : Governor F → ℕ
  active_count g = let (h, w, c, b) = counts g.peers in w + h

  unfoldable pub promote_cold_to_warm : ℕ → Run F → Run F
  promote_cold_to_warm now (g, a) =
      let active = active_count g in
      if leb g.targets.warm_max active
      then (g, a)
      else (g, push_connect a (dial_list now g (g.targets.warm_max - active)))

  -- 5. and 6. share this: `get_mut`, the new value, and the transition.
  unfoldable pub move_id : (PeerInfo F → PeerInfo F) → String → String → NodeId → Run F → Run F
  move_id f from to id (g, a) = elim (lookup id g.peers) [
    | some p ↦ (with_peers g (modify id f g.peers), push_transition a id from to)
    | none ↦ (g, a)
  ]

  abbrev pub to_hot : PeerInfo F → PeerInfo F
  to_hot p = record p { state = hot; disconnect_count = 0 }

  abbrev pub to_warm : PeerInfo F → PeerInfo F
  to_warm p = record p { state = warm }

  -- Not reaped within the dead timeout.
  abbrev pub is_promotable : ℕ → PeerInfo F → Bool
  is_promotable now p =
      is_warm p.state && elim p.demoted_at [ none ↦ true | some d ↦ ltb dead_timeout (now - d) ]

  unfoldable pub churn_one : NodeId → Run F → Run F
  churn_one id (g, a) = elim (lookup id g.peers) [
    | some p ↦ (
      with_peers g (modify id to_cold g.peers),
      push_transition (push_disconnect a id) id "warm" "cold",
    )
    | none ↦ (g, a)
  ]

  -- 7. Cold peers beyond the limit, the longest silent first.
  unfoldable pub oldest_cold : Governor F → List NodeId
  oldest_cold g =
      map (λ (c : NodeId × ℕ). c.0)
        (sort_by by_time (
          map (λ p. (p.node_id, p.last_activity)) (filter (λ p. is_cold p.state) (values g.peers))))

  unfoldable pub evict_excess_cold : Run F → Run F
  unfolding oldest_cold counts
  evict_excess_cold (g, a) =
      let (h, w, c, b) = counts g.peers in
      if leb c g.targets.cold_max then (g, a) else (
        with_peers g (for_each (take (c - g.targets.cold_max) (oldest_cold g)) remove g.peers),
        a,
      )
