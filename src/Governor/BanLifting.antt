-- ===== src/Governor/BanLifting.antt =====
-- crates/cordelia-governor/src/lib.rs: which calls can end a ban, and `replace_node_id`.
use cordelia_core.Prelude.{
  ℕ, String, Bool, true, some, List, ◌≡◌, refl, ◌≢◌, ◌⊎◌, inl, inr, arith, nat_eq, ◌==◌, ◌∙◌,
  if_both, if◌then◌else◌, Bool-cases, Option-cases,
}
use cordelia_core.Prelude.Dict.{lookup, lookup-modify, lookup-remove, lookup-insert, modify, remove}
use cordelia_core.Prelude.Float.{Floats}
use cordelia_core.Governor.Peer.{NodeId, GroupId, cold, is_banned, new_peer, PeerInfo, Governor}
use cordelia_core.Governor.Handlers.{
  set_groups, add_peer, record_activity, record_items_delivered, connect_peer, mark_connected,
  disconnect_peer, mark_disconnected, mark_dial_failed, carry_relay, drop_placeholder, move_peer,
  replace_node_id, ban_one, ban_peer, set_peer_relay, peer_state,
}
use cordelia_core.Governor.Tick.{is_expired}
use cordelia_core.Governor.Invariant.{IsValid}
use cordelia_core.Governor.Events.{
  Event, groups_set, peer_added, activity, delivered, connected, disconnected, dial_failed,
  id_replaced, peer_banned, relay_set, ticked, step,
}
use cordelia_core.Governor.Bans.{tick-Found}

module _ {F : Type 0} where
  -- An entry that is banned.
  abbrev pub IsBanned : Governor F → NodeId → Type 0
  IsBanned g id = (p : PeerInfo F) × (lookup id g.peers ≡ some p) × (is_banned p.state ≡ true)

  -- A change of one entry that keeps bans.
  modify-IsBanned :
      (f : PeerInfo F → PeerInfo F) (g : Governor F) (j id : NodeId)
      → ((p : PeerInfo F) → is_banned p.state ≡ true → is_banned (f p).state ≡ true)
      → IsBanned g id
      → IsBanned (record g { peers = modify j f g.peers }) id
  modify-IsBanned f g j id keep (p, e, b) = (
    if j == id then f p else p,
    ground (arith, lookup-modify id j f g.peers),
    ground (arith, keep p b),
  )

  add_peer-IsBanned :
      (now : ℕ) (g : Governor F) (j id : NodeId) (addrs : List String) (groups : List GroupId)
      → IsBanned g id
      → IsBanned (add_peer now g j addrs groups) id
  unfolding add_peer
  add_peer-IsBanned now g j id addrs groups (p, e, b) = elim (Option-cases (lookup j g.peers)) [
    | inl missing ↦
        rw (missing, add_peer)
          (p, ground (arith, lookup-insert id j (new_peer now j addrs groups) g.peers), b)
    | inr (q, known) ↦ rw (known, add_peer) (modify-IsBanned _ g j id (λ p b. b) (p, e, b))
  ]

  -- A replacement leaves the entries of other ids.
  lookup-drop_placeholder :
      (g : Governor F) (old target id : NodeId)
      → old ≢ id
      → target ≢ id
      → lookup id (drop_placeholder g old target).peers ≡ lookup id g.peers
  unfolding drop_placeholder
  lookup-drop_placeholder g old target id o t = elim (Option-cases (lookup old g.peers)) [
    | inl missing ↦ rw (missing, drop_placeholder) refl
    | inr (q, known) ↦
        rw (known, drop_placeholder)
          (ground (
            arith,
            lookup-modify id target (carry_relay q) (remove old g.peers),
            lookup-remove id old g.peers,
          ))
  ]

  lookup-move_peer :
      (g : Governor F) (old target id : NodeId) (groups : List GroupId)
      → old ≢ id
      → target ≢ id
      → lookup id (move_peer g old target groups).0.peers ≡ lookup id g.peers
  unfolding move_peer
  lookup-move_peer g old target id groups o t = elim (Option-cases (lookup old g.peers)) [
    | inl missing ↦ rw (missing, move_peer) refl
    | inr (q, known) ↦
        rw (known, move_peer)
          (ground (
            arith,
            lookup-insert id target (record q { node_id = target; groups = groups })
                (remove old g.peers),
            lookup-remove id old g.peers,
          ))
  ]

  lookup-replace_node_id :
      (g : Governor F) (old target id : NodeId) (groups : List GroupId)
      → old ≢ id
      → target ≢ id
      → lookup id (replace_node_id g old target groups).0.peers ≡ lookup id g.peers
  unfolding replace_node_id
  lookup-replace_node_id g old target id groups o t =
      if_both (λ (r : Governor F × Bool). lookup id r.0.peers ≡ lookup id g.peers) _ _ _
        (lookup-drop_placeholder g old target id o t) (lookup-move_peer g old target id groups o t)

-- The calls that can end the ban `p` of `id`: a tick after its term, and the two replacements that
-- take or overwrite the entry.
abbrev pub MayLift : {F : Type 0} → NodeId → PeerInfo F → Event F → Type 0
MayLift id p (ticked t) = is_expired t.unban p ≡ true
MayLift id p (id_replaced old target groups) = (old ≡ id) ⊎ (target ≡ id)
MayLift id p _ = ⊥

module _ (fl : Floats) where
  open fl use {F64}

  -- From a valid governor, a banned peer is still banned after any call but a tick once its term is
  -- over and a replacement of ids that involves it.
  pub step-IsBanned :
      (e : Event F64) (g : Governor F64) (id : NodeId) (p : PeerInfo F64)
      → IsValid F64 g
      → lookup id g.peers ≡ some p
      → is_banned p.state ≡ true
      → ¬ MayLift id p e
      → IsBanned (step fl e g) id
  unfolding step set_groups record_activity record_items_delivered mark_connected mark_disconnected
      mark_dial_failed ban_peer set_peer_relay
  step-IsBanned (groups_set groups) g id p v e b n = (p, e, b)
  step-IsBanned (peer_added now j addrs groups) g id p v e b n =
      add_peer-IsBanned now g j id addrs groups (p, e, b)
  step-IsBanned (activity now j rtt) g id p v e b n = modify-IsBanned _ g j id (λ q b. b) (p, e, b)
  step-IsBanned (delivered now j count) g id p v e b n =
      modify-IsBanned _ g j id (λ q b. b) (p, e, b)
  step-IsBanned (connected now j) g id p v e b n =
      modify-IsBanned (connect_peer now) g j id (unfold connect_peer in λ q b. ground arith)
        (p, e, b)
  step-IsBanned (disconnected now j) g id p v e b n =
      modify-IsBanned (disconnect_peer now) g j id (unfold disconnect_peer in λ q b. ground arith)
        (p, e, b)
  step-IsBanned (dial_failed now j) g id p v e b n = modify-IsBanned _ g j id (λ q b. b) (p, e, b)
  step-IsBanned (id_replaced old target groups) g id p v e b n =
      (p, lookup-replace_node_id g old target id groups (λ o. n (inl o)) (λ t. n (inr t)) ∙ e, b)
  step-IsBanned (peer_banned now j reason) g id p v e b n =
      modify-IsBanned (ban_one now reason) g j id (unfold ban_one in λ q b. refl) (p, e, b)
  step-IsBanned (relay_set j flag) g id p v e b n = modify-IsBanned _ g j id (λ q b. b) (p, e, b)
  step-IsBanned (ticked t) g id p v e b n = elim (Bool-cases (is_expired t.unban p)) [
    | inl over ↦ absurd (n over)
    | inr still ↦ (p, tick-Found fl id p b t g v still e, b)
  ]

-- A ban does not survive a replacement onto its id: whatever its term and its escalation, a cold
-- placeholder under another id overwrites it, and the peer is cold again.
pub replace_node_id_lifts_ban :
    {F : Type 0} (g : Governor F) (old target : NodeId) (groups : List GroupId) (q : PeerInfo F)
    → IsBanned g target
    → lookup old g.peers ≡ some q
    → q.state ≡ cold
    → peer_state (replace_node_id g old target groups).0 target ≡ some cold
unfolding replace_node_id move_peer
replace_node_id_lifts_ban {F = F} g old target groups q (p, e, b) f c =
    let moved : PeerInfo F = record q { node_id = target; groups = groups } in
    ground (arith, lookup-insert target target moved (remove old g.peers))
