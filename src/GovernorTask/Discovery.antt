-- ===== src/GovernorTask/Discovery.antt =====
-- crates/cordelia-node/src/governor_task.rs: what the governor takes from a peer's list of peers.
use cordelia_core.Prelude.{
  ℕ, Bool, true, false, List, for_each_inv, if◌then◌else◌, ◌==◌, ◌≡◌, inl, inr, refl, arith, nat_eq,
  string_eq, is_empty, if_both, if_split, Option-cases, Bool-cases, ◌∙◌,
}
use cordelia_core.Prelude.Dict.{lookup, lookup-insert, lookup-modify}
use cordelia_core.Governor.Peer.{NodeId, Multiaddr, GroupId, Governor, new_peer}
use cordelia_core.Governor.Handlers.{add_peer, set_peer_relay, peer_info}
use cordelia_core.GovernorTask.State.{GovernorTask, Network}
use cordelia_core.GovernorTask.Tick.{
  PeerAddress, parsed_addrs, is_active_entry, register_peer, on_peers_shared,
}

module _ {F : Type 0} where
  add_peer-other :
      (now : ℕ) (g : Governor F) (id other : NodeId) (addrs : List Multiaddr)
      (groups : List GroupId)
      → (id == other) ≡ false
      → peer_info (add_peer now g id addrs groups) other ≡ peer_info g other
  unfolding add_peer
  add_peer-other now g id other addrs groups apart = elim (Option-cases (lookup id g.peers)) [
    | inl e ↦
        rw (e, add_peer)
          (lookup-insert other id (new_peer now id addrs groups) g.peers ∙ rw apart refl)
    | inr (p, e) ↦ rw (e, add_peer) (lookup-modify other id _ g.peers ∙ rw apart refl)
  ]

  set_peer_relay-other :
      (g : Governor F) (id other : NodeId) (flag : Bool)
      → (id == other) ≡ false
      → peer_info (set_peer_relay g id flag) other ≡ peer_info g other
  unfolding set_peer_relay
  set_peer_relay-other g id other flag apart = lookup-modify other id _ g.peers ∙ rw apart refl

  -- A peer that an answer must not touch: ourselves, or a peer that is connected.
  abbrev pub is_exempt : NodeId → NodeId → Governor F → Bool
  is_exempt our_peer_id id g = if id == our_peer_id then true else is_active_entry (peer_info g id)

  -- One entry of the answer.
  register_peer-exempt :
      (net : Network) (now : ℕ) (our_peer_id id : NodeId) (pa : PeerAddress) (g : Governor F)
      → is_exempt our_peer_id id g ≡ true
      → peer_info (register_peer net now our_peer_id pa g) id ≡ peer_info g id
  unfolding register_peer
  register_peer-exempt net now our_peer_id id pa g exempt =
      let Same = λ (g' : Governor F). peer_info g' id ≡ peer_info g id in
      elim (Option-cases (net.parse_peer_id pa.peer_id)) [
        | inl e ↦ rw (e, register_peer) refl
        | inr (k, e) ↦ elim (Bool-cases (k == id)) [
          | inl hit ↦
              let same : k ≡ id = ground arith in
              rw (e, register_peer, same)
                (if_split Same (id == our_peer_id) _ _ (λ ours. refl)
                  (λ not_ours.
                    if_split Same (is_active_entry (peer_info g id)) _ _ (λ connected. refl)
                      (λ cold. absurd (ground arith))))
          | inr miss ↦
              let addrs = parsed_addrs net pa.addrs in
              let added = add_peer-other now g k id addrs pa.groups miss in
              rw (e, register_peer)
                (if_both Same (k == our_peer_id) g _ refl (
                  if_both Same (is_active_entry (peer_info g k)) g _ refl (
                    if_both Same (is_empty addrs) g _ refl (
                      if_both Same (pa.role == "relay") _ _
                        (set_peer_relay-other (add_peer now g k addrs pa.groups) k id true miss
                          ∙ added)
                        added))))
        ]
      ]

  -- Whatever peers a relay names, with whatever addresses, groups and roles, nothing changes of what the
  -- governor knows of the node itself and of any peer that is warm or hot.
  pub on_peers_shared-exempt :
      (net : Network) (now : ℕ) (our_peer_id id : NodeId) (peers : List PeerAddress)
      (t : GovernorTask F)
      → is_exempt our_peer_id id t.governor ≡ true
      → peer_info (on_peers_shared net now our_peer_id peers t).governor id
        ≡ peer_info t.governor id
  unfolding on_peers_shared
  on_peers_shared-exempt net now our_peer_id id peers t exempt =
      for_each_inv (λ g. peer_info g id ≡ peer_info t.governor id)
        (register_peer net now our_peer_id)
        (λ pa g same. register_peer-exempt net now our_peer_id id pa g (rw same exempt) ∙ same)
        peers t.governor refl
