-- ===== src/GovernorTask/Admission.antt =====
-- crates/cordelia-node/src/governor_task.rs: a new connection, in the governor and in the pool.
use cordelia_core.Prelude.{
  ℕ, Bool, true, false, not, Option, none, some, List, [], ◌≡◌, refl, Option-cases, nat_eq, arith,
  ==-self, inl, inr,
}
use cordelia_core.Prelude.Dict.{Dict, lookup, insert, modify, lookup-insert, lookup-modify}
use cordelia_core.Governor.Peer.{
  NodeId, Multiaddr, Governor, PeerInfo, is_active, is_warm, is_banned, new_peer,
}
use cordelia_core.Governor.Handlers.{add_peer, mark_connected, connect_peer, peer_info}
use cordelia_core.Pool.Peers.{PeerHandle, insert_peer, get}
use cordelia_core.GovernorTask.State.{GovernorTask}
use cordelia_core.GovernorTask.Events.{take_dial, admit, on_peer_connected}

lookup-inserted :
    {V : Type 0} (id : NodeId) (v : V) (d : Dict NodeId V) → lookup id (insert id v d) ≡ some v
lookup-inserted id v d = rw (lookup-insert id id v d, ==-self id) refl

module _ {F : Type 0} where
  -- A peer that is known and banned.
  abbrev pub was_banned : Option (PeerInfo F) → Bool
  was_banned none = false
  was_banned (some p) = is_banned p.state

  connect_peer-is_active :
      (now : ℕ) (p : PeerInfo F) → is_active (connect_peer now p).state ≡ not (is_banned p.state)
  unfolding connect_peer
  connect_peer-is_active now p = ground arith

  -- What the governor and the pool say of the peer.
  abbrev pub IsAdmitted : NodeId → Bool → Governor F → Option (PeerHandle F) → Type 0
  IsAdmitted id banned_before g handle =
      ((p : PeerInfo F) × (peer_info g id ≡ some p) × (is_active p.state ≡ not banned_before))
      × ((h : PeerHandle F) × (handle ≡ some h) × (is_warm h.state ≡ true))

  lookup-modified :
      (id : NodeId) (f : PeerInfo F → PeerInfo F) (d : Dict NodeId (PeerInfo F)) (p : PeerInfo F)
      → lookup id d ≡ some p
      → lookup id (modify id f d) ≡ some (f p)
  lookup-modified id f d p e = rw (lookup-modify id id f d, ==-self id, e) refl

  admit-unknown :
      (now : ℕ) (id : NodeId) (addrs : List Multiaddr) (g : Governor F)
      → peer_info g id ≡ none
      → peer_info (admit now id addrs none g) id
        ≡ some (connect_peer now (new_peer now id addrs []))
  unfolding admit mark_connected add_peer
  admit-unknown now id addrs g e =
      rw (e, admit, e, add_peer)
        (lookup-modified id (connect_peer now) (insert id (new_peer now id addrs []) g.peers)
          (new_peer now id addrs []) (lookup-inserted id (new_peer now id addrs []) g.peers))

  admit-known :
      (now : ℕ) (id : NodeId) (addrs : List Multiaddr) (g : Governor F) (p : PeerInfo F)
      → peer_info g id ≡ some p
      → peer_info (admit now id addrs none g) id ≡ some (connect_peer now p)
  unfolding admit mark_connected
  admit-known now id addrs g p e = rw (e, admit) (lookup-modified id (connect_peer now) g.peers p e)

  -- The governor's part.
  admit-is_active :
      (now : ℕ) (id : NodeId) (addrs : List Multiaddr) (g : Governor F)
      → (p : PeerInfo F) × (peer_info (admit now id addrs none g) id ≡ some p)
        × (is_active p.state ≡ not (was_banned (peer_info g id)))
  admit-is_active now id addrs g = elim (Option-cases (peer_info g id)) [
    | inl e ↦ (
      connect_peer now (new_peer now id addrs []),
      admit-unknown now id addrs g e,
      rw (e, was_banned) (connect_peer-is_active now (new_peer now id addrs [])),
    )
    | inr (p, e) ↦ (
      connect_peer now p,
      admit-known now id addrs g p e,
      rw (e, was_banned) (connect_peer-is_active now p),
    )
  ]

  -- After a connection that no dial is pending for, the pool holds the peer as warm, whatever the
  -- governor knew of it, and the governor counts it as connected exactly if it was not banned.
  pub on_peer_connected-IsAdmitted :
      (now : ℕ) (id : NodeId) (addrs : List Multiaddr) (t : GovernorTask F)
      → (take_dial addrs t.pending_dials).0 ≡ none
      → IsAdmitted id
          (was_banned (peer_info t.governor id))
          (on_peer_connected now id addrs t).governor
          (get id (on_peer_connected now id addrs t).pool)
  unfolding on_peer_connected insert_peer
  on_peer_connected-IsAdmitted now id addrs t e =
      rw (e, on_peer_connected)
        (admit-is_active now id addrs t.governor, (_, lookup-inserted id _ t.pool.inner, refl))
