-- ===== src/Governor/Dialing.antt =====
-- crates/cordelia-governor/src/lib.rs: whom `promote_cold_to_warm` dials.
use cordelia_core.Prelude.{ℕ, ◌-◌, min, List, ◌≡◌, nat_eq, length, All, filter}
use cordelia_core.Prelude.Dict.{values}
use cordelia_core.Prelude.Distinct.{Distinct}
use cordelia_core.Governor.Peer.{NodeId, PeerInfo, Governor}
use cordelia_core.Governor.Tick.{Run, push_connect, is_candidate, active_count}
use cordelia_core.Governor.Count.{Holds}

module _ {F : Type 0} (now : ℕ) (g : Governor F) where
  -- The peers that may be dialled.
  abbrev pub dialable : List (PeerInfo F)
  dialable = filter (is_candidate now g) (values g.peers)

-- The step from `s` to `r` leaves the governor as it is and appends to the connect list distinct ids
-- of known peers that are cold, that the policy allows and that are out of their backoff; their number
-- is the smaller of the number of such peers and of the room that the active peers leave under
-- `warm_max`.
abbrev pub Dials : {F : Type 0} → ℕ → Run F → Run F → Type 0
Dials now s r =
    (ids : List NodeId) × (r ≡ (s.0, push_connect s.1 ids))
    × All (Holds (is_candidate now s.0) s.0.peers) ids
    × Distinct (λ (i : NodeId). i) ids
    × (length ids ≡ min (s.0.targets.warm_max - active_count s.0) (length (dialable now s.0)))
