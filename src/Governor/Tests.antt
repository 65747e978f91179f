-- ===== src/Governor/Tests.antt =====
-- crates/cordelia-governor/src/lib.rs: runs on concrete governors, and each theorem at one.
use cordelia_core.Prelude.{
  ℕ, ◌+◌, ◌*◌, ◌/◌, max, compare, Option, none, some, List, [], ◌∷◌, ◌≡◌, refl, inl, inr, nat_eq,
  ℕ_discrete, ◌≤◌,
}
use mathlib.Core.Bool.{false≢true}
use cordelia_core.Prelude.Dict.{lookup}
use cordelia_core.Prelude.Float.{Floats}
use cordelia_core.Protocol.Era.{from_secs}
use cordelia_core.Governor.Peer
use cordelia_core.Governor.Peer.{
  NodeId, PeerState, cold, warm, hot, banned, PeerInfo, new_peer, Governor, GovernorTargets,
}
use cordelia_core.Governor.Handlers
use cordelia_core.Governor.Tick
use cordelia_core.Governor.Steps.{Readings, tick}
use cordelia_core.Governor.Events.{Event, peer_added, connected, ticked, peer_banned, run, step}
use cordelia_core.Governor.Invariant.{IsValid, run-with_dial_policy-IsValid}
use cordelia_core.Governor.Count.{hot_count, cold_count}
use cordelia_core.Governor.Bounds.{tick_bounds}
use cordelia_core.Governor.BanLifting.{IsBanned, step-IsBanned, replace_node_id_lifts_ban}

-- Floating point numbers in thousandths.
abbrev pub milli : Floats
milli = record {
  F64 = ℕ;
  of_ℕ = λ n. n * 1000;
  ceil_to_ℕ = λ x. (x + 999) / 1000;
  add = λ x y. x + y;
  mul = λ x y. x * y / 1000;
  div = λ x y. x * 1000 / y;
  maximum = max;
  max_value = 1000000000000000000000;
  partial_cmp = λ x y. some (compare x y);
}

abbrev pub targets : GovernorTargets ℕ
targets = record {
  hot_min = 1;
  hot_max = 1;
  warm_min = 1;
  warm_max = 3;
  cold_max = 1;
  churn_interval_secs = 3600;
  churn_fraction = 200;
}

abbrev peer : ℕ → PeerState → Option ℕ → PeerInfo ℕ
peer id state since = record (new_peer 0 id ("/ip4/127.0.0.1" ∷ []) ("g1" ∷ [])) {
  state = state;
  connected_since = since;
}

-- Two hot peers, one warm, one cold and one banned for an hour.
abbrev sample : Governor ℕ
sample = record {
  peers =
      (1, peer 1 hot (some 0))
      ∷ (2, peer 2 hot (some 0))
      ∷ (3, peer 3 warm (some 0))
      ∷ (4, peer 4 cold none)
      ∷ (5, peer 5 (banned (from_secs 3600) "spam" 1) none)
      ∷ [];
  targets = targets;
  our_groups = "g1" ∷ [];
  last_churn = 0;
  dial_policy = Peer.all;
}

abbrev at : ℕ → Readings
at secs = record {
  unban = from_secs secs;
  reap = from_secs secs;
  dial = from_secs secs;
  promote = from_secs secs;
  demote = from_secs secs;
  churn = from_secs secs;
}

sample-IsValid : IsValid ℕ sample
unfolding lookup ℕ_discrete
sample-IsValid = record {
  entries = (
    (refl, inl refl),
    ((refl, inl refl), ((refl, inl refl), ((refl, inr refl), ((refl, inr refl), tt)))),
  );
  nodup = (refl, (refl, (refl, (refl, (refl, tt)))));
}

abbrev history : List (Event ℕ)
history =
    peer_added 0 1 ("/ip4/127.0.0.1" ∷ []) ("g1" ∷ [])
    ∷ connected 1 1
    ∷ ticked (at 10)
    ∷ peer_banned 2 1 "spam"
    ∷ []

run-with_dial_policy-IsValid_example :
    IsValid ℕ (run milli history (Handlers.with_dial_policy 0 targets ("g1" ∷ []) Peer.all))
run-with_dial_policy-IsValid_example =
    run-with_dial_policy-IsValid milli 0 targets ("g1" ∷ []) Peer.all history

tick_bounds_example :
    (hot_count (tick milli (at 10) sample).0.peers ≤ 1)
    × (cold_count (tick milli (at 10) sample).0.peers ≤ 1)
    × ((tick milli (at 10) sample).0.targets ≡ targets)
tick_bounds_example = tick_bounds milli (at 10) sample sample-IsValid

step-IsBanned_example : IsBanned (step milli (ticked (at 10)) sample) 5
unfolding lookup ℕ_discrete
step-IsBanned_example =
    step-IsBanned milli (ticked (at 10)) sample 5 (peer 5 (banned (from_secs 3600) "spam" 1) none)
      sample-IsValid refl refl (λ e. false≢true e)

replace_node_id_lifts_ban_example :
    Handlers.peer_state (Handlers.replace_node_id sample 4 5 []).0 5 ≡ some cold
unfolding lookup ℕ_discrete
replace_node_id_lifts_ban_example =
    replace_node_id_lifts_ban sample 4 5 [] (peer 4 cold none)
      (peer 5 (banned (from_secs 3600) "spam" 1) none, refl, refl) refl refl
