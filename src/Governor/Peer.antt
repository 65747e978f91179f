-- ===== src/Governor/Peer.antt =====
-- crates/cordelia-governor/src/lib.rs: the data types, and what is read off them.
use cordelia_core.Prelude.{
  nat_eq, string_eq, ℕ, String, Bool, true, false, Option, none, some, List, [], contains, any,
}
use cordelia_core.Prelude.Dict.{Dict}
use cordelia_core.Prelude.Float.{Floats}
use cordelia_core.Protocol.Era.{era_0, churn_fraction, from_secs}
use cordelia_core.Prelude.{◌-◌}

-- libp2p's `PeerId` and `Multiaddr`: they are compared and passed on, never inspected.
abbrev pub NodeId : Type 0
NodeId = ℕ

abbrev pub Multiaddr : Type 0
Multiaddr = String

abbrev pub GroupId : Type 0
GroupId = String

pub data DialPolicy : Type 0 where
  all relays_only : DialPolicy
  trusted_only : List NodeId → DialPolicy

pub record GovernorTargets (F : Type 0) : Type 0 where
  pub hot_min : ℕ
  pub hot_max : ℕ
  pub warm_min : ℕ
  pub warm_max : ℕ
  pub cold_max : ℕ
  pub churn_interval_secs : ℕ
  pub churn_fraction : F

pub data PeerState : Type 0 where
  cold warm hot : PeerState
  -- `until`, `reason` and `escalation`
  banned : ℕ → String → ℕ → PeerState

abbrev pub is_active : PeerState → Bool
is_active warm = true
is_active hot = true
is_active _ = false

abbrev pub is_banned : PeerState → Bool
is_banned (banned u r n) = true
is_banned _ = false

abbrev pub is_cold : PeerState → Bool
is_cold cold = true
is_cold _ = false

abbrev pub is_warm : PeerState → Bool
is_warm warm = true
is_warm _ = false

abbrev pub is_hot : PeerState → Bool
is_hot hot = true
is_hot _ = false

abbrev pub name : PeerState → String
name cold = "cold"
name warm = "warm"
name hot = "hot"
name (banned u r n) = "banned"

pub record PeerInfo (F : Type 0) : Type 0 where
  pub node_id : NodeId
  pub addrs : List Multiaddr
  pub state : PeerState
  pub groups : List GroupId
  pub rtt_ms : Option F
  pub last_activity : ℕ
  pub items_delivered : ℕ
  pub connected_since : Option ℕ
  pub demoted_at : Option ℕ
  pub disconnect_count : ℕ
  pub last_disconnected : Option ℕ
  pub is_relay : Bool

-- `PeerInfo::new`
abbrev pub new_peer : {F : Type 0} → ℕ → NodeId → List Multiaddr → List GroupId → PeerInfo F
new_peer now node_id addrs groups = record {
  node_id = node_id;
  addrs = addrs;
  state = cold;
  groups = groups;
  rtt_ms = none;
  last_activity = now;
  items_delivered = 0;
  connected_since = none;
  demoted_at = none;
  disconnect_count = 0;
  last_disconnected = none;
  is_relay = false;
}

pub record Governor (F : Type 0) : Type 0 where
  pub peers : Dict NodeId (PeerInfo F)
  pub targets : GovernorTargets F
  pub our_groups : List GroupId
  pub last_churn : ℕ
  pub dial_policy : DialPolicy

pub record GovernorActions : Type 0 where
  pub connect : List NodeId
  pub disconnect : List NodeId
  pub transitions : List (NodeId × String × String)

abbrev pub no_actions : GovernorActions
no_actions = record { connect = []; disconnect = []; transitions = [] }

pub has_group_overlap : {F : Type 0} → PeerInfo F → List GroupId → Bool
has_group_overlap p groups = any (λ g. contains groups g) p.groups

-- `is_dialable`
abbrev pub is_dialable : {F : Type 0} → DialPolicy → PeerInfo F → Bool
is_dialable all p = true
is_dialable relays_only p = p.is_relay
is_dialable (trusted_only trusted) p = contains trusted p.node_id

module _ (fl : Floats) where
  open fl use {F64, of_ℕ, add, mul, div, maximum}

  abbrev pub default_targets : GovernorTargets F64
  default_targets = record {
    hot_min = 2;
    hot_max = 20;
    warm_min = 10;
    warm_max = 50;
    cold_max = 100;
    churn_interval_secs = era_0.churn_interval_secs;
    churn_fraction = churn_fraction fl era_0;
  }

  -- `as_secs_f64`
  abbrev secs : ℕ → F64
  secs nanos = div (of_ℕ nanos) (of_ℕ (from_secs 1))

  -- `connected_since.map(elapsed).unwrap_or(1.0).max(1.0)`
  elapsed_secs : ℕ → Option ℕ → F64
  elapsed_secs now none = maximum (of_ℕ 1) (of_ℕ 1)
  elapsed_secs now (some s) = maximum (secs (now - s)) (of_ℕ 1)

  rtt_factor : Option F64 → F64
  rtt_factor none = div (of_ℕ 1) (of_ℕ 2)
  rtt_factor (some r) = div (of_ℕ 1) (add (of_ℕ 1) (div r (of_ℕ 100)))

  -- Items delivered per second, weighted by the round trip.
  unfoldable pub score : ℕ → PeerInfo F64 → F64
  unfolding elapsed_secs rtt_factor
  score now p =
      mul (div (of_ℕ p.items_delivered) (elapsed_secs now p.connected_since)) (rtt_factor p.rtt_ms)
