-- ===== src/Protocol/Era.antt =====
-- crates/cordelia-protocol/src/era.rs and the constants of lib.rs.
use cordelia_core.Prelude.{ℕ, ◌*◌, List, [], ◌∷◌}
use cordelia_core.Prelude.Float.{Floats}

pub record ProtocolEra : Type 0 where
  pub id : ℕ
  pub keepalive_interval_secs : ℕ
  pub keepalive_miss_limit : ℕ
  pub tick_interval_secs : ℕ
  pub dead_timeout_secs : ℕ
  pub stale_timeout_secs : ℕ
  pub ban_base_duration_secs : ℕ
  pub reconnect_backoff_base_secs : ℕ
  pub reconnect_backoff_max_secs : ℕ
  pub churn_interval_secs : ℕ
  pub churn_per_mille : ℕ
  pub peer_share_interval_secs : ℕ
  pub quic_idle_timeout_secs : ℕ
  pub max_message_bytes : ℕ
  pub max_item_bytes : ℕ
  pub max_batch_size : ℕ
  pub pong_timeout_secs : ℕ
  pub eager_push_interval_secs : ℕ
  pub sync_interval_moderate_secs : ℕ
  pub sync_interval_taciturn_secs : ℕ
  pub tombstone_retention_days : ℕ
  pub push_retry_backoffs : List ℕ
  pub push_retry_count : ℕ
  pub group_exchange_ticks : ℕ
  pub peer_discovery_ticks : ℕ
  pub bootnode_retry_ticks : ℕ
  pub backoff_saturation_count : ℕ

-- `ERA_0`
abbrev pub era_0 : ProtocolEra
era_0 = record {
  id = 0;
  keepalive_interval_secs = 15;
  keepalive_miss_limit = 3;
  tick_interval_secs = 10;
  dead_timeout_secs = 90;
  stale_timeout_secs = 6 * 3600;
  ban_base_duration_secs = 3600;
  reconnect_backoff_base_secs = 30;
  reconnect_backoff_max_secs = 15 * 60;
  churn_interval_secs = 3600;
  churn_per_mille = 200;
  peer_share_interval_secs = 300;
  quic_idle_timeout_secs = 300;
  max_message_bytes = 512 * 1024;
  max_item_bytes = 16 * 1024;
  max_batch_size = 100;
  pong_timeout_secs = 10;
  eager_push_interval_secs = 60;
  sync_interval_moderate_secs = 300;
  sync_interval_taciturn_secs = 900;
  tombstone_retention_days = 7;
  push_retry_backoffs = 5 ∷ 15 ∷ 60 ∷ 300 ∷ [];
  push_retry_count = 4;
  group_exchange_ticks = 6;
  peer_discovery_ticks = 3;
  bootnode_retry_ticks = 30;
  backoff_saturation_count = 5;
}

module _ (fl : Floats) where
  open fl use {F64, of_ℕ, div}

  abbrev pub churn_fraction : ProtocolEra → F64
  churn_fraction era = div (of_ℕ era.churn_per_mille) (of_ℕ 1000)

-- `Duration::from_secs`: durations and instants count nanoseconds.
abbrev pub from_secs : ℕ → ℕ
from_secs n = n * 1000000000
