-- ===== src/Replication/Culture.antt =====
-- crates/cordelia-replication/src/lib.rs: strategies, cultures, checksums and header comparison.
use cordelia_core.Prelude.{
  ℕ, String, Bool, true, not, Option, none, some, List, [], ◌∷◌, map, filter, if◌then◌else◌, ◌==◌,
  ◌||◌, string_eq,
}
use cordelia_core.Prelude.Dict.{Dict, lookup, insert}
use cordelia_core.Protocol.Era.{era_0}
use cordelia_core.Protocol.Messages.{Bytes, Hashing, FetchedItem, ItemHeader}

pub data ReplicationStrategy : Type 0 where
  eager_push passive : ReplicationStrategy

abbrev pub sync_interval_secs : ReplicationStrategy → ℕ → Option ℕ
sync_interval_secs eager_push taciturn_secs = some era_0.eager_push_interval_secs
sync_interval_secs passive taciturn_secs = some taciturn_secs

pub record ReplicationConfig : Type 0 where
  pub sync_interval_taciturn_secs : ℕ
  pub tombstone_retention_days : ℕ
  pub max_batch_size : ℕ

-- `ReplicationConfig::default`
abbrev pub default_config : ReplicationConfig
default_config = record {
  sync_interval_taciturn_secs = era_0.sync_interval_taciturn_secs;
  tombstone_retention_days = era_0.tombstone_retention_days;
  max_batch_size = era_0.max_batch_size;
}

pub record GroupCulture : Type 0 where
  pub broadcast_eagerness : String
  pub ttl_default : Option ℕ
  pub notification_policy : Option String
  pub departure_policy : Option String

-- `GroupCulture::default`
abbrev pub default_culture : GroupCulture
default_culture = record {
  broadcast_eagerness = "chatty";
  ttl_default = none;
  notification_policy = none;
  departure_policy = none;
}

unfoldable pub strategy : GroupCulture → ReplicationStrategy
strategy c =
    if c.broadcast_eagerness == "chatty" || c.broadcast_eagerness == "moderate"
    then eager_push
    else if c.broadcast_eagerness == "taciturn"
    then passive
    else eager_push

pub data ReceiveOutcome : Type 0 where
  stored duplicate : ReceiveOutcome
  rejected : String → ReceiveOutcome

-- `local.iter().map(..).collect()`: a later header of an id replaces an earlier one.
unfoldable pub checksums_of : Dict String String → List ItemHeader → Dict String String
checksums_of d [] = d
checksums_of d (r ∷ rs) = checksums_of (insert r.item_id r.checksum d) rs

abbrev pub needs_fetch : Dict String String → ItemHeader → Bool
needs_fetch known r = elim (lookup r.item_id known) [
  | none ↦ true
  | some checksum ↦ not (checksum == r.checksum)
]

unfoldable pub diff_headers : List ItemHeader → List ItemHeader → List String
unfolding checksums_of
diff_headers here remote =
    map (λ (r : ItemHeader). r.item_id) (filter (needs_fetch (checksums_of [] here)) remote)

module _ (h : Hashing) where
  -- `checksum`
  abbrev pub checksum : Bytes → String
  checksum bytes = h.sha256_hex bytes

  abbrev pub validate_checksum : FetchedItem → Bool
  validate_checksum item = checksum item.encrypted_blob == item.checksum
