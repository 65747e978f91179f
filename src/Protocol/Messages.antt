-- ===== src/Protocol/Messages.antt =====
-- crates/cordelia-protocol/src/messages.rs: the wire messages. JSON and base64 are the work of serde
-- and are not modelled.
use cordelia_core.Prelude.{ℕ, String, ◌<>◌, Bool, Option, List, string_eq, ◌==◌}

abbrev pub Bytes : Type 0
Bytes = List ℕ

-- SHA-256 followed by `hex::encode`, and the bytes of a text.
pub record Hashing : Type 0 where
  pub sha256_hex : List ℕ → String
  pub utf8 : String → List ℕ

pub record SyncRequest : Type 0 where
  pub group_id : String
  pub since : Option String
  pub limit : ℕ

pub record ItemHeader : Type 0 where
  pub item_id : String
  pub item_type : String
  pub checksum : String
  pub updated_at : String
  pub author_id : String
  pub is_deletion : Bool

pub record SyncResponse : Type 0 where
  pub items : List ItemHeader
  pub has_more : Bool

pub record FetchedItem : Type 0 where
  pub item_id : String
  pub item_type : String
  pub encrypted_blob : Bytes
  pub checksum : String
  pub author_id : String
  pub group_id : String
  pub key_version : ℕ
  pub parent_id : Option String
  pub is_copy : Bool
  pub updated_at : String

pub record PushAck : Type 0 where
  pub stored : ℕ
  pub rejected : ℕ

pub record GroupDescriptor : Type 0 where
  pub id : String
  pub culture : String
  pub updated_at : String
  pub checksum : String
  pub owner_id : Option String
  pub owner_pubkey : Option String
  pub signature : Option String

abbrev pub group_tombstone_culture : String
group_tombstone_culture = "__deleted__"

abbrev pub is_tombstone : GroupDescriptor → Bool
is_tombstone d = d.culture == group_tombstone_culture

-- `signing_payload`, before `into_bytes`.
abbrev pub signing_text : String → String → String → String
signing_text id culture updated_at = (id <> "\n") <> (culture <> ("\n" <> updated_at))

module _ (h : Hashing) where
  open h use {sha256_hex, utf8}

  -- `GroupDescriptor::compute_checksum`
  abbrev pub compute_checksum : String → String → String
  compute_checksum id culture = sha256_hex (utf8 ((id <> "\n") <> culture))

  abbrev pub verify_checksum : GroupDescriptor → Bool
  verify_checksum d = d.checksum == compute_checksum d.id d.culture

  abbrev pub signing_payload : GroupDescriptor → Bytes
  signing_payload d = utf8 (signing_text d.id d.culture d.updated_at)
