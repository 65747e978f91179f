-- ===== src/Storage/Rows.antt =====
-- crates/cordelia-storage/src/lib.rs: the row types and the errors.
use cordelia_core.Prelude.{ℕ, String, Bool, Option, ◌≡◌, ◌⊎◌, inl, inr, refl}
use cordelia_core.Prelude.Int.{ℤ}
use cordelia_core.Protocol.Messages.{Bytes}

pub data StorageError : Type 0 where
  sqlite io : String → StorageError
  schema_version_mismatch : ℕ → ℕ → StorageError
  lock_poisoned : StorageError

pub data Result {ℓ} (A : Type ℓ) : Type ℓ where
  ok : A → Result A
  err : StorageError → Result A

pub Result-cases {ℓ} :
    {A : Type ℓ} (r : Result A) → ((a : A) × (r ≡ ok a)) ⊎ ((e : StorageError) × (r ≡ err e))
Result-cases (ok a) = inl (a, refl)
Result-cases (err e) = inr (e, refl)

pub record L2ItemRow : Type 0 where
  pub id : String
  pub item_type : String
  pub owner_id : Option String
  pub visibility : String
  pub bytes : Bytes
  pub checksum : Option String
  pub group_id : Option String
  pub author_id : Option String
  pub key_version : ℤ
  pub parent_id : Option String
  pub is_copy : Bool
  pub access_count : ℤ
  pub last_accessed_at : Option String
  pub created_at : String
  pub updated_at : String

pub record L2ItemWrite : Type 0 where
  pub id : String
  pub item_type : String
  pub bytes : Bytes
  pub owner_id : Option String
  pub visibility : String
  pub group_id : Option String
  pub author_id : Option String
  pub key_version : ℤ
  pub parent_id : Option String
  pub is_copy : Bool
  pub updated_at : Option String

pub record AccessLogEntry : Type 0 where
  pub entity_id : String
  pub action : String
  pub resource_type : String
  pub resource_id : Option String
  pub group_id : Option String
  pub detail : Option String

pub record GroupRow : Type 0 where
  pub id : String
  pub name : String
  pub culture : String
  pub security_policy : String
  pub created_at : String
  pub updated_at : String
  pub owner_id : Option String
  pub owner_pubkey : Option String
  pub signature : Option String

pub record GroupMemberRow : Type 0 where
  pub group_id : String
  pub entity_id : String
  pub role : String
  pub posture : Option String
  pub joined_at : String

pub record DeviceRow : Type 0 where
  pub device_id : String
  pub entity_id : String
  pub device_name : Option String
  pub device_type : String
  pub auth_token_hash : String
  pub created_at : String
  pub last_seen_at : Option String
  pub revoked_at : Option String

pub record L2ItemMeta : Type 0 where
  pub owner_id : Option String
  pub visibility : String
  pub group_id : Option String
  pub author_id : Option String
  pub key_version : ℤ
  pub parent_id : Option String
  pub is_copy : Bool
