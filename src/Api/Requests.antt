-- ===== src/Api/Requests.antt =====
-- crates/cordelia-api/src/lib.rs: the requests, and what serde fills in.
use cordelia_core.Prelude.{ℕ, String, Bool, Option}
use cordelia_core.Prelude.Int.{ℤ}

pub record L1WriteRequest (V : Type 0) : Type 0 where
  pub user_id : String
  pub value : V

pub record L2WriteMeta : Type 0 where
  pub owner_id : Option String
  pub visibility : Option String
  pub group_id : Option String
  pub author_id : Option String
  pub key_version : Option ℤ
  pub parent_id : Option String
  pub is_copy : Option Bool

pub record L2WriteRequest (V : Type 0) : Type 0 where
  pub item_id : String
  pub item_type : String
  pub value : V
  pub meta : Option L2WriteMeta

pub record L2SearchRequest : Type 0 where
  pub query : String
  pub limit : ℕ
  pub group_id : Option String

abbrev pub default_limit : ℕ
default_limit = 20

pub record GroupItemsRequest : Type 0 where
  pub group_id : String
  pub since : Option String
  pub limit : ℕ

pub record GroupCreateRequest : Type 0 where
  pub group_id : String
  pub name : String
  pub culture : String
  pub security_policy : String

abbrev pub default_culture : String
default_culture = "{\"broadcast_eagerness\":\"chatty\"}"

abbrev pub default_security_policy : String
default_security_policy = "{}"

pub record GroupAddMemberRequest : Type 0 where
  pub group_id : String
  pub entity_id : String
  pub role : String

abbrev pub default_member_role : String
default_member_role = "member"

pub record GroupRemoveMemberRequest : Type 0 where
  pub group_id : String
  pub entity_id : String

pub record GroupUpdatePostureRequest : Type 0 where
  pub group_id : String
  pub entity_id : String
  pub posture : String

pub record DeviceRegisterRequest : Type 0 where
  pub device_id : String
  pub entity_id : String
  pub device_name : Option String
  pub device_type : String
  pub auth_token_hash : String

abbrev pub default_device_type : String
default_device_type = "node"

pub record DeviceRevokeRequest : Type 0 where
  pub entity_id : String
  pub device_id : String
