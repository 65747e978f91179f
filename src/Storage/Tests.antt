-- ===== src/Storage/Tests.antt =====
-- crates/cordelia-storage/src/lib.rs: the theorems on devices and members at concrete tables.
use cordelia_core.Prelude.{
  String, true, false, none, some, List, [], ◌∷◌, ◌≡◌, ◌≢◌, refl, for_each, string_eq,
}
use cordelia_core.Prelude.Dict.{Dict, lookup, modify}
use cordelia_core.Storage.Rows.{ok, GroupRow, GroupMemberRow, DeviceRow}
use cordelia_core.Storage.Items.{SqliteStorage, available}
use cordelia_core.Prelude.Dict
use cordelia_core.Storage.Devices
use cordelia_core.Storage.Devices.{revoke_device, get_device_by_token_hash}
use cordelia_core.Storage.Revocation.{
  DeviceCall, register, revoke, device_call, revoke_device-Lasts,
}
use cordelia_core.Storage.Schema.{Schema}
use cordelia_core.Storage.Members.{is_role, add_member}
use cordelia_core.Storage.Membership.{find_member, joined, add_member-joined}

abbrev device : String → String → DeviceRow
device id hash = record {
  device_id = id;
  entity_id = "alice";
  device_name = none;
  device_type = "node";
  auth_token_hash = hash;
  created_at = "2026-01-01";
  last_seen_at = none;
  revoked_at = none;
}

abbrev devices : Dict String DeviceRow
devices = ("d1", device "d1" "h1") ∷ ("d2", device "d2" "h2") ∷ []

abbrev group : GroupRow
group = record {
  id = "g1";
  name = "Group";
  culture = "chatty";
  security_policy = "{}";
  created_at = "2026-01-01";
  updated_at = "2026-01-01";
  owner_id = none;
  owner_pubkey = none;
  signature = none;
}

abbrev member : GroupMemberRow
member = record {
  group_id = "g1";
  entity_id = "alice";
  role = "owner";
  posture = some "active";
  joined_at = "2026-01-01";
}

abbrev tables : SqliteStorage
tables = record {
  is_poisoned = false;
  failure = none;
  meta_failure = none;
  clock = "2026-02-01";
  l2_items = [];
  access_log = [];
  groups = ("g1", group) ∷ [];
  group_members = member ∷ [];
  l1_hot = ("alice", []) ∷ [];
  l2_index = none;
  devices = some devices;
}

-- The first device is registered anew after its revocation, with the token of the second.
abbrev device_calls : List DeviceCall
device_calls = register (device "d1" "h2") ∷ revoke "alice" "d3" ∷ []

devices-NodupKeys : lookup {K = String} {V = DeviceRow} "d1" (("d2", device "d2" "h2") ∷ []) ≡ none
unfolding lookup string_eq
devices-NodupKeys = refl

d1_is_revoked : (revoke_device "alice" "d1" tables).0 ≡ ok true
unfolding revoke_device lookup string_eq available
d1_is_revoked = refl

d2_is_found :
    get_device_by_token_hash "h2"
      (for_each device_calls device_call (revoke_device "alice" "d1" tables).1)
    ≡ ok (some (device "d2" "h2"))
unfolding get_device_by_token_hash device_call revoke_device Devices.register_device lookup modify
    Dict.insert string_eq available
d2_is_found = refl

revoke_device-Lasts_example : (device "d2" "h2").device_id ≢ "d1"
unfolding lookup
revoke_device-Lasts_example =
    revoke_device-Lasts "d1" "alice" "h2" tables devices device_calls (device "d2" "h2") refl
      (refl, (refl, tt)) (devices-NodupKeys, (refl, tt)) d1_is_revoked d2_is_found

tables_work : available tables ≡ none
unfolding available
tables_work = refl

member_is_role : is_role "member" ≡ true
unfolding string_eq
member_is_role = refl

g1_is_stored : lookup "g1" tables.groups ≡ some group
unfolding lookup string_eq
g1_is_stored = refl

-- An entity that no table knows joins.
add_member-joined_example :
    ((add_member "g1" "bob" "member" tables).0 ≡ ok tt)
    × (find_member "g1" "bob" (add_member "g1" "bob" "member" tables).1.group_members
        ≡ some (joined "2026-02-01" "g1" "bob" "member" none))
    × (lookup "bob" (add_member "g1" "bob" "member" tables).1.l1_hot ≡ some (123 ∷ 125 ∷ []))
unfolding lookup string_eq
add_member-joined_example =
    add_member-joined "g1" "bob" "member" "bob" tables group tables_work member_is_role g1_is_stored

-- A database of version 4, without the columns of the owner.
abbrev version_4 : Schema
version_4 = record {
  has_version_table = true;
  version = some 4;
  has_devices = false;
  has_owner_columns = false;
  allows_removed = false;
}
