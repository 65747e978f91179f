-- ===== src/Storage/Devices.antt =====
-- crates/cordelia-storage/src/lib.rs and schema_v5.sql: the table `devices`.
use cordelia_core.Prelude.{
  String, Bool, true, false, not, Option, none, some, List, [], ◌∷◌, filter, if◌then◌else◌, ◌==◌,
  ◌&&◌, ◌||◌, string_eq,
}
use cordelia_core.Prelude.Dict.{Dict, lookup, insert, modify, values}
use cordelia_core.Prelude.Sort.{sort_by}
use cordelia_core.Storage.Rows.{Result, ok, err, sqlite, DeviceRow}
use cordelia_core.Storage.Items.{SqliteStorage, available}
use cordelia_core.Storage.Groups.{by_text}
use cordelia_core.Storage.Members.{is_some}

-- A statement on the table needs the table.
abbrev pub devices_of : SqliteStorage → Result (Dict String DeviceRow)
devices_of s = elim (available s) [
  | some e ↦ err e
  | none ↦ elim s.devices [ none ↦ err (sqlite "no such table: devices") | some d ↦ ok d ]
]

-- `device_type IN ('node', 'browser', 'mobile')`
abbrev pub is_device_type : String → Bool
is_device_type t = t == "node" || (t == "browser" || t == "mobile")

-- The conflict clause keeps the owner, the creation time and the revocation.
abbrev pub registered : String → DeviceRow → Option DeviceRow → DeviceRow
registered clock device none = record device {
  created_at = clock;
  last_seen_at = none;
  revoked_at = none;
}
registered clock device (some old) = record old {
  device_name = device.device_name;
  device_type = device.device_type;
  auth_token_hash = device.auth_token_hash;
}

unfoldable pub register_device : DeviceRow → SqliteStorage → Result (Unit {0}) × SqliteStorage
register_device device s = elim (devices_of s) [
  | err e ↦ (err e, s)
  | ok d ↦
      if is_device_type device.device_type
      then (
        ok tt,
        record s {
          devices =
              some
                (insert device.device_id (registered s.clock device (lookup device.device_id d)) d);
        },
      )
      else (err (sqlite "CHECK constraint failed"), s)
]

-- `ORDER BY created_at DESC`
unfoldable pub list_devices : String → SqliteStorage → Result (List DeviceRow)
list_devices entity_id s = elim (devices_of s) [
  | err e ↦ err e
  | ok d ↦ ok (
      sort_by (λ (a b : DeviceRow). by_text (λ (r : DeviceRow). r.created_at) b a)
        (filter (λ (r : DeviceRow). r.entity_id == entity_id) (values d)))
]

abbrev pub is_live : DeviceRow → Bool
is_live r = not (is_some r.revoked_at)

abbrev pub can_revoke : String → Option DeviceRow → Bool
can_revoke entity_id none = false
can_revoke entity_id (some r) = r.entity_id == entity_id && is_live r

unfoldable pub revoke_device : String → String → SqliteStorage → Result Bool × SqliteStorage
revoke_device entity_id device_id s = elim (devices_of s) [
  | err e ↦ (err e, s)
  | ok d ↦
      if can_revoke entity_id (lookup device_id d)
      then (
        ok true,
        record s {
          devices =
              some (modify device_id (λ (r : DeviceRow). record r { revoked_at = some s.clock }) d);
        },
      )
      else (ok false, s)
]

-- The first row of the answer.
abbrev pub find : (DeviceRow → Bool) → List DeviceRow → Option DeviceRow
find test [] = none
find test (r ∷ rs) = let rest = find test rs in if test r then some r else rest

unfoldable pub get_device_by_token_hash : String → SqliteStorage → Result (Option DeviceRow)
get_device_by_token_hash hash s = elim (devices_of s) [
  | err e ↦ err e
  | ok d ↦ ok (find (λ (r : DeviceRow). r.auth_token_hash == hash && is_live r) (values d))
]
