-- ===== src/Api/Devices.antt =====
-- crates/cordelia-api/src/lib.rs: the handlers of devices.
use cordelia_core.Prelude.{
  String, Bool, true, false, not, Option, none, some, map, if◌then◌else◌, ◌==◌, ◌||◌, string_eq,
}
use cordelia_core.Storage.Rows.{Result, ok, err, DeviceRow, AccessLogEntry}
use cordelia_core.Storage.Items.{SqliteStorage}
use cordelia_core.Storage.Devices.{register_device, list_devices, revoke_device}
use cordelia_core.Api.State.{
  AppState, Json, Response, RedactedDevice, accepted, device_list, answer, json, check_auth,
  with_storage, logged,
}
use cordelia_core.Api.Requests.{DeviceRegisterRequest, DeviceRevokeRequest}

abbrev pub is_valid_device_type : String → Bool
is_valid_device_type t = t == "node" || (t == "browser" || t == "mobile")

abbrev pub device_of : DeviceRegisterRequest → DeviceRow
device_of req = record {
  device_id = req.device_id;
  entity_id = req.entity_id;
  device_name = req.device_name;
  device_type = req.device_type;
  auth_token_hash = req.auth_token_hash;
  created_at = "";
  last_seen_at = none;
  revoked_at = none;
}

abbrev pub device_entry : String → String → String → Option String → AccessLogEntry
device_entry action entity_id device_id detail = record {
  entity_id = entity_id;
  action = action;
  resource_type = "device";
  resource_id = some device_id;
  group_id = none;
  detail = detail;
}

abbrev pub redacted : DeviceRow → RedactedDevice
redacted d = record {
  device_id = d.device_id;
  entity_id = d.entity_id;
  device_name = d.device_name;
  device_type = d.device_type;
  created_at = d.created_at;
  last_seen_at = d.last_seen_at;
  revoked_at = d.revoked_at;
}

module _ (j : Json) where
  abbrev pub Answer : Type 0
  Answer = Response j.Value × AppState

  abbrev pub device_registered :
      DeviceRegisterRequest
      → AppState
      → Result (Unit {0}) × SqliteStorage
      → Response j.Value × AppState
  device_registered req state (err e, s) = (answer j.Value 500 (j.of_error e), with_storage state s)
  device_registered req state (ok done, s) = (
    json accepted,
    logged (device_entry "register_device" req.entity_id req.device_id req.device_name)
        (with_storage state s),
  )

  unfoldable pub devices_register : Option String → DeviceRegisterRequest → AppState → Answer
  devices_register auth req state = elim (check_auth j.Value state auth) [
    | some e ↦ (e, state)
    | none ↦
        if not (is_valid_device_type req.device_type)
        then (answer j.Value 400 "invalid device_type: must be node, browser, or mobile", state)
        else device_registered req state (register_device (device_of req) state.storage)
  ]

  unfoldable pub devices_list : Option String → String → AppState → Answer
  devices_list auth entity_id state = elim (check_auth j.Value state auth) [
    | some e ↦ (e, state)
    | none ↦ elim (list_devices entity_id state.storage) [
      | err e ↦ (answer j.Value 500 (j.of_error e), state)
      | ok devices ↦ (json (device_list (map redacted devices)), state)
    ]
  ]

  abbrev pub device_revoked :
      DeviceRevokeRequest → AppState → Result Bool × SqliteStorage → Response j.Value × AppState
  device_revoked req state (err e, s) = (answer j.Value 500 (j.of_error e), with_storage state s)
  device_revoked req state (ok false, s) =
      (answer j.Value 404 "device not found or already revoked", with_storage state s)
  device_revoked req state (ok true, s) = (
    json accepted,
    logged (device_entry "revoke_device" req.entity_id req.device_id none) (with_storage state s),
  )

  unfoldable pub devices_revoke : Option String → DeviceRevokeRequest → AppState → Answer
  devices_revoke auth req state = elim (check_auth j.Value state auth) [
    | some e ↦ (e, state)
    | none ↦ device_revoked req state (revoke_device req.entity_id req.device_id state.storage)
  ]
