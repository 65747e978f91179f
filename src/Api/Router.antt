-- ===== src/Api/Router.antt =====
-- crates/cordelia-api/src/lib.rs: `router`, a constructor for each route.
use cordelia_core.Prelude.{String, Option}
use cordelia_core.Protocol.Messages.{Hashing}
use cordelia_core.Storage.Search.{FullText}
use cordelia_core.Api.State.{AppState, Json, Response}
use cordelia_core.Api.Requests.{
  L1WriteRequest, L2WriteRequest, L2SearchRequest, GroupItemsRequest, GroupCreateRequest,
  GroupAddMemberRequest, GroupRemoveMemberRequest, GroupUpdatePostureRequest, DeviceRegisterRequest,
  DeviceRevokeRequest,
}
use cordelia_core.Api.Items.{
  l1_read, l1_write, l1_delete, l1_list, l2_read, l2_write, l2_delete, l2_search,
}
use cordelia_core.Api.Groups.{
  groups_create, groups_list, groups_read, groups_items, groups_delete, groups_add_member,
  groups_remove_member, groups_update_posture,
}
use cordelia_core.Api.Devices.{devices_register, devices_list, devices_revoke}
use cordelia_core.Api.Status.{status, peers, diagnostics}

pub data Request (V : Type 0) : Type 0 where
  post_l1_read post_l1_delete : String → Request V
  post_l1_write : L1WriteRequest V → Request V
  post_l1_list : Request V
  post_l2_read post_l2_delete : String → Request V
  post_l2_write : L2WriteRequest V → Request V
  post_l2_search : L2SearchRequest → Request V
  post_groups_create : GroupCreateRequest → Request V
  post_groups_list : Request V
  post_groups_read post_groups_delete : String → Request V
  post_groups_items : GroupItemsRequest → Request V
  post_groups_add_member : GroupAddMemberRequest → Request V
  post_groups_remove_member : GroupRemoveMemberRequest → Request V
  post_groups_update_posture : GroupUpdatePostureRequest → Request V
  post_devices_register : DeviceRegisterRequest → Request V
  post_devices_list : String → Request V
  post_devices_revoke : DeviceRevokeRequest → Request V
  post_status post_peers post_diagnostics : Request V

unfoldable pub router :
    (j : Json)
    → Hashing
    → FullText
    → Option String
    → Request j.Value
    → AppState
    → Response j.Value × AppState
router j h ft auth (post_l1_read user_id) state = l1_read j h ft auth user_id state
router j h ft auth (post_l1_delete user_id) state = l1_delete j h ft auth user_id state
router j h ft auth (post_l1_write req) state = l1_write j h ft auth req state
router j h ft auth post_l1_list state = l1_list j h ft auth state
router j h ft auth (post_l2_read item_id) state = l2_read j h ft auth item_id state
router j h ft auth (post_l2_delete item_id) state = l2_delete j h ft auth item_id state
router j h ft auth (post_l2_write req) state = l2_write j h ft auth req state
router j h ft auth (post_l2_search req) state = l2_search j h ft auth req state
router j h ft auth (post_groups_create req) state = groups_create j auth req state
router j h ft auth post_groups_list state = groups_list j auth state
router j h ft auth (post_groups_read group_id) state = groups_read j auth group_id state
router j h ft auth (post_groups_delete group_id) state = groups_delete j auth group_id state
router j h ft auth (post_groups_items req) state = groups_items j auth req state
router j h ft auth (post_groups_add_member req) state = groups_add_member j auth req state
router j h ft auth (post_groups_remove_member req) state = groups_remove_member j auth req state
router j h ft auth (post_groups_update_posture req) state = groups_update_posture j auth req state
router j h ft auth (post_devices_register req) state = devices_register j auth req state
router j h ft auth (post_devices_list entity_id) state = devices_list j auth entity_id state
router j h ft auth (post_devices_revoke req) state = devices_revoke j auth req state
router j h ft auth post_status state = status j auth state
router j h ft auth post_peers state = peers j auth state
router j h ft auth post_diagnostics state = diagnostics j auth state
