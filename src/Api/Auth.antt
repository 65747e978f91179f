-- ===== src/Api/Auth.antt =====
-- crates/cordelia-api/src/lib.rs: what the bearer token protects.
use cordelia_core.Prelude.{String, ◌<>◌, Option, none, some, ◌==◌, false, string_eq, ◌≡◌, refl}
use cordelia_core.Protocol.Messages.{Hashing}
use cordelia_core.Storage.Search.{FullText}
use cordelia_core.Api.State.{AppState, Json, Response, answer, check_auth}
use cordelia_core.Api.Router.{
  Request, router, post_l1_read, post_l1_delete, post_l1_write, post_l1_list, post_l2_read,
  post_l2_delete, post_l2_write, post_l2_search, post_groups_create, post_groups_list,
  post_groups_read, post_groups_delete, post_groups_items, post_groups_add_member,
  post_groups_remove_member, post_groups_update_posture, post_devices_register, post_devices_list,
  post_devices_revoke, post_status, post_peers, post_diagnostics,
}
use cordelia_core.Api.Items.{
  l1_read, l1_write, l1_delete, l1_list, l2_read, l2_write, l2_delete, l2_search,
}
use cordelia_core.Api.Groups.{
  groups_create, groups_list, groups_read, groups_items, groups_delete, groups_add_member,
  groups_remove_member, groups_update_posture,
}
use cordelia_core.Api.Devices.{devices_register, devices_list, devices_revoke}
use cordelia_core.Api.Status.{status, peers, diagnostics}

module _ (j : Json) (h : Hashing) (ft : FullText) where
  refused :
      (auth : Option String) (req : Request j.Value) (state : AppState) (e : Response j.Value)
      → check_auth j.Value state auth ≡ some e
      → router j h ft auth req state ≡ (e, state)
  unfolding router l1_read l1_write l1_delete l1_list l2_read l2_write l2_delete l2_search
      groups_create groups_list groups_read groups_items groups_delete groups_add_member
      groups_remove_member groups_update_posture devices_register devices_list devices_revoke status
      peers diagnostics
  refused auth (post_l1_read user_id) state e shut = rw (router, l1_read, shut) refl
  refused auth (post_l1_delete user_id) state e shut = rw (router, l1_delete, shut) refl
  refused auth (post_l1_write req) state e shut = rw (router, l1_write, shut) refl
  refused auth post_l1_list state e shut = rw (router, l1_list, shut) refl
  refused auth (post_l2_read item_id) state e shut = rw (router, l2_read, shut) refl
  refused auth (post_l2_delete item_id) state e shut = rw (router, l2_delete, shut) refl
  refused auth (post_l2_write req) state e shut = rw (router, l2_write, shut) refl
  refused auth (post_l2_search req) state e shut = rw (router, l2_search, shut) refl
  refused auth (post_groups_create req) state e shut = rw (router, groups_create, shut) refl
  refused auth post_groups_list state e shut = rw (router, groups_list, shut) refl
  refused auth (post_groups_read group_id) state e shut = rw (router, groups_read, shut) refl
  refused auth (post_groups_delete group_id) state e shut = rw (router, groups_delete, shut) refl
  refused auth (post_groups_items req) state e shut = rw (router, groups_items, shut) refl
  refused auth (post_groups_add_member req) state e shut = rw (router, groups_add_member, shut) refl
  refused auth (post_groups_remove_member req) state e shut =
      rw (router, groups_remove_member, shut) refl
  refused auth (post_groups_update_posture req) state e shut =
      rw (router, groups_update_posture, shut) refl
  refused auth (post_devices_register req) state e shut = rw (router, devices_register, shut) refl
  refused auth (post_devices_list entity_id) state e shut = rw (router, devices_list, shut) refl
  refused auth (post_devices_revoke req) state e shut = rw (router, devices_revoke, shut) refl
  refused auth post_status state e shut = rw (router, status, shut) refl
  refused auth post_peers state e shut = rw (router, peers, shut) refl
  refused auth post_diagnostics state e shut = rw (router, diagnostics, shut) refl

-- A request on any route whose header `authorization`, the empty text if there is none, is not `Bearer `
-- and the node's token is answered with status 401, and changes nothing.
pub router-unauthorized :
    (j : Json) (h : Hashing) (ft : FullText) (auth : Option String) (req : Request j.Value)
    (state : AppState)
    → (elim auth [ none ↦ "" | some a ↦ a ] == "Bearer " <> state.bearer_token) ≡ false
    → router j h ft auth req state ≡ (answer j.Value 401 "invalid bearer token", state)
unfolding check_auth
router-unauthorized j h ft auth req state wrong =
    refused j h ft auth req state (answer j.Value 401 "invalid bearer token")
      (rw (check_auth, wrong) refl)
