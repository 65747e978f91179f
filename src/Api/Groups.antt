-- ===== src/Api/Groups.antt =====
-- crates/cordelia-api/src/lib.rs: the handlers of groups and their members.
use cordelia_core.Prelude.{
  ℕ, zero, suc, String, ◌<>◌, Bool, true, false, not, Option, none, some, List, [], ◌∷◌, ◌++◌,
  filter, contains, if◌then◌else◌, ◌==◌, ◌||◌, string_eq,
}
use cordelia_core.Protocol.Messages.{group_tombstone_culture}
use cordelia_core.Storage.Rows.{Result, ok, err, GroupRow, GroupMemberRow, AccessLogEntry}
use cordelia_core.Storage.Items.{SqliteStorage, list_group_items}
use cordelia_core.Storage.Groups.{
  write_group, read_group, list_groups, list_members, remove_member, update_member_posture,
}
use cordelia_core.Storage.Members.{add_member}
use cordelia_core.Swarm.Descriptors.{remove_members}
use cordelia_core.Api.State.{
  AppState, Json, Response, accepted, created, group_list, group_detail, item_list, answer, json,
  check_auth, with_storage, logged,
}
use cordelia_core.Api.Requests.{
  GroupItemsRequest, GroupCreateRequest, GroupAddMemberRequest, GroupRemoveMemberRequest,
  GroupUpdatePostureRequest,
}

abbrev pub is_deleted : GroupRow → Bool
is_deleted g = g.culture == group_tombstone_culture

-- `if !groups.contains(id) { groups.push(id) }`, where there is a shared list.
abbrev pub share_group : String → AppState → AppState
share_group id state = elim state.shared_groups [
  | none ↦ state
  | some ids ↦ record state {
    shared_groups = some (if contains ids id then ids else ids ++ id ∷ []);
  }
]

-- `groups.retain(|g| g != id)`
abbrev pub unshare_group : String → AppState → AppState
unshare_group id state = elim state.shared_groups [
  | none ↦ state
  | some ids ↦ record state { shared_groups = some (filter (λ g. not (g == id)) ids) }
]

-- `try_send`, which drops the id when there is no room.
abbrev pub try_send : String → ℕ × List String → ℕ × List String
try_send id (zero, sent) = (zero, sent)
try_send id (suc room, sent) = (room, sent ++ id ∷ [])

abbrev pub request_sync : String → AppState → AppState
request_sync id state = elim state.bootstrap_sync [
  | none ↦ state
  | some tx ↦ record state { bootstrap_sync = some (try_send id tx) }
]

abbrev pub group_entry : AppState → String → String → String → AccessLogEntry
group_entry state action group_id detail = record {
  entity_id = state.entity_id;
  action = action;
  resource_type = "group";
  resource_id = some group_id;
  group_id = some group_id;
  detail = some detail;
}

-- The roles that the handler lets through.
abbrev pub is_valid_role : String → Bool
is_valid_role r = r == "owner" || (r == "admin" || (r == "member" || r == "viewer"))

-- The postures that the handler lets through: `removed` is not one of them.
abbrev pub is_valid_posture : String → Bool
is_valid_posture p = p == "active" || (p == "silent" || p == "emcon")

-- The members, or none when they cannot be read.
abbrev pub members_or_none : Result (List GroupMemberRow) → List GroupMemberRow
members_or_none (err e) = []
members_or_none (ok ms) = ms

module _ (j : Json) where
  abbrev pub Answer : Type 0
  Answer = Response j.Value × AppState

  abbrev pub group_created :
      String → AppState → Result (Unit {0}) × SqliteStorage → Response j.Value × AppState
  group_created id state (ok done, s) =
      (json (created id), request_sync id (share_group id (with_storage state s)))
  group_created id state (err e, s) = (answer j.Value 500 (j.of_error e), with_storage state s)

  unfoldable pub groups_create : Option String → GroupCreateRequest → AppState → Answer
  groups_create auth req state = elim (check_auth j.Value state auth) [
    | some e ↦ (e, state)
    | none ↦
        group_created req.group_id state
          (write_group req.group_id req.name req.culture req.security_policy state.storage)
  ]

  unfoldable pub groups_list : Option String → AppState → Answer
  groups_list auth state = elim (check_auth j.Value state auth) [
    | some e ↦ (e, state)
    | none ↦ elim (list_groups state.storage) [
      | err e ↦ (answer j.Value 500 (j.of_error e), state)
      | ok groups ↦ (json (group_list (filter (λ g. not (is_deleted g)) groups)), state)
    ]
  ]

  unfoldable pub groups_read : Option String → String → AppState → Answer
  groups_read auth group_id state = elim (check_auth j.Value state auth) [
    | some e ↦ (e, state)
    | none ↦ elim (read_group group_id state.storage) [
      | err e ↦ (answer j.Value 500 (j.of_error e), state)
      | ok none ↦ (answer j.Value 404 "group not found", state)
      | ok (some g) ↦ if is_deleted g then (answer j.Value 404 "group not found", state) else (
        json (group_detail g (members_or_none (list_members group_id state.storage))),
        state,
      )
    ]
  ]

  unfoldable pub groups_items : Option String → GroupItemsRequest → AppState → Answer
  groups_items auth req state = elim (check_auth j.Value state auth) [
    | some e ↦ (e, state)
    | none ↦ elim (list_group_items req.group_id req.since req.limit state.storage) [
      | err e ↦ (answer j.Value 500 (j.of_error e), state)
      | ok items ↦ (json (item_list items), state)
    ]
  ]

  -- After the tombstone was written.
  abbrev pub group_deleted :
      String → AppState → Result (Unit {0}) × SqliteStorage → Response j.Value × AppState
  group_deleted id state (err e, s) = (answer j.Value 500 (j.of_error e), with_storage state s)
  group_deleted id state (ok done, s) = (
    json accepted,
    logged (group_entry state "delete_group" id "tombstone")
        (unshare_group id (with_storage state (remove_members id s))),
  )

  unfoldable pub groups_delete : Option String → String → AppState → Answer
  groups_delete auth group_id state = elim (check_auth j.Value state auth) [
    | some e ↦ (e, state)
    | none ↦ elim (read_group group_id state.storage) [
      | err e ↦ (answer j.Value 500 (j.of_error e), state)
      | ok none ↦ (answer j.Value 404 "group not found", state)
      | ok (some g) ↦
          group_deleted group_id state
            (write_group group_id group_id group_tombstone_culture "{}" state.storage)
    ]
  ]

  abbrev pub member_added :
      GroupAddMemberRequest
      → AppState
      → Result (Unit {0}) × SqliteStorage
      → Response j.Value × AppState
  member_added req state (err e, s) = (answer j.Value 500 (j.of_error e), with_storage state s)
  member_added req state (ok done, s) = (
    json accepted,
    logged
        (group_entry state "add_member" req.group_id
          ("entity=" <> (req.entity_id <> (" role=" <> req.role))))
        (with_storage state s),
  )

  unfoldable pub groups_add_member : Option String → GroupAddMemberRequest → AppState → Answer
  groups_add_member auth req state = elim (check_auth j.Value state auth) [
    | some e ↦ (e, state)
    | none ↦
        if not (is_valid_role req.role)
        then (answer j.Value 400 "invalid role: must be owner, admin, member, or viewer", state)
        else member_added req state (add_member req.group_id req.entity_id req.role state.storage)
  ]

  -- The end of the two handlers below.
  abbrev pub member_changed :
      String
      → String
      → String
      → AppState
      → Result Bool × SqliteStorage
      → Response j.Value × AppState
  member_changed action group_id detail state (err e, s) =
      (answer j.Value 500 (j.of_error e), with_storage state s)
  member_changed action group_id detail state (ok false, s) =
      (answer j.Value 404 "member not found", with_storage state s)
  member_changed action group_id detail state (ok true, s) =
      (json accepted, logged (group_entry state action group_id detail) (with_storage state s))

  unfoldable pub groups_remove_member : Option String → GroupRemoveMemberRequest → AppState → Answer
  groups_remove_member auth req state = elim (check_auth j.Value state auth) [
    | some e ↦ (e, state)
    | none ↦
        member_changed "remove_member" req.group_id ("entity=" <> req.entity_id) state
          (remove_member req.group_id req.entity_id state.storage)
  ]

  unfoldable pub groups_update_posture :
      Option String → GroupUpdatePostureRequest → AppState → Answer
  groups_update_posture auth req state = elim (check_auth j.Value state auth) [
    | some e ↦ (e, state)
    | none ↦
        if not (is_valid_posture req.posture)
        then (answer j.Value 400 "invalid posture: must be active, silent, or emcon", state)
        else member_changed "update_posture" req.group_id
            ("entity=" <> (req.entity_id <> (" posture=" <> req.posture))) state
            (update_member_posture req.group_id req.entity_id req.posture state.storage)
  ]
