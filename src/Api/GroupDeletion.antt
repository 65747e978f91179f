-- ===== src/Api/GroupDeletion.antt =====
-- crates/cordelia-api/src/lib.rs: what is left of a group that is deleted.
use mathlib.Core.Option.{some-injective}
use cordelia_core.Prelude.{
  String, true, false, not, Option, none, some, List, [], ◌∷◌, filter, contains, ◌==◌, string_eq,
  ◌≡◌, refl, arith, ap, sym, subst, ◌∙◌, Option-cases, for_each_inv, inl, inr, ==-self,
}
use cordelia_core.Prelude.Dict.{lookup}
use cordelia_core.Protocol.Messages.{group_tombstone_culture}
use cordelia_core.Storage.Rows.{Result, Result-cases, ok, GroupRow, GroupMemberRow, AccessLogEntry}
use cordelia_core.Storage.Items.{SqliteStorage, available, log_access}
use cordelia_core.Storage.Groups.{
  write_group, written_group, read_group, list_members, update_member_posture,
}
use cordelia_core.Swarm.Descriptors.{remove_members}
use cordelia_core.Swarm.Tombstone.{remove_members_lem, write_group-available}
use cordelia_core.Swarm.Announced.{read-write_group, written_group-culture}
use cordelia_core.Api.State.{AppState, Json, Response, answer, check_auth, with_storage, logged}
use cordelia_core.Api.Groups.{
  groups_read, groups_delete, group_deleted, group_entry, unshare_group, is_deleted,
}

contains-filter_ne :
    (id : String) (ids : List String) → contains (filter (λ g. not (g == id)) ids) id ≡ false
contains-filter_ne id [] = refl
contains-filter_ne id (g ∷ ids) = ground (arith, contains-filter_ne id ids)

read-update_posture :
    (id group_id entity_id posture : String) (s : SqliteStorage)
    → read_group id (update_member_posture group_id entity_id posture s).1 ≡ read_group id s
unfolding read_group update_member_posture available
read-update_posture id group_id entity_id posture s = ground arith

read-log :
    (id : String) (entry : AccessLogEntry) (s : SqliteStorage)
    → read_group id (log_access entry s).1 ≡ read_group id s
unfolding read_group log_access available
read-log id entry s = ground arith

members-log :
    (id : String) (entry : AccessLogEntry) (s : SqliteStorage)
    → list_members id (log_access entry s).1 ≡ list_members id s
unfolding list_members log_access available
members-log id entry s = ground arith

read-remove_members :
    (id group_id : String) (s : SqliteStorage)
    → read_group id (remove_members group_id s) ≡ read_group id s
unfolding remove_members
read-remove_members id group_id s = elim (Result-cases (list_members group_id s)) [
  | inr (e, down) ↦ rw (remove_members, down) refl
  | inl (ms, up) ↦
      rw (remove_members, up)
        (for_each_inv (λ s'. read_group id s' ≡ read_group id s)
          (λ (m : GroupMemberRow) (s : SqliteStorage).
            (update_member_posture group_id m.entity_id "removed" s).1)
          (λ m s' same. read-update_posture id group_id m.entity_id "removed" s' ∙ same) ms s refl)
]

unshare_group-storage :
    (id : String) (state : AppState) → (unshare_group id state).storage ≡ state.storage
unshare_group-storage id state = elim (Option-cases state.shared_groups) [
  | inl e ↦ rw e refl
  | inr (ids, e) ↦ rw e refl
]

-- The group is gone for whoever asks.
abbrev pub IsGone : (j : Json) → String → Option String → AppState → Type 0
IsGone j id auth state =
    (list_members id state.storage ≡ ok [])
    × (groups_read j auth id state ≡ (answer j.Value 404 "group not found", state))
    × ((ids : List String) → state.shared_groups ≡ some ids → contains ids id ≡ false)

module _ (j : Json) where
  read_deleted :
      (auth : Option String) (id : String) (g : GroupRow) (state : AppState)
      → check_auth j.Value state auth ≡ none
      → read_group id state.storage ≡ ok (some g)
      → is_deleted g ≡ true
      → groups_read j auth id state ≡ (answer j.Value 404 "group not found", state)
  unfolding groups_read
  read_deleted auth id g state valid there dead = rw (groups_read, valid, there, dead) refl

  token :
      (auth : Option String) (id : String) (state : AppState) (entry : AccessLogEntry)
      → check_auth j.Value (logged entry (unshare_group id state)) auth
        ≡ check_auth j.Value state auth
  unfolding check_auth
  token auth id state entry = elim (Option-cases state.shared_groups) [
    | inl e ↦ rw e refl
    | inr (ids, e) ↦ rw e refl
  ]

  unshared :
      (id : String) (state : AppState) (entry : AccessLogEntry) (ids : List String)
      → (logged entry (unshare_group id state)).shared_groups ≡ some ids
      → contains ids id ≡ false
  unshared id state entry ids e = elim (Option-cases state.shared_groups) [
    | inl alone ↦ absurd (ground arith)
    | inr (before, shared) ↦
        let kept : (unshare_group id state).shared_groups
            ≡ some (filter (λ g. not (g == id)) before) =
          rw shared refl in
        subst (λ gs. contains gs id ≡ false)
          (some-injective (filter (λ g. not (g == id)) before) ids (sym kept ∙ e))
          (contains-filter_ne id before)
  ]

  row_deleted :
      (id : String) (state : AppState) (s : SqliteStorage) (g : GroupRow)
      → read_group id s ≡ ok (some g)
      → read_group id (group_deleted j id state (ok tt, s)).1.storage ≡ ok (some g)
  row_deleted id state s g there =
      let left = remove_members id s in
      read-log id (group_entry state "delete_group" id "tombstone")
        (unshare_group id (with_storage state left)).storage
      ∙ (ap (read_group id) (unshare_group-storage id (with_storage state left))
          ∙ (read-remove_members id id s ∙ there))

  deleted_lem :
      (auth : Option String) (id : String) (state : AppState) (s : SqliteStorage) (g : GroupRow)
      → check_auth j.Value state auth ≡ none
      → available s ≡ none
      → read_group id s ≡ ok (some g)
      → is_deleted g ≡ true
      → IsGone j id auth (group_deleted j id state (ok tt, s)).1
  unfolding check_auth
  deleted_lem auth id state s g valid up there dead =
      let entry = group_entry state "delete_group" id "tombstone" in
      let left = remove_members id s in
      let same : (unshare_group id (with_storage state left)).storage ≡ left =
        unshare_group-storage id (with_storage state left) in
      let read = row_deleted id state s g there in
      (
        members-log id entry (unshare_group id (with_storage state left)).storage
            ∙ (ap (list_members id) same ∙ remove_members_lem id s up),
        read_deleted auth id g (group_deleted j id state (ok tt, s)).1
            (token auth id (with_storage state left) entry ∙ valid) read dead,
        unshared id (with_storage state left) entry,
      )

  groups_delete-eq :
      (auth : Option String) (id : String) (g : GroupRow) (state : AppState)
      → check_auth j.Value state auth ≡ none
      → available state.storage ≡ none
      → read_group id state.storage ≡ ok (some g)
      → groups_delete j auth id state
        ≡ group_deleted j id state
            (ok tt, (write_group id id group_tombstone_culture "{}" state.storage).1)
  unfolding groups_delete
  groups_delete-eq auth id g state valid up there =
      let w = write_group id id group_tombstone_culture "{}" state.storage in
      rw (groups_delete, valid, there)
        (ap (λ (r : Result (Unit {0})). group_deleted j id state (r, w.1))
          (write_group-available id id group_tombstone_culture "{}" state.storage up).0)

  -- While the storage works, deleting a group that is stored, with the right token, is answered with 200;
  -- then no members are listed for it, reading it is answered with 404, and it is not among the groups
  -- that are shared with the other tasks.
  pub groups_delete-IsGone :
      (auth : Option String) (id : String) (g : GroupRow) (state : AppState)
      → check_auth j.Value state auth ≡ none
      → available state.storage ≡ none
      → read_group id state.storage ≡ ok (some g)
      → ((groups_delete j auth id state).0.status ≡ 200)
        × IsGone j id auth (groups_delete j auth id state).1
  unfolding groups_delete
  groups_delete-IsGone auth id g state valid up there =
      let w = write_group id id group_tombstone_culture "{}" state.storage in
      let (done, up') = write_group-available id id group_tombstone_culture "{}" state.storage up in
      let old = lookup id state.storage.groups in
      let dead : is_deleted
            (written_group state.storage.clock id id group_tombstone_culture "{}" old)
          ≡ true =
        rw (written_group-culture state.storage.clock id id group_tombstone_culture "{}" old)
          (==-self {A = String} "__deleted__") in
      let kept =
        deleted_lem auth id state w.1 _ valid up'
          (read-write_group id id group_tombstone_culture "{}" state.storage up) dead in
      subst (λ (a : Response j.Value × AppState). (a.0.status ≡ 200) × IsGone j id auth a.1)
        (sym (groups_delete-eq auth id g state valid up there)) (refl, kept)

  -- The row that the deletion leaves.
  pub groups_delete-row :
      (auth : Option String) (id : String) (g : GroupRow) (state : AppState)
      → check_auth j.Value state auth ≡ none
      → available state.storage ≡ none
      → read_group id state.storage ≡ ok (some g)
      → read_group id (groups_delete j auth id state).1.storage
        ≡ ok (
            some (
              written_group state.storage.clock id id group_tombstone_culture "{}"
                (lookup id state.storage.groups)))
  groups_delete-row auth id g state valid up there =
      let w = write_group id id group_tombstone_culture "{}" state.storage in
      ap (λ (a : Response j.Value × AppState). read_group id a.1.storage)
        (groups_delete-eq auth id g state valid up there)
      ∙ row_deleted id state w.1 _
          (read-write_group id id group_tombstone_culture "{}" state.storage up)
