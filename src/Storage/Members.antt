-- ===== src/Storage/Members.antt =====
-- crates/cordelia-storage/src/lib.rs and schema_v4.sql: `l1_hot`, and the calls that touch more than one
-- table. Foreign keys are on: `group_members` refers to `groups` and to `l1_hot`.
use cordelia_core.Prelude.{
  ℕ, String, Bool, true, false, not, Option, none, some, List, [], ◌∷◌, filter, any, length,
  if◌then◌else◌, ◌==◌, ◌&&◌, ◌||◌, string_eq,
}
use cordelia_core.Prelude.Dict.{Dict, lookup, insert, remove, keys}
use cordelia_core.Prelude.Sort.{sort_by}
use cordelia_core.Prelude.Text.{text_leb}
use cordelia_core.Protocol.Messages.{Bytes}
use cordelia_core.Storage.Rows.{Result, ok, err, sqlite, GroupRow, GroupMemberRow}
use cordelia_core.Storage.Items.{SqliteStorage, available}
use cordelia_core.Storage.Groups.{by_text, is_member}

unfoldable pub read_l1 : String → SqliteStorage → Result (Option Bytes)
read_l1 user_id s = elim (available s) [ none ↦ ok (lookup user_id s.l1_hot) | some e ↦ err e ]

unfoldable pub write_l1 : String → Bytes → SqliteStorage → Result (Unit {0}) × SqliteStorage
write_l1 user_id bytes s = elim (available s) [
  | some e ↦ (err e, s)
  | none ↦ (ok tt, record s { l1_hot = insert user_id bytes s.l1_hot })
]

abbrev pub is_some {ℓ} : {A : Type ℓ} → Option A → Bool
is_some none = false
is_some (some a) = true

-- The row that `FOREIGN KEY (entity_id) REFERENCES l1_hot(user_id)` keeps SQLite from deleting.
abbrev pub is_referred : String → SqliteStorage → Bool
is_referred user_id s = any (λ (m : GroupMemberRow). m.entity_id == user_id) s.group_members

-- The statement deletes the row, unless SQLite refuses it for the foreign key.
unfoldable pub delete_l1 : String → SqliteStorage → Result Bool × SqliteStorage
delete_l1 user_id s = elim (available s) [
  | some e ↦ (err e, s)
  | none ↦
      if is_some (lookup user_id s.l1_hot) && is_referred user_id s
      then (err (sqlite "FOREIGN KEY constraint failed"), s)
      else (ok (is_some (lookup user_id s.l1_hot)), record s { l1_hot = remove user_id s.l1_hot })
]

unfoldable pub list_l1_users : SqliteStorage → Result (List String)
list_l1_users s = elim (available s) [
  | none ↦ ok (sort_by (by_text (λ id. id)) (keys s.l1_hot))
  | some e ↦ err e
]

unfoldable pub read_l2_index : SqliteStorage → Result (Option Bytes)
read_l2_index s = elim (available s) [ none ↦ ok s.l2_index | some e ↦ err e ]

unfoldable pub write_l2_index : Bytes → SqliteStorage → Result (Unit {0}) × SqliteStorage
write_l2_index bytes s = elim (available s) [
  | some e ↦ (err e, s)
  | none ↦ (ok tt, record s { l2_index = some bytes })
]

-- `INSERT OR IGNORE`: the two bytes of `{}` for a user who is not there.
abbrev pub with_stub : String → Dict String Bytes → Dict String Bytes
with_stub user_id l1 =
    if is_some (lookup user_id l1) then l1 else insert user_id (123 ∷ 125 ∷ []) l1

-- `role IN ('owner', 'admin', 'member', 'viewer')`
abbrev pub is_role : String → Bool
is_role r = r == "owner" || (r == "admin" || (r == "member" || r == "viewer"))

-- The conflict clause sets the role and the posture, and keeps the time of joining.
unfoldable pub upsert_member : String → GroupMemberRow → List GroupMemberRow → List GroupMemberRow
upsert_member role new [] = new ∷ []
upsert_member role new (m ∷ ms) =
    let rest = upsert_member role new ms in
    if is_member new.group_id new.entity_id m
    then record m { role = role; posture = some "active" } ∷ ms
    else m ∷ rest

abbrev pub new_member : String → String → String → String → GroupMemberRow
new_member clock group_id entity_id role = record {
  group_id = group_id;
  entity_id = entity_id;
  role = role;
  posture = some "active";
  joined_at = clock;
}

-- `FOREIGN KEY (group_id) REFERENCES groups(id)` and `FOREIGN KEY (entity_id) REFERENCES l1_hot(user_id)`,
-- which SQLite enforces as the pragma of the connection asks.
abbrev pub refers : GroupMemberRow → SqliteStorage → Bool
refers m s = is_some (lookup m.group_id s.groups) && is_some (lookup m.entity_id s.l1_hot)

-- Two statements: the stub stays when the second one fails.
unfoldable pub add_member :
    String → String → String → SqliteStorage → Result (Unit {0}) × SqliteStorage
unfolding upsert_member
add_member group_id entity_id role s = elim (available s) [
  | some e ↦ (err e, s)
  | none ↦
      let stub : SqliteStorage = record s { l1_hot = with_stub entity_id s.l1_hot } in
      if not (is_role role)
      then (err (sqlite "CHECK constraint failed"), stub)
      else if not (refers (new_member s.clock group_id entity_id role) stub)
      then (err (sqlite "FOREIGN KEY constraint failed"), stub)
      else (
        ok tt,
        record stub {
          group_members =
              upsert_member role (new_member s.clock group_id entity_id role) s.group_members;
        },
      )
]

-- A tombstone that was last written before the cutoff.
abbrev pub is_purged : String → String → Option GroupRow → Bool
is_purged culture cutoff none = false
is_purged culture cutoff (some row) = row.culture == culture && not (text_leb cutoff row.updated_at)

abbrev pub keep_groups : (GroupRow → Bool) → Dict String GroupRow → Dict String GroupRow
keep_groups test [] = []
keep_groups test ((id, row) ∷ d) =
    let rest = keep_groups test d in if test row then (id, row) ∷ rest else rest

-- `datetime('now', '-N days')` is `days_before now N`. The members go first.
unfoldable pub purge_deleted_groups :
    (String → ℕ → String) → String → ℕ → SqliteStorage → Result ℕ × SqliteStorage
purge_deleted_groups days_before culture retention_days s = elim (available s) [
  | some e ↦ (err e, s)
  | none ↦
      let cutoff = days_before s.clock retention_days in
      let kept =
        keep_groups (λ (row : GroupRow). not (is_purged culture cutoff (some row))) s.groups in
      (
        ok (
            length
              (filter (λ (g : String × GroupRow). is_purged culture cutoff (some g.1)) s.groups)),
        record s {
          group_members =
              filter
                (λ (m : GroupMemberRow).
                  not (is_purged culture cutoff (lookup m.group_id s.groups)))
                s.group_members;
          groups = kept;
        },
      )
]
