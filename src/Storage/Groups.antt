-- ===== src/Storage/Groups.antt =====
-- crates/cordelia-storage/src/lib.rs and schema_v4.sql: the tables `groups` and `group_members` of
-- `SqliteStorage`.
use cordelia_core.Prelude.{
  String, Bool, true, false, not, Option, none, some, List, [], ◌∷◌, map, filter, any,
  if◌then◌else◌, ◌==◌, ◌&&◌, ◌||◌, string_eq, option_eq, Ordering,
}
use cordelia_core.Prelude.Dict.{lookup, insert, modify, remove, values}
use cordelia_core.Prelude.Sort.{sort_by}
use cordelia_core.Prelude.Text.{text_leb}
use cordelia_core.Storage.Rows.{Result, ok, err, sqlite, GroupRow, GroupMemberRow}
use cordelia_core.Storage.Items.{SqliteStorage, available}

-- What the conflict clause sets, and what it keeps: the creation time, the owner and the signature.
abbrev pub written_group : String → String → String → String → String → Option GroupRow → GroupRow
written_group clock id name culture security_policy none = record {
  id = id;
  name = name;
  culture = culture;
  security_policy = security_policy;
  created_at = clock;
  updated_at = clock;
  owner_id = none;
  owner_pubkey = none;
  signature = none;
}
written_group clock id name culture security_policy (some row) = record row {
  name = name;
  culture = culture;
  security_policy = security_policy;
  updated_at = clock;
}

unfoldable pub write_group :
    String → String → String → String → SqliteStorage → Result (Unit {0}) × SqliteStorage
write_group id name culture security_policy s = elim (available s) [
  | some e ↦ (err e, s)
  | none ↦ (
    ok tt,
    record s {
      groups =
          insert id (written_group s.clock id name culture security_policy (lookup id s.groups))
            s.groups;
    },
  )
]

-- No row is no error.
unfoldable pub write_group_signature :
    String → String → String → String → SqliteStorage → Result (Unit {0}) × SqliteStorage
write_group_signature id owner_id owner_pubkey signature s = elim (available s) [
  | some e ↦ (err e, s)
  | none ↦ (
    ok tt,
    record s {
      groups =
          modify id
            (λ (row : GroupRow). record row {
              owner_id = some owner_id;
              owner_pubkey = some owner_pubkey;
              signature = some signature;
            })
            s.groups;
    },
  )
]

unfoldable pub read_group : String → SqliteStorage → Result (Option GroupRow)
read_group id s = elim (available s) [ none ↦ ok (lookup id s.groups) | some e ↦ err e ]

-- `ORDER BY` a text.
abbrev pub by_text {ℓ} : {A : Type ℓ} → (A → String) → A → A → Ordering
by_text key a b =
    if text_leb (key a) (key b)
    then (if text_leb (key b) (key a) then Ordering.eq else Ordering.lt)
    else Ordering.gt

unfoldable pub list_groups : SqliteStorage → Result (List GroupRow)
list_groups s = elim (available s) [
  | none ↦ ok (sort_by (by_text (λ (g : GroupRow). g.name)) (values s.groups))
  | some e ↦ err e
]

-- `posture != 'removed'`, which is not true of NULL.
abbrev pub is_present : GroupMemberRow → Bool
is_present m = elim m.posture [ none ↦ false | some p ↦ not (p == "removed") ]

unfoldable pub list_members : String → SqliteStorage → Result (List GroupMemberRow)
list_members group_id s = elim (available s) [
  | none ↦ ok (
      sort_by (by_text (λ (m : GroupMemberRow). m.entity_id))
        (filter (λ (m : GroupMemberRow). m.group_id == group_id && is_present m) s.group_members))
  | some e ↦ err e
]

abbrev pub is_member : String → String → GroupMemberRow → Bool
is_member group_id entity_id m = m.group_id == group_id && m.entity_id == entity_id

abbrev head? {ℓ} : {A : Type ℓ} → List A → Option A
head? [] = none
head? (x ∷ xs) = some x

unfoldable pub get_membership : String → String → SqliteStorage → Result (Option GroupMemberRow)
get_membership group_id entity_id s = elim (available s) [
  | none ↦ ok (
      head? (
        filter (λ (m : GroupMemberRow). is_member group_id entity_id m && is_present m)
          s.group_members))
  | some e ↦ err e
]

-- An UPDATE of the posture of the rows that pass a test.
abbrev pub with_posture :
    (GroupMemberRow → Bool) → String → List GroupMemberRow → List GroupMemberRow
with_posture test posture rows =
    map (λ (m : GroupMemberRow). if test m then record m { posture = some posture } else m) rows

unfoldable pub remove_member : String → String → SqliteStorage → Result Bool × SqliteStorage
remove_member group_id entity_id s = elim (available s) [
  | some e ↦ (err e, s)
  | none ↦
      let test = λ (m : GroupMemberRow). is_member group_id entity_id m && is_present m in
      (
        ok (any test s.group_members),
        record s { group_members = with_posture test "removed" s.group_members },
      )
]

-- `posture IN ('active', 'silent', 'emcon', 'removed')`, checked for each row that is updated.
abbrev pub is_posture : String → Bool
is_posture p = p == "active" || (p == "silent" || (p == "emcon" || p == "removed"))

unfoldable pub update_member_posture :
    String → String → String → SqliteStorage → Result Bool × SqliteStorage
update_member_posture group_id entity_id posture s = elim (available s) [
  | some e ↦ (err e, s)
  | none ↦
      let found = any (is_member group_id entity_id) s.group_members in
      if found && not (is_posture posture) then (err (sqlite "CHECK constraint failed"), s) else (
        ok found,
        record s {
          group_members = with_posture (is_member group_id entity_id) posture s.group_members;
        },
      )
]

-- The members go first, so that the foreign key holds.
unfoldable pub delete_group : String → SqliteStorage → Result Bool × SqliteStorage
delete_group id s = elim (available s) [
  | some e ↦ (err e, s)
  | none ↦ (
    ok (elim (lookup id s.groups) [ none ↦ false | some row ↦ true ]),
    record s {
      group_members = filter (λ (m : GroupMemberRow). not (m.group_id == id)) s.group_members;
      groups = remove id s.groups;
    },
  )
]
