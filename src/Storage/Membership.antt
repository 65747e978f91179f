-- ===== src/Storage/Membership.antt =====
-- crates/cordelia-storage/src/lib.rs: who is a member once `add_member` returned.
use cordelia_core.Prelude.{
  String, Bool, true, false, Option, none, some, List, [], ◌∷◌, if◌then◌else◌, ◌==◌, ◌≡◌, refl,
  arith, string_eq, Bool-cases, inl, inr, Option-cases, subst, ==-self, if_split,
}
use cordelia_core.Prelude.Dict.{Dict, lookup, lookup-insert}
use cordelia_core.Protocol.Messages.{Bytes}
use cordelia_core.Storage.Rows.{ok, GroupRow, GroupMemberRow}
use cordelia_core.Storage.Items.{SqliteStorage, available}
use cordelia_core.Storage.Groups.{is_member}
use cordelia_core.Storage.Members.{
  is_some, with_stub, is_role, upsert_member, new_member, add_member,
}

-- The row of an entity in a group, if there is one.
abbrev pub find_member : String → String → List GroupMemberRow → Option GroupMemberRow
find_member group_id entity_id [] = none
find_member group_id entity_id (m ∷ ms) =
    let rest = find_member group_id entity_id ms in
    if is_member group_id entity_id m then some m else rest

-- With the role that was asked for, active, and since the first time it joined.
abbrev pub joined : String → String → String → String → Option GroupMemberRow → GroupMemberRow
joined clock group_id entity_id role none = new_member clock group_id entity_id role
joined clock group_id entity_id role (some m) = record m { role = role; posture = some "active" }

is_member_self :
    (clock group_id entity_id role : String)
    → is_member group_id entity_id (new_member clock group_id entity_id role) ≡ true
is_member_self clock group_id entity_id role = ground (arith, ==-self group_id, ==-self entity_id)

find-upsert_member :
    (clock g e role : String) (ms : List GroupMemberRow)
    → find_member g e (upsert_member role (new_member clock g e role) ms)
      ≡ some (joined clock g e role (find_member g e ms))
unfolding upsert_member
find-upsert_member clock g e role [] = rw (is_member_self clock g e role) refl
find-upsert_member clock g e role (m ∷ ms) = elim (Bool-cases (is_member g e m)) [
  | inl hit ↦ rw hit (rw hit refl)
  | inr miss ↦ rw miss (rw miss (find-upsert_member clock g e role ms))
]

stub_is_there :
    (id : String) (l1 : Dict String Bytes) → is_some (lookup id (with_stub id l1)) ≡ true
stub_is_there id l1 =
    if_split (λ (d : Dict String Bytes). is_some (lookup id d) ≡ true) (is_some (lookup id l1)) l1 _
      (λ there. there) (λ missing. rw (lookup-insert id id (123 ∷ 125 ∷ []) l1, ==-self id) refl)

-- A user's data stays; the user who joins gets the two bytes of `{}` if there is none.
abbrev pub or_stub : Bool → Option Bytes → Option Bytes
or_stub is_joining (some bytes) = some bytes
or_stub true none = some (123 ∷ 125 ∷ [])
or_stub false none = none

lookup-with_stub :
    (user id : String) (l1 : Dict String Bytes)
    → lookup user (with_stub id l1) ≡ or_stub (id == user) (lookup user l1)
lookup-with_stub user id l1 = elim (Option-cases (lookup id l1)) [
  | inl missing ↦ elim (Bool-cases (id == user)) [
    | inl same ↦
        let same' : id ≡ user = ground arith in
        let missing' : lookup user l1 ≡ none = subst (λ u. lookup u l1 ≡ none) same' missing in
        rw (missing, lookup-insert user id (123 ∷ 125 ∷ []) l1, same, missing') refl
    | inr other ↦
        rw (missing, lookup-insert user id (123 ∷ 125 ∷ []) l1, other) (unstubbed (lookup user l1))
  ]
  | inr (bytes, there) ↦ elim (Bool-cases (id == user)) [
    | inl same ↦
        let same' : id ≡ user = ground arith in
        let there' : lookup user l1 ≡ some bytes =
          subst (λ u. lookup u l1 ≡ some bytes) same' there in
        rw (there, there') refl
    | inr other ↦ rw (there, other) (unstubbed (lookup user l1))
  ]
]
  where
    unstubbed : (o : Option Bytes) → o ≡ or_stub false o
    unstubbed none = refl
    unstubbed (some d) = refl

-- With a working database, a known role and a stored group, add_member succeeds whoever is added: the stub
-- satisfies the foreign key. The entity is then a member with that role, active, and since the first time
-- it joined; every user's data is as before, but that the one who joins gets a stub if there is none.
pub add_member-joined :
    (group_id entity_id role user : String) (s : SqliteStorage) (row : GroupRow)
    → available s ≡ none
    → is_role role ≡ true
    → lookup group_id s.groups ≡ some row
    → ((add_member group_id entity_id role s).0 ≡ ok tt)
      × (find_member group_id entity_id (add_member group_id entity_id role s).1.group_members
          ≡ some (
              joined s.clock group_id entity_id role
                (find_member group_id entity_id s.group_members)))
      × (lookup user (add_member group_id entity_id role s).1.l1_hot
          ≡ or_stub (entity_id == user) (lookup user s.l1_hot))
unfolding add_member
add_member-joined group_id entity_id role user s row up known there =
    rw (add_member, up, known, there, stub_is_there entity_id s.l1_hot)
      (
        refl,
        find-upsert_member s.clock group_id entity_id role s.group_members,
        lookup-with_stub user entity_id s.l1_hot,
      )
