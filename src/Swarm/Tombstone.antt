-- ===== src/Swarm/Tombstone.antt =====
-- crates/cordelia-node/src/swarm_task.rs: the deletion of a group by a descriptor.
use cordelia_core.Prelude.{
  String, Bool, true, false, none, some, List, [], ◌∷◌, ◌++◌, for_each, any, if◌then◌else◌, ◌==◌,
  ◌&&◌, ◌||◌, string_eq, ◌≡◌, refl, arith, filter, All, All-imp, map, ap, sym, ◌∙◌, Ordering,
  ==-self, Bool-cases, if_split, ◌⊎◌, inl, inr,
}
use cordelia_core.Prelude.Sort.{sort_by, insert_by}
use cordelia_core.Protocol.Messages.{Hashing, GroupDescriptor, is_tombstone, verify_checksum}
use cordelia_core.Storage.Rows.{Result, ok, err, GroupMemberRow}
use cordelia_core.Storage.Items.{SqliteStorage, available}
use cordelia_core.Storage.Groups.{
  by_text, write_group, write_group_signature, read_group, list_members, update_member_posture,
  is_present, is_member, is_posture, with_posture,
}
use cordelia_core.Swarm.Descriptors.{
  MergeResult, Signing, name_for, sign_group, remove_members, written, signature_holds,
  merge_descriptor, is_oversized,
}

module _ {ℓ} {A : Type ℓ} (cmp : A → A → Ordering) (p : A → Bool) where
  any-insert_by : (x : A) (xs : List A) → any p (insert_by cmp x xs) ≡ (p x || any p xs)
  unfolding insert_by
  any-insert_by x [] = ground arith
  any-insert_by x (y ∷ ys) = ground (arith, any-insert_by x ys)

  any-sort_by : (xs : List A) → any p (sort_by cmp xs) ≡ any p xs
  unfolding sort_by
  any-sort_by [] = refl
  any-sort_by (x ∷ xs) = ground (arith, any-insert_by x (sort_by cmp xs), any-sort_by xs)

-- The rows that `list_members` selects.
abbrev is_listed_member : String → GroupMemberRow → Bool
is_listed_member id m = m.group_id == id && is_present m

abbrev same_entity : GroupMemberRow → GroupMemberRow → Bool
same_entity r m = m.entity_id == r.entity_id

-- One row, after the removal of each member of a list.
abbrev removed_by : String → List GroupMemberRow → GroupMemberRow → GroupMemberRow
removed_by id [] r = r
removed_by id (m ∷ ms) r =
    removed_by id ms
      (if is_member id m.entity_id r then record r { posture = some "removed" } else r)

removed_once :
    (id : String) (m : GroupMemberRow) (ms : List GroupMemberRow) (r : GroupMemberRow)
    → (is_listed_member id r ≡ false) ⊎ (any (same_entity r) (m ∷ ms) ≡ true)
    → (is_member id m.entity_id r ≡ false)
    → (is_listed_member id r ≡ false) ⊎ (any (same_entity r) ms ≡ true)
removed_once id m ms r (inl gone) other = inl gone
removed_once id m ms r (inr listed) other = ground arith

removed_row :
    (id : String) (m : GroupMemberRow) (r : GroupMemberRow)
    → is_listed_member id (record r { posture = some "removed" }) ≡ false
removed_row id m r = ground (arith, ==-self {A = String} "removed")

-- A row that is removed, or is among the listed ones, is not selected afterwards.
removed_by_gone :
    (id : String) (ms : List GroupMemberRow) (r : GroupMemberRow)
    → (is_listed_member id r ≡ false) ⊎ (any (same_entity r) ms ≡ true)
    → is_listed_member id (removed_by id ms r) ≡ false
removed_by_gone id [] r (inl gone) = gone
removed_by_gone id [] r (inr listed) = absurd (ground arith)
removed_by_gone id (m ∷ ms) r h =
    if_split (λ r'. is_listed_member id (removed_by id ms r') ≡ false) (is_member id m.entity_id r)
      _ _
      (λ hit.
        removed_by_gone id ms (record r { posture = some "removed" }) (inl (removed_row id m r)))
      (λ other. removed_by_gone id ms r (removed_once id m ms r h other))

map-removed_by :
    (id : String) (m : GroupMemberRow) (ms rows : List GroupMemberRow)
    → map (removed_by id ms) (with_posture (is_member id m.entity_id) "removed" rows)
      ≡ map (removed_by id (m ∷ ms)) rows
map-removed_by id m ms [] = refl
map-removed_by id m ms (r ∷ rows) =
    ap (λ rs. removed_by id (m ∷ ms) r ∷ rs) (map-removed_by id m ms rows)

map-removed_by_nil : (id : String) (rows : List GroupMemberRow) → map (removed_by id []) rows ≡ rows
map-removed_by_nil id [] = refl
map-removed_by_nil id (r ∷ rows) = ap (λ rs. r ∷ rs) (map-removed_by_nil id rows)

abbrev with_members : SqliteStorage → List GroupMemberRow → SqliteStorage
with_members s rows = record s { group_members = rows }

update_ok :
    (id entity : String) (s : SqliteStorage)
    → available s ≡ none
    → (update_member_posture id entity "removed" s).1
      ≡ with_members s (with_posture (is_member id entity) "removed" s.group_members)
unfolding update_member_posture
update_ok id entity s up =
    let fits : is_posture "removed" ≡ true = ground (arith, ==-self {A = String} "removed") in
    ground arith

still_available :
    (s : SqliteStorage) (rows : List GroupMemberRow)
    → available s ≡ none
    → available (with_members s rows) ≡ none
unfolding available
still_available s rows up = ground arith

remove_loop :
    (id : String) (ms : List GroupMemberRow) (s : SqliteStorage)
    → available s ≡ none
    → for_each ms
        (λ (m : GroupMemberRow) (s : SqliteStorage).
          (update_member_posture id m.entity_id "removed" s).1)
        s
      ≡ with_members s (map (removed_by id ms) s.group_members)
remove_loop id [] s up = ap (with_members s) (sym (map-removed_by_nil id s.group_members))
remove_loop id (m ∷ ms) s up =
    let rows = with_posture (is_member id m.entity_id) "removed" s.group_members in
    ap
      (λ s'.
        for_each ms
          (λ (m : GroupMemberRow) (s : SqliteStorage).
            (update_member_posture id m.entity_id "removed" s).1)
          s')
      (update_ok id m.entity_id s up)
    ∙ (remove_loop id ms (with_members s rows) (still_available s rows up)
        ∙ ap (with_members s) (map-removed_by id m ms s.group_members))

-- Every row that is selected finds its entity among the listed ones.
each_selected :
    (id : String) (rows : List GroupMemberRow)
    → All
        (λ (r : GroupMemberRow).
          is_listed_member id r ≡ true
          → any (same_entity r) (filter (is_listed_member id) rows) ≡ true)
        rows
each_selected id [] = tt
each_selected id (r ∷ rows) = (
  (λ selected. ground (arith, ==-self r.entity_id)),
  All-imp
      (λ (q : GroupMemberRow).
        is_listed_member id q ≡ true
        → any (same_entity q) (filter (is_listed_member id) rows) ≡ true)
      (λ (q : GroupMemberRow).
        is_listed_member id q ≡ true
        → any (same_entity q) (filter (is_listed_member id) (r ∷ rows)) ≡ true)
      (λ q h selected. let listed = h selected in ground arith) rows (each_selected id rows),
)

none_selected :
    (id : String) (ms rows : List GroupMemberRow)
    → All
        (λ (r : GroupMemberRow). is_listed_member id r ≡ true → any (same_entity r) ms ≡ true)
        rows
    → filter (is_listed_member id) (map (removed_by id ms) rows) ≡ []
none_selected id ms [] h = refl
none_selected id ms (r ∷ rows) h =
    let gone : is_listed_member id (removed_by id ms r) ≡ false =
      elim (Bool-cases (is_listed_member id r)) [
        | inl selected ↦ removed_by_gone id ms r (inr (h.0 selected))
        | inr unselected ↦ removed_by_gone id ms r (inl unselected)
      ] in
    rw (gone, none_selected id ms rows h.1) refl

list_members_ok :
    (id : String) (s : SqliteStorage)
    → available s ≡ none
    → list_members id s
      ≡ ok (
          sort_by
            (by_text (λ (m : GroupMemberRow). m.entity_id))
            (filter (is_listed_member id) s.group_members))
unfolding list_members
list_members_ok id s up = rw (list_members, up) refl

pub remove_members_lem :
    (id : String) (s : SqliteStorage)
    → available s ≡ none
    → list_members id (remove_members id s) ≡ ok []
unfolding remove_members sort_by
remove_members_lem id s up =
    let cmp = by_text (λ (m : GroupMemberRow). m.entity_id) in
    let selected = filter (is_listed_member id) s.group_members in
    let ms = sort_by cmp selected in
    let rows = map (removed_by id ms) s.group_members in
    let left : remove_members id s ≡ with_members s rows =
      rw (remove_members, list_members_ok id s up) (remove_loop id ms s up) in
    let empty : filter (is_listed_member id) rows ≡ [] = none_selected id ms s.group_members (
      All-imp
        (λ (r : GroupMemberRow). is_listed_member id r ≡ true → any (same_entity r) selected ≡ true)
        (λ (r : GroupMemberRow). is_listed_member id r ≡ true → any (same_entity r) ms ≡ true)
        (λ r h sel. any-sort_by cmp (same_entity r) selected ∙ h sel) s.group_members
        (each_selected id s.group_members)) in
    ap (list_members id) left
    ∙ (list_members_ok id (with_members s rows) (still_available s rows up)
        ∙ ap (λ ms. ok (sort_by cmp ms)) empty)

pub write_group-available :
    (id name culture policy : String) (s : SqliteStorage)
    → available s ≡ none
    → ((write_group id name culture policy s).0 ≡ ok tt)
      × (available (write_group id name culture policy s).1 ≡ none)
unfolding write_group available
write_group-available id name culture policy s up = ground arith

sign_group-available :
    (desc : GroupDescriptor) (s : SqliteStorage)
    → available s ≡ none
    → available (sign_group desc s) ≡ none
unfolding sign_group write_group_signature available
sign_group-available desc s up = ground arith

written_tombstone :
    (desc : GroupDescriptor) (r : MergeResult) (d : Result (Unit {0}) × SqliteStorage)
    → is_tombstone desc ≡ true
    → d.0 ≡ ok tt
    → available d.1 ≡ none
    → (list_members desc.id (written desc r d).1 ≡ ok [])
      × ((written desc r d).0.tombstoned ≡ r.tombstoned ++ desc.id ∷ [])
unfolding written
written_tombstone desc r (err e, s) dead done up = absurd (ground arith)
written_tombstone desc r (ok u, s) dead done up =
    rw (written, dead)
      (remove_members_lem desc.id (sign_group desc s) (sign_group-available desc s up), refl)

-- While the storage works, a tombstone with the right checksum and a signature that holds, to which the
-- local copy gives way, leaves the group without members and is reported as a deletion.
pub merge_descriptor_tombstone :
    (h : Hashing) (sg : Signing) (desc : GroupDescriptor) (r : MergeResult) (s : SqliteStorage)
    (name : String)
    → available s ≡ none
    → verify_checksum h desc ≡ true
    → signature_holds h sg desc ≡ true
    → is_tombstone desc ≡ true
    → name_for (read_group desc.id s) desc ≡ some name
    → (list_members desc.id (merge_descriptor h sg desc (r, s)).1 ≡ ok [])
      × ((merge_descriptor h sg desc (r, s)).0.tombstoned ≡ r.tombstoned ++ desc.id ∷ [])
unfolding merge_descriptor
merge_descriptor_tombstone h sg desc r s name up intact holds dead named =
    let small : is_oversized h sg desc ≡ false = ground arith in
    let (done, up') = write_group-available desc.id name desc.culture "{}" s up in
    rw (merge_descriptor, intact, small, holds, named)
      (written_tombstone desc r (write_group desc.id name desc.culture "{}" s) dead done up')
