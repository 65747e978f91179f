-- ===== src/Swarm/Unverified.antt =====
-- crates/cordelia-node/src/swarm_task.rs: a descriptor with a signature and no owner's key.
use cordelia_core.Prelude.{
  String, true, false, none, some, string_eq, ◌≡◌, inl, inr, refl, arith, Option-cases, ap, sym,
  subst, ◌∙◌,
}
use cordelia_core.Prelude.Text.{text_leb}
use cordelia_core.Prelude.Dict.{lookup, insert, lookup-insert}
use cordelia_core.Protocol.Messages.{Hashing, GroupDescriptor, is_tombstone, verify_checksum}
use cordelia_core.Storage.Rows.{ok, GroupRow}
use cordelia_core.Storage.Items.{SqliteStorage, available}
use cordelia_core.Storage.Groups.{write_group, read_group, written_group}
use cordelia_core.Swarm.Descriptors.{
  MergeResult, Merging, Signing, name_for, sign_group, written, signature_holds, is_oversized,
  merge_descriptor,
}

named_unverified :
    (desc : GroupDescriptor) (row : GroupRow) (sig : String)
    → desc.signature ≡ some sig
    → desc.owner_pubkey ≡ none
    → text_leb desc.updated_at row.updated_at ≡ false
    → name_for (ok (some row)) desc ≡ some row.name
unfolding name_for
named_unverified desc row sig signed anonymous newer = rw (signed, anonymous, newer) (ground arith)

sign_group_anonymous :
    (desc : GroupDescriptor) (s : SqliteStorage) → desc.owner_pubkey ≡ none → sign_group desc s ≡ s
unfolding sign_group
sign_group_anonymous desc s anonymous = elim (Option-cases desc.owner_id) [
  | inl e ↦ rw e refl
  | inr (oid, e) ↦ rw (e, anonymous) refl
]

-- The connection with the row that an upsert leaves.
abbrev with_group : String → GroupRow → SqliteStorage → SqliteStorage
with_group id row s = record s { groups = insert id row s.groups }

write_group_ok :
    (id name culture : String) (s : SqliteStorage) (row : GroupRow)
    → available s ≡ none
    → lookup id s.groups ≡ some row
    → write_group id name culture "{}" s
      ≡ (ok tt, with_group id (written_group s.clock id name culture "{}" (some row)) s)
unfolding write_group
write_group_ok id name culture s row up found = rw (write_group, up, found) refl

read-with_group :
    (id : String) (row : GroupRow) (s : SqliteStorage)
    → available s ≡ none
    → read_group id (with_group id row s) ≡ ok (some row)
unfolding read_group available
read-with_group id row s up = ground (arith, lookup-insert id id row s.groups)

written_live :
    (desc : GroupDescriptor) (r : MergeResult) (s : SqliteStorage)
    → is_tombstone desc ≡ false
    → (written desc r (ok tt, s)).1 ≡ sign_group desc s
unfolding written
written_live desc r s live = rw (written, live) refl

written_upsert :
    (desc : GroupDescriptor) (r : MergeResult) (name : String) (s : SqliteStorage) (row : GroupRow)
    → available s ≡ none
    → lookup desc.id s.groups ≡ some row
    → is_tombstone desc ≡ false
    → desc.owner_pubkey ≡ none
    → read_group desc.id (written desc r (write_group desc.id name desc.culture "{}" s)).1
      ≡ ok (some (written_group s.clock desc.id name desc.culture "{}" (some row)))
written_upsert desc r name s row up found live anonymous =
    let new = written_group s.clock desc.id name desc.culture "{}" (some row) in
    let s' = with_group desc.id new s in
    let state : (written desc r (write_group desc.id name desc.culture "{}" s)).1 ≡ s' =
      ap (λ d. (written desc r d).1) (write_group_ok desc.id name desc.culture s row up found)
      ∙ (written_live desc r s' live ∙ sign_group_anonymous desc s' anonymous) in
    ap (λ c. read_group desc.id c) state ∙ read-with_group desc.id new s up

-- A signed group can be changed without its owner's signature: a newer descriptor whose checksum is
-- right, which carries any signature and no owner's key, and is small and no tombstone, replaces the
-- culture while the storage works.
pub merge_descriptor_unverified :
    (h : Hashing) (sg : Signing) (desc : GroupDescriptor) (r : MergeResult) (s : SqliteStorage)
    (row : GroupRow) (sig : String)
    → available s ≡ none
    → lookup desc.id s.groups ≡ some row
    → verify_checksum h desc ≡ true
    → is_oversized h sg desc ≡ false
    → is_tombstone desc ≡ false
    → desc.signature ≡ some sig
    → desc.owner_pubkey ≡ none
    → text_leb desc.updated_at row.updated_at ≡ false
    → (row' : GroupRow) × (read_group desc.id (merge_descriptor h sg desc (r, s)).1
        ≡ ok (some row'))
      × (row'.culture ≡ desc.culture)
      × (row'.signature ≡ row.signature)
unfolding merge_descriptor read_group signature_holds
merge_descriptor_unverified h sg desc r s row sig up found intact small live signed anonymous
      newer =
    let local : read_group desc.id s ≡ ok (some row) = ground arith in
    let named : name_for (read_group desc.id s) desc ≡ some row.name =
      subst (λ f. name_for f desc ≡ some row.name) (sym local)
        (named_unverified desc row sig signed anonymous newer) in
    let holds : signature_holds h sg desc ≡ true = rw anonymous refl in
    let merged : merge_descriptor h sg desc (r, s)
        ≡ written desc r (write_group desc.id row.name desc.culture "{}" s) =
      rw (merge_descriptor, intact, small, holds, named) refl in
    (
      written_group s.clock desc.id row.name desc.culture "{}" (some row),
      ap (λ (m : Merging). read_group desc.id m.1) merged
          ∙ written_upsert desc r row.name s row up found live anonymous,
      refl,
      refl,
    )
