-- ===== src/Swarm/Merge.antt =====
-- crates/cordelia-node/src/swarm_task.rs: what a received group descriptor can change.
use cordelia_core.Prelude.{
  String, true, false, not, none, some, List, [], ◌∷◌, for_each, string_eq, ◌≡◌, ◌≢◌, ◌⊎◌, inl, inr,
  refl, arith, if_split, for_each_inv, Option-cases, All, subst, ◌∙◌,
}
use cordelia_core.Prelude.Text.{text_leb}
use cordelia_core.Prelude.Dict.{lookup, lookup-insert, lookup-modify}
use cordelia_core.Protocol.Messages.{Hashing, GroupDescriptor, is_tombstone, verify_checksum}
use cordelia_core.Storage.Rows.{Result, ok, err, GroupRow, GroupMemberRow, Result-cases}
use cordelia_core.Storage.Items.{SqliteStorage, available}
use cordelia_core.Storage.Groups.{
  write_group, write_group_signature, read_group, list_members, update_member_posture,
  written_group,
}
use cordelia_core.Swarm.Descriptors.{
  MergeResult, Merging, Signing, name_for, sign_group, remove_members, written, signature_holds,
  verify_descriptor_signature, is_oversized, merge_descriptor, merge_descriptors,
}

module _ (h : Hashing) (sg : Signing) where
  -- What a descriptor that changes a signed group satisfies: its checksum is right, it is signed and
  -- newer, and it names no owner, or the group's owner with a signature that verifies.
  pub record IsAuthorised (pk : String) (row : GroupRow) (desc : GroupDescriptor) : Type 0 where
    pub intact : verify_checksum h desc ≡ true
    pub newer : text_leb desc.updated_at row.updated_at ≡ false
    pub signed :
        (sig : String) × (desc.signature ≡ some sig)
        × ((desc.owner_pubkey ≡ none)
            ⊎ ((desc.owner_pubkey ≡ some pk)
                × (verify_descriptor_signature h sg desc pk sig ≡ true)))

  -- By the branches of the loop's body.
  merge_descriptor_by :
      (desc : GroupDescriptor) (r : MergeResult) (s : SqliteStorage) (P : Merging → Type 0)
      → P (r, s)
      → ((name : String)
          → verify_checksum h desc ≡ true
          → signature_holds h sg desc ≡ true
          → name_for (read_group desc.id s) desc ≡ some name
          → P (written desc r (write_group desc.id name desc.culture "{}" s)))
      → P (merge_descriptor h sg desc (r, s))
  unfolding merge_descriptor
  merge_descriptor_by desc r s P same change =
      if_split P (not (verify_checksum h desc)) _ _ (λ e. same)
        (λ intact.
          if_split P (is_oversized h sg desc) _ _ (λ e. same)
            (λ small.
              if_split P (not (signature_holds h sg desc)) _ _ (λ e. same)
                (λ holds. elim (Option-cases (name_for (read_group desc.id s) desc)) [
                  | inl e ↦ rw e same
                  | inr (name, e) ↦ rw e (change name (ground arith) (ground arith) e)
                ])))

  named_signed :
      (pk sig : String) (row : GroupRow) (desc : GroupDescriptor) (name : String)
      → row.signature ≡ some sig
      → row.owner_pubkey ≡ some pk
      → name_for (ok (some row)) desc ≡ some name
      → signature_holds h sg desc ≡ true
      → verify_checksum h desc ≡ true
      → IsAuthorised pk row desc
  unfolding name_for signature_holds
  named_signed pk sig row desc name signed owned named holds intact = record {
    intact = intact;
    newer = ground arith;
    signed = elim (Option-cases desc.signature) [
      | inl e ↦ absurd (ground arith)
      | inr (sig', e) ↦ (
        sig',
        e,
        elim (Option-cases desc.owner_pubkey) [
          | inl f ↦ inl f
          | inr (pk', f) ↦ inr (ground arith, ground arith)
        ],
      )
    ];
  }

  -- A descriptor of a group that is stored with a signature and its owner's key leaves everything as it
  -- is, or satisfies `IsAuthorised`: its checksum is right, it is signed and newer than the stored row,
  -- and it names no owner's key, or that owner's, with a signature of it that verifies.
  pub merge_descriptor-IsAuthorised :
      (desc : GroupDescriptor) (r : MergeResult) (s : SqliteStorage) (row : GroupRow)
      (pk sig : String)
      → read_group desc.id s ≡ ok (some row)
      → row.signature ≡ some sig
      → row.owner_pubkey ≡ some pk
      → (merge_descriptor h sg desc (r, s) ≡ (r, s)) ⊎ IsAuthorised pk row desc
  merge_descriptor-IsAuthorised desc r s row pk sig found signed owned =
      merge_descriptor_by desc r s (λ m. (m ≡ (r, s)) ⊎ IsAuthorised pk row desc) (inl refl)
        (λ name intact holds named. inr (
          named_signed pk sig row desc name signed owned
            (subst (λ f. name_for f desc ≡ some name) found named) holds intact))

-- Calls that leave the rows of a group.
module _ (j : String) where
  abbrev SameGroup : SqliteStorage → SqliteStorage → Type 0
  SameGroup s s' = read_group j s' ≡ read_group j s

  write_group-SameGroup :
      (id name culture policy : String) (s : SqliteStorage)
      → id ≢ j
      → SameGroup s (write_group id name culture policy s).1
  unfolding read_group write_group available
  write_group-SameGroup id name culture policy s differ = ground (
    arith,
    lookup-insert j id (written_group s.clock id name culture policy (lookup id s.groups)) s.groups,
  )

  write_group_signature-SameGroup :
      (id oid pk sig : String) (s : SqliteStorage)
      → id ≢ j
      → SameGroup s (write_group_signature id oid pk sig s).1
  unfolding read_group write_group_signature available
  write_group_signature-SameGroup id oid pk sig s differ = ground (
    arith,
    lookup-modify j id
        (λ (row : GroupRow). record row {
          owner_id = some oid;
          owner_pubkey = some pk;
          signature = some sig;
        })
        s.groups,
  )

  sign_group-SameGroup :
      (desc : GroupDescriptor) (s : SqliteStorage) → desc.id ≢ j → SameGroup s (sign_group desc s)
  unfolding sign_group
  sign_group-SameGroup desc s differ = elim (Option-cases desc.owner_id) [
    | inl e ↦ rw e refl
    | inr (oid, e) ↦ elim (Option-cases desc.owner_pubkey) [
      | inl f ↦ rw (e, f) refl
      | inr (pk, f) ↦ elim (Option-cases desc.signature) [
        | inl g ↦ rw (e, f, g) refl
        | inr (sig, g) ↦ rw (e, f, g) (write_group_signature-SameGroup desc.id oid pk sig s differ)
      ]
    ]
  ]

  update_member_posture-SameGroup :
      (id entity posture : String) (s : SqliteStorage)
      → SameGroup s (update_member_posture id entity posture s).1
  unfolding read_group update_member_posture available
  update_member_posture-SameGroup id entity posture s = ground arith

  remove_members-SameGroup : (id : String) (s : SqliteStorage) → SameGroup s (remove_members id s)
  unfolding remove_members
  remove_members-SameGroup id s = elim (Result-cases (list_members id s)) [
    | inr (e, p) ↦ rw (remove_members, p) refl
    | inl (members, p) ↦
        rw (remove_members, p)
          (for_each_inv (SameGroup s)
            (λ (m : GroupMemberRow) (s : SqliteStorage).
              (update_member_posture id m.entity_id "removed" s).1)
            (λ m s' same. update_member_posture-SameGroup id m.entity_id "removed" s' ∙ same)
            members s refl)
  ]

  written-SameGroup :
      (desc : GroupDescriptor) (r : MergeResult) (d : Result (Unit {0}) × SqliteStorage)
      → desc.id ≢ j
      → SameGroup d.1 (written desc r d).1
  unfolding written
  written-SameGroup desc r (err e, s) differ = refl
  written-SameGroup desc r (ok done, s) differ =
      let signed = sign_group-SameGroup desc s differ in
      if_split (λ (m : Merging). SameGroup s m.1) (is_tombstone desc) _ _
        (λ e. remove_members-SameGroup desc.id (sign_group desc s) ∙ signed) (λ e. signed)

  module _ (h : Hashing) (sg : Signing) where
    merge_descriptor-SameGroup :
        (desc : GroupDescriptor) (m : Merging)
        → desc.id ≢ j
        → SameGroup m.1 (merge_descriptor h sg desc m).1
    merge_descriptor-SameGroup desc (r, s) differ =
        merge_descriptor_by h sg desc r s (λ (m : Merging). SameGroup s m.1) refl
          (λ name intact holds named.
            written-SameGroup desc r (write_group desc.id name desc.culture "{}" s) differ
            ∙ write_group-SameGroup desc.id name desc.culture "{}" s differ)

    for_each-SameGroup :
        (descs : List GroupDescriptor) (m : Merging)
        → All (λ (d : GroupDescriptor). d.id ≢ j) descs
        → SameGroup m.1 (for_each descs (merge_descriptor h sg) m).1
    for_each-SameGroup [] m differ = refl
    for_each-SameGroup (d ∷ ds) m differ =
        for_each-SameGroup ds (merge_descriptor h sg d m) differ.1
        ∙ merge_descriptor-SameGroup d m differ.0

    -- Merging descriptors changes nothing of a group that none of them names.
    pub merge_descriptors-SameGroup :
        (descs : List GroupDescriptor) (s : SqliteStorage)
        → All (λ (d : GroupDescriptor). d.id ≢ j) descs
        → read_group j (merge_descriptors h sg descs s).1 ≡ read_group j s
    unfolding merge_descriptors
    merge_descriptors-SameGroup descs s differ =
        for_each-SameGroup descs (record { upserted = []; tombstoned = [] }, s) differ
