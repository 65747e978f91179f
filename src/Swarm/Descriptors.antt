-- ===== src/Swarm/Descriptors.antt =====
-- crates/cordelia-node/src/swarm_task.rs: `merge_descriptors`. What only decides about a log line is left
-- out. Hexadecimal decoding and Ed25519 are parameters.
use cordelia_core.Prelude.{
  String, Bool, true, false, not, Option, none, some, List, [], ◌∷◌, ◌++◌, for_each, length, ltb,
  if◌then◌else◌, ◌==◌, ◌&&◌, ◌||◌, string_eq,
}
use cordelia_core.Prelude.Text.{text_leb}
use cordelia_core.Protocol.Messages.{
  Bytes, Hashing, GroupDescriptor, is_tombstone, verify_checksum, signing_payload,
}
use cordelia_core.Storage.Rows.{Result, ok, err, GroupRow, GroupMemberRow}
use cordelia_core.Storage.Items.{SqliteStorage}
use cordelia_core.Storage.Groups.{
  write_group, write_group_signature, read_group, list_members, update_member_posture,
}

pub record MergeResult : Type 0 where
  pub upserted : List String
  pub tombstoned : List String

-- `hex::decode`, and the verification of a message under a public key.
pub record Signing : Type 0 where
  pub decode : String → Option Bytes
  pub verify : Bytes → Bytes → Bytes → Bool

abbrev pub is_some {ℓ} : {A : Type ℓ} → Option A → Bool
is_some none = false
is_some (some a) = true

-- Both are signed for different owners.
abbrev pub other_owner : Option String → Option String → Bool
other_owner (some local_owner) (some incoming_owner) = not (local_owner == incoming_owner)
other_owner _ _ = false

abbrev pub is_refused : GroupRow → GroupDescriptor → Bool
is_refused local desc =
    (is_some local.signature && not (is_some desc.signature))
    || other_owner local.owner_pubkey desc.owner_pubkey

-- The name that an upsert writes, or nothing if the local copy stands.
unfoldable pub name_for : Result (Option GroupRow) → GroupDescriptor → Option String
name_for (ok (some local)) desc =
    if is_refused local desc
    then none
    else if text_leb desc.updated_at local.updated_at
    then none
    else some local.name
name_for (ok none) desc = some desc.id
name_for (err e) desc = some desc.id

unfoldable pub sign_group : GroupDescriptor → SqliteStorage → SqliteStorage
sign_group desc s = elim desc.owner_id [
  | none ↦ s
  | some oid ↦ elim desc.owner_pubkey [
    | none ↦ s
    | some pk ↦ elim desc.signature [
      | none ↦ s
      | some sig ↦ (write_group_signature desc.id oid pk sig s).1
    ]
  ]
]

unfoldable pub remove_members : String → SqliteStorage → SqliteStorage
remove_members id s = elim (list_members id s) [
  | err e ↦ s
  | ok members ↦
      for_each members
        (λ (m : GroupMemberRow) (s : SqliteStorage).
          (update_member_posture id m.entity_id "removed" s).1)
        s
]

abbrev pub Merging : Type 0
Merging = MergeResult × SqliteStorage

-- After `write_group`.
unfoldable pub written : GroupDescriptor → MergeResult → Result (Unit {0}) × SqliteStorage → Merging
unfolding sign_group remove_members
written desc r (err e, s) = (r, s)
written desc r (ok done, s) =
    if is_tombstone desc
    then (
      record r { tombstoned = r.tombstoned ++ desc.id ∷ [] },
      remove_members desc.id (sign_group desc s),
    )
    else (record r { upserted = r.upserted ++ desc.id ∷ [] }, sign_group desc s)

module _ (h : Hashing) (sg : Signing) where
  unfoldable pub verify_descriptor_signature : GroupDescriptor → String → String → Bool
  verify_descriptor_signature desc pubkey_hex sig_hex = elim (sg.decode pubkey_hex) [
    | none ↦ false
    | some pubkey ↦ elim (sg.decode sig_hex) [
      | none ↦ false
      | some sig ↦ sg.verify pubkey (signing_payload h desc) sig
    ]
  ]

  -- "Verify signature if present"
  unfoldable pub signature_holds : GroupDescriptor → Bool
  unfolding verify_descriptor_signature
  signature_holds desc = elim desc.owner_pubkey [
    | none ↦ true
    | some pubkey_hex ↦ elim desc.signature [
      | none ↦ true
      | some sig_hex ↦ verify_descriptor_signature desc pubkey_hex sig_hex
    ]
  ]

  abbrev pub is_oversized : GroupDescriptor → Bool
  is_oversized desc = ltb 4096 (length (h.utf8 desc.culture)) && not (is_tombstone desc)

  -- The body of the loop.
  unfoldable pub merge_descriptor : GroupDescriptor → Merging → Merging
  unfolding signature_holds name_for written
  merge_descriptor desc (r, s) =
      if not (verify_checksum h desc)
      then (r, s)
      else if is_oversized desc
      then (r, s)
      else if not (signature_holds desc)
      then (r, s)
      else elim (name_for (read_group desc.id s) desc) [
        | none ↦ (r, s)
        | some name ↦ written desc r (write_group desc.id name desc.culture "{}" s)
      ]

  unfoldable pub merge_descriptors : List GroupDescriptor → SqliteStorage → Merging
  unfolding merge_descriptor
  merge_descriptors descriptors s =
      for_each descriptors merge_descriptor (record { upserted = []; tombstoned = [] }, s)
