-- ===== src/Api/SignedDeletion.antt =====
-- crates/cordelia-api/src/lib.rs and crates/cordelia-node/src/swarm_task.rs: the deletion of a signed group,
-- and what the peers make of it.
use cordelia_core.Prelude.{
  String, Bool, true, false, not, Option, none, some, ◌&&◌, string_eq, option_eq, ◌≡◌, refl, arith,
  ap, ◌∙◌, if_split,
}
use cordelia_core.Prelude.Dict.{lookup}
use cordelia_core.Protocol.Messages.{
  Bytes, Hashing, GroupDescriptor, group_tombstone_culture, verify_checksum, signing_text,
  signing_payload,
}
use cordelia_core.Storage.Rows.{ok, GroupRow}
use cordelia_core.Storage.Items.{SqliteStorage, available}
use cordelia_core.Storage.Groups.{read_group, written_group}
use cordelia_core.Swarm.Descriptors.{
  MergeResult, Signing, is_some, is_oversized, signature_holds, verify_descriptor_signature,
  merge_descriptor,
}
use cordelia_core.Swarm.Announce.{NodeIdentity, we_own, descriptor_of, build_descriptor}
use cordelia_core.Api.State.{AppState, Json, check_auth}
use cordelia_core.Api.Groups.{groups_delete}
use cordelia_core.Api.GroupDeletion.{groups_delete-row}

module _ (h : Hashing) (sg : Signing) where
  -- A signed row is announced as it is.
  announced_as_is :
      (identity : NodeIdentity) (entity sig : String) (g : GroupRow) (s : SqliteStorage)
      → g.signature ≡ some sig
      → (build_descriptor h identity entity g s).0 ≡ descriptor_of h g
  unfolding build_descriptor
  announced_as_is identity entity sig g s signed =
      if_split (λ (r : GroupDescriptor × SqliteStorage). r.0 ≡ descriptor_of h g)
        (we_own s entity g && not (is_some g.signature)) _ _
        (λ unsigned. absurd (contradiction (we_own s entity g) unsigned)) (λ kept. refl)
    where
      contradiction : (b : Bool) → (b && not (is_some g.signature)) ≡ true → ⊥
      contradiction b e = ground arith

  not_merged :
      (desc : GroupDescriptor) (r : MergeResult) (peer : SqliteStorage)
      → signature_holds h sg desc ≡ false
      → merge_descriptor h sg desc (r, peer) ≡ (r, peer)
  unfolding merge_descriptor
  not_merged desc r peer bad =
      if_split (λ m. m ≡ (r, peer)) (not (verify_checksum h desc)) _ _ (λ e. refl)
        (λ e.
          if_split (λ m. m ≡ (r, peer)) (is_oversized h sg desc) _ _ (λ e. refl) (λ e. rw bad refl))

  stale_signature :
      (desc : GroupDescriptor) (pk_hex sig_hex : String) (pk sig : Bytes)
      → desc.owner_pubkey ≡ some pk_hex
      → desc.signature ≡ some sig_hex
      → sg.decode pk_hex ≡ some pk
      → sg.decode sig_hex ≡ some sig
      → sg.verify pk (signing_payload h desc) sig ≡ false
      → signature_holds h sg desc ≡ false
  unfolding signature_holds verify_descriptor_signature
  stale_signature desc pk_hex sig_hex pk sig owned signed decoded decoded' stale =
      rw (signature_holds, owned, signed, verify_descriptor_signature, decoded, decoded') stale

  read_is_lookup :
      (id : String) (g : GroupRow) (s : SqliteStorage)
      → available s ≡ none
      → read_group id s ≡ ok (some g)
      → lookup id s.groups ≡ some g
  unfolding read_group
  read_is_lookup id g s up there = ground arith

  -- The deletion of a group stays on this node if the group is stored with a signature and its owner's
  -- key, and that signature is not one of the tombstone's payload: the row that the deletion leaves is
  -- announced with the old signature, and no peer changes anything.
  pub groups_delete-merge_descriptor :
      (j : Json) (identity : NodeIdentity) (entity : String) (auth : Option String) (id : String)
      (g : GroupRow) (state : AppState) (pk_hex sig_hex : String) (pk sig : Bytes)
      → check_auth j.Value state auth ≡ none
      → available state.storage ≡ none
      → read_group id state.storage ≡ ok (some g)
      → g.owner_pubkey ≡ some pk_hex
      → g.signature ≡ some sig_hex
      → sg.decode pk_hex ≡ some pk
      → sg.decode sig_hex ≡ some sig
      → sg.verify pk (h.utf8 (signing_text g.id group_tombstone_culture state.storage.clock)) sig
        ≡ false
      → (row : GroupRow) × (read_group id (groups_delete j auth id state).1.storage ≡ ok (some row))
        × ((r : MergeResult) (s peer : SqliteStorage)
            → merge_descriptor h sg (build_descriptor h identity entity row s).0 (r, peer)
              ≡ (r, peer))
  groups_delete-merge_descriptor j identity entity auth id g state pk_hex sig_hex pk sig valid up
        there owned signed decoded decoded' stale =
      let row = written_group state.storage.clock id id group_tombstone_culture "{}" (some g) in
      let bad =
        stale_signature (descriptor_of h row) pk_hex sig_hex pk sig owned signed decoded decoded'
          stale in
      (
        row,
        groups_delete-row j auth id g state valid up there
            ∙ ap
                (λ (old : Option GroupRow).
                  ok (
                    some
                      (written_group state.storage.clock id id group_tombstone_culture "{}" old)))
                (read_is_lookup id g state.storage up there),
        λ r s peer.
            ap (λ desc. merge_descriptor h sg desc (r, peer))
              (announced_as_is identity entity sig_hex row s signed)
            ∙ not_merged (descriptor_of h row) r peer bad,
      )
