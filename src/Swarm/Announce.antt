-- ===== src/Swarm/Announce.antt =====
-- crates/cordelia-node/src/swarm_task.rs: `build_descriptors`, which signs the groups that this node owns.
-- The key of the node is a parameter.
use cordelia_core.Prelude.{
  String, Bool, false, not, Option, none, some, List, [], ◌∷◌, is_empty, if◌then◌else◌, ◌==◌, ◌&&◌,
  ◌||◌, string_eq, option_eq,
}
use cordelia_core.Protocol.Messages.{
  Bytes, Hashing, GroupDescriptor, compute_checksum, signing_payload,
}
use cordelia_core.Storage.Rows.{Result, ok, err, GroupRow, GroupMemberRow}
use cordelia_core.Storage.Items.{SqliteStorage}
use cordelia_core.Storage.Groups.{write_group_signature, list_groups, get_membership}
use cordelia_core.Swarm.Descriptors.{is_some}

-- `hex::encode(node_identity.public_key())`, and the encoded signature of a message.
pub record NodeIdentity : Type 0 where
  pub pubkey_hex : String
  pub sign_hex : Bytes → String

abbrev pub is_owner_row : Result (Option GroupMemberRow) → Bool
is_owner_row (err e) = false
is_owner_row (ok none) = false
is_owner_row (ok (some m)) = m.role == "owner"

unfoldable pub is_owner : SqliteStorage → String → String → Bool
is_owner s group_id entity_id = is_owner_row (get_membership group_id entity_id s)

abbrev pub we_own : SqliteStorage → String → GroupRow → Bool
we_own s our_entity_id g =
    g.owner_id == some our_entity_id || (not (is_some g.owner_id) && is_owner s g.id our_entity_id)

module _ (h : Hashing) where
  -- As the row says.
  abbrev pub descriptor_of : GroupRow → GroupDescriptor
  descriptor_of g = record {
    id = g.id;
    culture = g.culture;
    updated_at = g.updated_at;
    checksum = compute_checksum h g.id g.culture;
    owner_id = g.owner_id;
    owner_pubkey = g.owner_pubkey;
    signature = g.signature;
  }

  -- Signed by this node.
  abbrev pub signed_descriptor : NodeIdentity → String → GroupRow → GroupDescriptor
  signed_descriptor identity our_entity_id g = record (descriptor_of g) {
    owner_id = some our_entity_id;
    owner_pubkey = some identity.pubkey_hex;
    signature = some (identity.sign_hex (signing_payload h (descriptor_of g)));
  }

  -- One group. A signature that cannot be stored is sent all the same.
  unfoldable pub build_descriptor :
      NodeIdentity → String → GroupRow → SqliteStorage → GroupDescriptor × SqliteStorage
  unfolding is_owner
  build_descriptor identity our_entity_id g s =
      if we_own s our_entity_id g && not (is_some g.signature)
      then (
        signed_descriptor identity our_entity_id g,
        (write_group_signature g.id our_entity_id identity.pubkey_hex
            (identity.sign_hex (signing_payload h (descriptor_of g))) s).1,
      )
      else (descriptor_of g, s)

  unfoldable pub build_each :
      NodeIdentity → String → List GroupRow → SqliteStorage → List GroupDescriptor × SqliteStorage
  unfolding build_descriptor
  build_each identity our_entity_id [] s = ([], s)
  build_each identity our_entity_id (g ∷ gs) s =
      let (desc, s') = build_descriptor identity our_entity_id g s in
      let (descs, s'') = build_each identity our_entity_id gs s' in (desc ∷ descs, s'')

  abbrev pub some_descriptors :
      List GroupDescriptor × SqliteStorage → Option (List GroupDescriptor) × SqliteStorage
  some_descriptors (descs, s) = (some descs, s)

  unfoldable pub build_descriptors :
      NodeIdentity → String → SqliteStorage → Option (List GroupDescriptor) × SqliteStorage
  unfolding build_each
  build_descriptors identity our_entity_id s = elim (list_groups s) [
    | err e ↦ (none, s)
    | ok groups ↦
        if is_empty groups
        then (none, s)
        else some_descriptors (build_each identity our_entity_id groups s)
  ]
