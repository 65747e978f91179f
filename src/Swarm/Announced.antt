-- ===== src/Swarm/Announced.antt =====
-- crates/cordelia-node/src/swarm_task.rs: what a node announces, and what a peer makes of it.
use cordelia_core.Prelude.{
  String, true, false, not, Option, none, some, ltb, length, ◌&&◌, string_eq, option_eq, ◌≡◌, refl,
  arith, ap, ◌∙◌, Option-cases, if_split, inl, inr, ==-self,
}
use cordelia_core.Prelude.Dict.{lookup, lookup-insert, lookup-modify}
use cordelia_core.Protocol.Messages.{
  Bytes, Hashing, GroupDescriptor, is_tombstone, verify_checksum, compute_checksum, signing_payload,
}
use cordelia_core.Storage.Rows.{Result, ok, err, GroupRow}
use cordelia_core.Storage.Items.{SqliteStorage, available}
use cordelia_core.Storage.Groups.{write_group, written_group, write_group_signature, read_group}
use cordelia_core.Swarm.Descriptors.{
  MergeResult, Signing, is_some, name_for, sign_group, written, verify_descriptor_signature,
  signature_holds, is_oversized, merge_descriptor,
}
use cordelia_core.Swarm.Tombstone.{write_group-available}
use cordelia_core.Swarm.Announce.{
  NodeIdentity, we_own, descriptor_of, signed_descriptor, build_descriptor,
}

-- Signatures of this key verify under it, through the encodings.
abbrev pub IsSound : Signing → NodeIdentity → Type 0
IsSound sg identity =
    (pk : Bytes) × (sg.decode identity.pubkey_hex ≡ some pk)
    × ((message : Bytes)
        → (sig : Bytes) × (sg.decode (identity.sign_hex message) ≡ some sig)
          × (sg.verify pk message sig ≡ true))

-- The row that a write leaves, and its culture.
pub read-write_group :
    (id name culture policy : String) (s : SqliteStorage)
    → available s ≡ none
    → read_group id (write_group id name culture policy s).1
      ≡ ok (some (written_group s.clock id name culture policy (lookup id s.groups)))
unfolding read_group write_group available
read-write_group id name culture policy s up =
    let row = written_group s.clock id name culture policy (lookup id s.groups) in
    ground (arith, lookup-insert id id row s.groups)

pub written_group-culture :
    (clock id name culture policy : String) (old : Option GroupRow)
    → (written_group clock id name culture policy old).culture ≡ culture
written_group-culture clock id name culture policy none = refl
written_group-culture clock id name culture policy (some row) = refl

-- A signature changes nothing of the culture.
read-sign :
    (id owner key sig : String) (s : SqliteStorage) (row : GroupRow)
    → available s ≡ none
    → read_group id s ≡ ok (some row)
    → read_group id (write_group_signature id owner key sig s).1
      ≡ ok (
          some
            (record row { owner_id = some owner; owner_pubkey = some key; signature = some sig }))
unfolding write_group_signature read_group available
read-sign id owner key sig s row up there =
    let f = λ (row : GroupRow). record row {
      owner_id = some owner;
      owner_pubkey = some key;
      signature = some sig;
    } in
    let at : lookup id s.groups ≡ some row = ground arith in
    ground (arith, lookup-modify id id f s.groups, ==-self id)

sign_group-culture :
    (desc : GroupDescriptor) (s : SqliteStorage) (row : GroupRow)
    → available s ≡ none
    → read_group desc.id s ≡ ok (some row)
    → (row' : GroupRow) × (read_group desc.id (sign_group desc s) ≡ ok (some row'))
      × (row'.culture ≡ row.culture)
unfolding sign_group
sign_group-culture desc s row up there = elim (Option-cases desc.owner_id) [
  | inl e ↦ rw (sign_group, e) (row, there, refl)
  | inr (owner, e) ↦ elim (Option-cases desc.owner_pubkey) [
    | inl k ↦ rw (sign_group, e, k) (row, there, refl)
    | inr (key, k) ↦ elim (Option-cases desc.signature) [
      | inl g ↦ rw (sign_group, e, k, g) (row, there, refl)
      | inr (sig, g) ↦
          rw (sign_group, e, k, g)
            (
              record row { owner_id = some owner; owner_pubkey = some key; signature = some sig },
              read-sign desc.id owner key sig s row up there,
              refl,
            )
    ]
  ]
]

written_live :
    (desc : GroupDescriptor) (r : MergeResult) (d : Result (Unit {0}) × SqliteStorage)
    → is_tombstone desc ≡ false
    → d.0 ≡ ok tt
    → (written desc r d).1 ≡ sign_group desc d.1
unfolding written
written_live desc r (err e, s) live done = absurd (ground arith)
written_live desc r (ok u, s) live done = rw (written, live) refl

-- What `written` leaves of a group that is no tombstone.
written-culture :
    (desc : GroupDescriptor) (r : MergeResult) (name : String) (s : SqliteStorage)
    → available s ≡ none
    → is_tombstone desc ≡ false
    → (row : GroupRow) × (read_group desc.id
          (written desc r (write_group desc.id name desc.culture "{}" s)).1
        ≡ ok (some row))
      × (row.culture ≡ desc.culture)
written-culture desc r name s up live =
    let (stored, up') = write_group-available desc.id name desc.culture "{}" s up in
    let old = lookup desc.id s.groups in
    let (row, read, kept) =
      sign_group-culture desc (write_group desc.id name desc.culture "{}" s).1 _ up'
        (read-write_group desc.id name desc.culture "{}" s up) in
    (
      row,
      ap (read_group desc.id)
            (written_live desc r (write_group desc.id name desc.culture "{}" s) live stored)
          ∙ read,
      kept ∙ written_group-culture s.clock desc.id name desc.culture "{}" old,
    )

module _ (h : Hashing) (sg : Signing) where
  signed_holds :
      (identity : NodeIdentity) (entity : String) (g : GroupRow)
      → IsSound sg identity
      → signature_holds h sg (signed_descriptor h identity entity g) ≡ true
  unfolding signature_holds verify_descriptor_signature
  signed_holds identity entity g (pk, decoded, signs) =
      let (sig, decoded', holds) = signs (signing_payload h (descriptor_of h g)) in
      rw (verify_descriptor_signature, decoded, decoded') holds

  unsigned_holds :
      (g : GroupRow) → g.signature ≡ none → signature_holds h sg (descriptor_of h g) ≡ true
  unfolding signature_holds
  unsigned_holds g unsigned = elim (Option-cases g.owner_pubkey) [
    | inl e ↦ rw (signature_holds, e) refl
    | inr (pk, e) ↦ rw (signature_holds, e, unsigned) refl
  ]

  -- What is announced of a group that is stored unsigned.
  abbrev Verifies : GroupDescriptor → Type 0
  Verifies desc = (verify_checksum h desc ≡ true) × (signature_holds h sg desc ≡ true)

  merge_new :
      (desc : GroupDescriptor) (r : MergeResult) (peer : SqliteStorage)
      → Verifies desc
      → is_tombstone desc ≡ false
      → is_oversized h sg desc ≡ false
      → available peer ≡ none
      → read_group desc.id peer ≡ ok none
      → (row : GroupRow) × (read_group desc.id (merge_descriptor h sg desc (r, peer)).1
          ≡ ok (some row))
        × (row.culture ≡ desc.culture)
  unfolding merge_descriptor name_for
  merge_new desc r peer (intact, holds) live small up absent =
      rw (merge_descriptor, intact, small, holds, absent)
        (written-culture desc r desc.id peer up live)

  -- The group of a row that is stored unsigned and is no tombstone, as this node announces it, signed with
  -- its key if it owns the group, is taken in by a peer that lacks the group, if its culture is within the
  -- limit and the peer's storage works: the peer then has the group with the same culture.
  pub build_descriptor-merge_descriptor :
      (identity : NodeIdentity) (entity : String) (g : GroupRow) (s : SqliteStorage)
      (r : MergeResult) (peer : SqliteStorage)
      → IsSound sg identity
      → g.signature ≡ none
      → is_tombstone (descriptor_of h g) ≡ false
      → ltb 4096 (length (h.utf8 g.culture)) ≡ false
      → available peer ≡ none
      → read_group g.id peer ≡ ok none
      → (row : GroupRow) × (read_group g.id
            (merge_descriptor h sg (build_descriptor h identity entity g s).0 (r, peer)).1
          ≡ ok (some row))
        × (row.culture ≡ g.culture)
  unfolding build_descriptor
  build_descriptor-merge_descriptor identity entity g s r peer sound unsigned live small up absent =
      let Taken = λ (a : GroupDescriptor × SqliteStorage).
        (row : GroupRow) × (read_group g.id (merge_descriptor h sg a.0 (r, peer)).1 ≡ ok (some row))
        × (row.culture ≡ g.culture) in
      let intact = ==-self (compute_checksum h g.id g.culture) in
      if_split Taken (we_own s entity g && not (is_some g.signature)) _ _
        (λ ours.
          merge_new (signed_descriptor h identity entity g) r peer
            (intact, signed_holds identity entity g sound) live (ground arith) up absent)
        (λ others.
          merge_new (descriptor_of h g) r peer (intact, unsigned_holds g unsigned) live
            (ground arith) up absent)
