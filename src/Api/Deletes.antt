-- ===== src/Api/Deletes.antt =====
-- crates/cordelia-api/src/lib.rs: what deleting an item leaves, and what replication hears of it.
use mathlib.Core.Option.{some-injective}
use cordelia_core.Prelude.{
  true, false, String, Option, none, some, ◌⊎◌, inl, inr, string_eq, ◌≡◌, refl, arith, Option-cases,
  ap, sym, subst,
}
use cordelia_core.Prelude.Dict.{lookup}
use cordelia_core.Protocol.Messages.{Hashing}
use cordelia_core.Storage.Rows.{ok, err, sqlite, StorageError, L2ItemRow}
use cordelia_core.Storage.Items.{SqliteStorage, available, read_l2_item, delete_l2_item}
use cordelia_core.Storage.ItemLaws.{sqlite_storage-IsItemStore}
use cordelia_core.Storage.Search.{FullText, read_l2_item_meta, meta_of}
use cordelia_core.Api.State.{AppState, Json, Response, check_auth, with_storage, notify}
use cordelia_core.Api.Items.{l2_delete, l2_deleted, tombstone_notification, notify_deletion}
use cordelia_core.Api.Writes.{Sends, IsRefused, notify-storage, notify-Sends}

-- Replication hears of the deletion of a group's item, and of no other.
abbrev pub IsAnnounced : String → L2ItemRow → AppState → AppState → Type 0
IsAnnounced item_id row before after =
    ((g : String)
      → row.group_id ≡ some g
      → Sends before (tombstone_notification item_id g row.key_version) after)
    × (row.group_id ≡ none → after.write_notify ≡ before.write_notify)

-- The item was there, and is gone. If its metadata could be read, its deletion is announced; if not,
-- replication hears nothing.
abbrev pub IsDeleted : String → AppState → AppState → Type 0
IsDeleted item_id before after =
    (row : L2ItemRow) × (read_l2_item item_id before.storage ≡ ok (some row))
    × (read_l2_item item_id after.storage ≡ ok none)
    × (((read_l2_item_meta item_id before.storage ≡ ok (some (meta_of row)))
          × IsAnnounced item_id row before after)
        ⊎ ((e : StorageError) × (read_l2_item_meta item_id before.storage ≡ err e)
            × (after.write_notify ≡ before.write_notify)))

-- The metadata of a row that is there can be read, or not.
abbrev MetaOf : String → L2ItemRow → SqliteStorage → Type 0
MetaOf id row s =
    (read_l2_item_meta id s ≡ ok (some (meta_of row)))
    ⊎ ((e : StorageError) × (read_l2_item_meta id s ≡ err e))

meta_lem :
    (id : String) (row : L2ItemRow) (s : SqliteStorage)
    → available s ≡ none
    → lookup id s.l2_items ≡ some row
    → MetaOf id row s
unfolding read_l2_item_meta
meta_lem id row s up there = elim (Option-cases s.meta_failure) [
  | inl readable ↦ inl (rw (read_l2_item_meta, up, readable, there) refl)
  | inr (e, lost) ↦ inr (sqlite e, rw (read_l2_item_meta, up, lost) refl)
]

delete_outcome :
    (id : String) (s : SqliteStorage)
    → ((row : L2ItemRow) × (read_l2_item id s ≡ ok (some row))
        × MetaOf id row s
        × (delete_l2_item id s ≡ (ok true, (delete_l2_item id s).1)))
      ⊎ (((delete_l2_item id s) ≡ (ok false, s))
          ⊎ ((e : StorageError) × (delete_l2_item id s ≡ (err e, s))))
unfolding delete_l2_item read_l2_item
delete_outcome id s = elim (Option-cases (available s)) [
  | inr (e, down) ↦ inr (inr (e, rw (delete_l2_item, down) refl))
  | inl up ↦ elim (Option-cases (lookup id s.l2_items)) [
    | inl missing ↦ inr (inl (rw (delete_l2_item, up, missing) refl))
    | inr (row, there) ↦ inl (
      row,
      rw (read_l2_item, up, there) refl,
      meta_lem id row s up there,
      rw (delete_l2_item, up, there) refl,
    )
  ]
]

notified :
    (item_id : String) (row : L2ItemRow) (state : AppState) (s : SqliteStorage)
    → read_l2_item item_id s ≡ ok none
    → (read_l2_item item_id
          (notify_deletion item_id (ok (some (meta_of row))) (with_storage state s)).storage
        ≡ ok none)
      × IsAnnounced item_id row state
          (notify_deletion item_id (ok (some (meta_of row))) (with_storage state s))
notified item_id row state s gone = elim (Option-cases row.group_id) [
  | inl ungrouped ↦ rw ungrouped (gone, ((λ g e. absurd (ground arith)), λ e. refl))
  | inr (g, grouped) ↦
      let n = tombstone_notification item_id g row.key_version in
      rw grouped (
        subst (λ s'. read_l2_item item_id s' ≡ ok none)
            (sym (notify-storage n (with_storage state s))) gone,
        (
          (λ g' e.
              subst
                (λ g''.
                  Sends state (tombstone_notification item_id g'' row.key_version)
                    (notify n (with_storage state s)))
                (some-injective g g' e) (notify-Sends n state s)),
          λ e. absurd (ground arith),
        ),
      )
]

module _ (j : Json) (h : Hashing) (ft : FullText) where
  abbrev pub Outcome : String → AppState → Response j.Value × AppState → Type 0
  Outcome item_id state a =
      ((a.0.status ≡ 200) × IsDeleted item_id state a.1) ⊎ IsRefused j h ft state a

  deleted_lem :
      (item_id : String) (state : AppState)
      → Outcome item_id state (
          l2_deleted j h ft item_id
            (read_l2_item_meta item_id state.storage)
            state
            (delete_l2_item item_id state.storage))
  deleted_lem item_id state = elim (delete_outcome item_id state.storage) [
    | inr (inl missing) ↦ rw missing (inr (refl, λ same. absurd (ground arith)))
    | inr (inr (e, down)) ↦ rw down (inr (refl, λ same. absurd (ground arith)))
    | inl (row, there, inr (e, lost), done) ↦
        let gone =
          (sqlite_storage-IsItemStore h).read-delete item_id state.storage true
            (ap (λ r. r.0) done) in
        rw (done, lost) (inl (refl, (row, there, gone, inr (e, refl, refl))))
    | inl (row, there, inl meta, done) ↦
        let s = (delete_l2_item item_id state.storage).1 in
        let gone =
          (sqlite_storage-IsItemStore h).read-delete item_id state.storage true
            (ap (λ r. r.0) done) in
        let (read, told) = notified item_id row state s gone in
        rw (done, meta) (inl (refl, (row, there, read, inl (refl, told))))
  ]

  -- An authorised deletion is answered with 200, and then the item was there and nothing is read under
  -- its id any more; if its metadata could be read, a tombstone is announced to replication exactly if
  -- the item was of a group, and if not, nothing is announced. Or it is answered with another status, and
  -- nothing changes.
  pub l2_delete_lem :
      (auth : Option String) (item_id : String) (state : AppState)
      → check_auth j.Value state auth ≡ none
      → Outcome item_id state (l2_delete j h ft auth item_id state)
  unfolding l2_delete
  l2_delete_lem auth item_id state valid = rw (l2_delete, valid) (deleted_lem item_id state)
