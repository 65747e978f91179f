-- ===== src/Api/Writes.antt =====
-- crates/cordelia-api/src/lib.rs: what writing and deleting an item leaves.
use cordelia_core.Prelude.{
  String, true, false, Option, none, some, List, [], ◌∷◌, ◌++◌, ltb, length, ◌⊎◌, inl, inr,
  string_eq, ◌≡◌, ◌≢◌, refl, arith, Bool-cases, Option-cases, ap, sym, subst,
}
use cordelia_core.Protocol.Messages.{Bytes, Hashing}
use cordelia_core.Storage.Rows.{ok, err, StorageError, sqlite, L2ItemRow, L2ItemWrite}
use cordelia_core.Storage.Interface.{IsRowOf}
use cordelia_core.Storage.Items.{SqliteStorage, available, is_row, read_l2_item, write_l2_item}
use cordelia_core.Storage.ItemLaws.{sqlite_storage-IsItemStore}
use cordelia_core.Storage.Search.{FullText}
use cordelia_core.Replication.Engine.{max_item_bytes}
use cordelia_core.Api.State.{
  AppState, Json, Response, WriteNotification, check_auth, with_storage, notify,
}
use cordelia_core.Api.Requests.{L2WriteRequest}
use cordelia_core.Api.Items.{l2_write, l2_written, item_write, notification_of, no_meta, unwrap_or}

-- What is sent on the channel, where there is one.
abbrev pub Sends : AppState → WriteNotification → AppState → Type 0
Sends before n after =
    (sent : List WriteNotification)
    → before.write_notify ≡ some sent
    → after.write_notify ≡ some (sent ++ n ∷ [])

pub notify-storage :
    (n : WriteNotification) (state : AppState) → (notify n state).storage ≡ state.storage
notify-storage n state = elim (Option-cases state.write_notify) [
  | inl e ↦ rw e refl
  | inr (sent, e) ↦ rw e refl
]

pub notify-Sends :
    (n : WriteNotification) (state : AppState) (s : SqliteStorage)
    → Sends state n (notify n (with_storage state s))
notify-Sends n state s sent e = rw e refl

-- Which data a request makes the storage write.
abbrev pub write_of_request : (j : Json) → AppState → L2WriteRequest j.Value → Bytes → L2ItemWrite
write_of_request j state req bytes =
    item_write state.entity_id req.item_id req.item_type bytes (unwrap_or no_meta req.meta)

-- A write was taken in: it fits, it is read back, and it is announced.
abbrev pub IsWritten :
    (j : Json) → Hashing → AppState → L2WriteRequest j.Value → Response j.Value × AppState → Type 0
IsWritten j h state req a =
    (bytes : Bytes) × (row : L2ItemRow) × (j.to_vec req.value ≡ some bytes)
    × (ltb max_item_bytes (length bytes) ≡ false)
    × (is_row (write_of_request j state req bytes) ≡ true)
    × (read_l2_item req.item_id a.1.storage ≡ ok (some row))
    × IsRowOf h (write_of_request j state req bytes) row
    × Sends state (notification_of (write_of_request j state req bytes)) a.1

write_outcome :
    (h : Hashing) (w : L2ItemWrite) (s : SqliteStorage)
    → ((write_l2_item h w s ≡ (ok tt, (write_l2_item h w s).1)) × (is_row w ≡ true))
      ⊎ ((e : StorageError) × (write_l2_item h w s ≡ (err e, s)))
unfolding write_l2_item
write_outcome h w s = elim (Option-cases (available s)) [
  | inr (e, down) ↦ inr (e, rw (write_l2_item, down) refl)
  | inl up ↦ elim (Bool-cases (is_row w)) [
    | inl fits ↦ inl (rw (write_l2_item, up, fits) refl, fits)
    | inr unfit ↦ inr (sqlite "CHECK constraint failed", rw (write_l2_item, up, unfit) refl)
  ]
]

module _ (j : Json) (h : Hashing) (ft : FullText) where
  -- Everything is as before, and the status says so.
  abbrev pub IsRefused : AppState → Response j.Value × AppState → Type 0
  IsRefused state a = (a.1 ≡ state) × (a.0.status ≢ 200)

  -- What a write comes to.
  abbrev pub Outcome : L2WriteRequest j.Value → AppState → Response j.Value × AppState → Type 0
  Outcome req state a = ((a.0.status ≡ 200) × IsWritten j h state req a) ⊎ IsRefused state a

  written_lem :
      (req : L2WriteRequest j.Value) (state : AppState) (bytes : Bytes)
      → j.to_vec req.value ≡ some bytes
      → ltb max_item_bytes (length bytes) ≡ false
      → Outcome req state (
          l2_written j h ft
            (write_of_request j state req bytes)
            state
            (write_l2_item h (write_of_request j state req bytes) state.storage))
  written_lem req state bytes e small =
      let w = write_of_request j state req bytes in
      let s = (write_l2_item h w state.storage).1 in
      elim (write_outcome h w state.storage) [
        | inr (e', kept) ↦ rw kept (inr (refl, λ no_way. absurd (ground arith)))
        | inl (done, fits) ↦
            let (row, read, is) =
              (sqlite_storage-IsItemStore h).read-write w state.storage (ap (λ r. r.0) done) in
            rw done (
              inl (
                refl,
                (
                  bytes,
                  row,
                  e,
                  small,
                  fits,
                  subst (λ s'. read_l2_item req.item_id s' ≡ ok (some row))
                      (sym (notify-storage (notification_of w) (with_storage state s))) read,
                  is,
                  notify-Sends (notification_of w) state s,
                ),
              ))
      ]

  reaches_storage :
      (auth : Option String) (req : L2WriteRequest j.Value) (state : AppState) (bytes : Bytes)
      → check_auth j.Value state auth ≡ none
      → j.to_vec req.value ≡ some bytes
      → ltb max_item_bytes (length bytes) ≡ false
      → l2_write j h ft auth req state
        ≡ l2_written j h ft
            (write_of_request j state req bytes)
            state
            (write_l2_item h (write_of_request j state req bytes) state.storage)
  unfolding l2_write
  reaches_storage auth req state bytes valid e small = rw (l2_write, valid, e, small) refl

  -- An authorised write is answered with 200, and then the item is small enough, of
  -- a known type and visibility, is read back with the
  -- request's data, and is announced to replication once; or with another status, and nothing changes.
  pub l2_write_lem :
      (auth : Option String) (req : L2WriteRequest j.Value) (state : AppState)
      → check_auth j.Value state auth ≡ none
      → Outcome req state (l2_write j h ft auth req state)
  unfolding l2_write
  l2_write_lem auth req state valid = elim (Option-cases (j.to_vec req.value)) [
    | inl bad ↦ rw (l2_write, valid, bad) (inr (refl, λ e. absurd (ground arith)))
    | inr (bytes, e) ↦ elim (Bool-cases (ltb max_item_bytes (length bytes))) [
      | inl big ↦ rw (l2_write, valid, e, big) (inr (refl, λ same. absurd (ground arith)))
      | inr small ↦
          subst (Outcome req state) (sym (reaches_storage auth req state bytes valid e small))
            (written_lem req state bytes e small)
    ]
  ]
