-- ===== src/Replication/Versions.antt =====
-- crates/cordelia-replication/src/engine.rs: versions of an item, and which of them a stored one makes known.
use cordelia_core.Prelude.{
  String, Bool, true, false, Option, some, List, ◌≡◌, ◌≢◌, ◌⊎◌, refl, arith, string_eq, option_eq,
}
use cordelia_core.Prelude.Text.{text_leb}
use cordelia_core.Protocol.Messages.{Hashing, FetchedItem}
use cordelia_core.Storage.Rows.{ok, L2ItemRow}
use cordelia_core.Storage.Interface.{ItemStore, IsRowOf, Working}
use cordelia_core.Replication.Culture.{validate_checksum}
use cordelia_core.Replication.Engine.{is_tombstone_item, write_of, is_known}
use cordelia_core.Replication.Receive.{IsAdmitted}

-- An item that on_receive takes in if it is news.
pub record IsGood (h : Hashing) {st : ItemStore} (works : Working st) (our_groups : List String)
    (relay_accepts : Option (String → Bool)) (item : FetchedItem) : Type 0 where
  pub admitted : IsAdmitted our_groups relay_accepts item
  pub live : is_tombstone_item item ≡ false
  pub valid : validate_checksum h item ≡ true
  pub fits : works.storable (write_of item) ≡ true

-- An item that gives way to `newest`: one of another id, an older version with other content, or
-- `newest` itself. Nothing is asked of its size, group or checksum.
abbrev pub Yields : FetchedItem → FetchedItem → Type 0
Yields newest item =
    (item.item_id ≢ newest.item_id)
    ⊎ ((is_tombstone_item item ≡ false)
        × (text_leb newest.updated_at item.updated_at ≡ false)
        × (item.checksum ≢ newest.checksum))
    ⊎ (item ≡ newest)

pub row_of_older :
    (h : Hashing) (newest item : FetchedItem) (row : L2ItemRow)
    → IsRowOf h (write_of item) row
    → validate_checksum h item ≡ true
    → text_leb newest.updated_at item.updated_at ≡ false
    → item.checksum ≢ newest.checksum
    → is_known (ok (some row)) newest ≡ false
unfolding is_known
row_of_older h newest item row same valid older differ =
    let at = same.updated_at item.updated_at refl in
    let sum = same.checksum in rw (at, sum, older) (ground arith)

pub row_of_newest :
    (h : Hashing) (newest item : FetchedItem) (row : L2ItemRow)
    → IsRowOf h (write_of newest) row
    → text_leb item.updated_at newest.updated_at ≡ true
    → is_known (ok (some row)) item ≡ true
unfolding is_known
row_of_newest h newest item row same older =
    let at = same.updated_at newest.updated_at refl in rw (at, older) (ground arith)

pub row_of_same :
    (h : Hashing) (a again : FetchedItem) (row : L2ItemRow)
    → IsRowOf h (write_of a) row
    → validate_checksum h a ≡ true
    → again.checksum ≡ a.checksum
    → is_known (ok (some row)) again ≡ true
unfolding is_known
row_of_same h a again row same valid content =
    let sum = same.checksum in rw (content, sum) (ground arith)
