-- ===== src/Replication/Tests.antt =====
-- crates/cordelia-replication and crates/cordelia-storage: runs on concrete items, and each theorem at one.
use cordelia_core.Prelude.{
  ℕ, zero, suc, String, ◌<>◌, true, false, none, some, List, [], ◌∷◌, ◌≡◌, ◌≢◌, ◌⊎◌, inl, inr, refl,
  arith, All, ◌==◌, string_eq,
}
use cordelia_core.Prelude.Dict.{lookup, insert}
use cordelia_core.Prelude.Text.{text_leb, lex_leb}
use cordelia_core.Protocol.Messages.{Bytes, Hashing, FetchedItem, ItemHeader}
use cordelia_core.Storage.Rows.{ok, L2ItemRow}
use cordelia_core.Storage.Interface.{ItemStore, IsItemStore, IsRowOf}
use cordelia_core.Storage.Items
use cordelia_core.Storage.Items.{SqliteStorage, sqlite_storage, read_l2_item, available, is_row}
use cordelia_core.Storage.ItemLaws.{sqlite_storage-IsItemStore, sqlite_working}
use cordelia_core.Replication.Culture.{stored, validate_checksum, diff_headers}
use cordelia_core.Replication.Engine.{Texts, on_receive, write_of, is_known, is_tombstone_item}
use cordelia_core.Replication.Receive.{
  IsAdmitted, on_receive-stored, on_receive-others, on_receive-refused, on_receive-not_older,
}
use cordelia_core.Replication.Versions.{IsGood, Yields}
use cordelia_core.Replication.Convergence.{
  receive_all, receive_all-newest, on_receive-repeated, on_receive-tie,
}
use cordelia_core.Replication.Diff.{diff_headers_lem}
use cordelia_core.Replication.Batches.{split_into_batches, concat, Fits, split_into_batches_lem}

-- One digit for each byte, in place of a hash.
abbrev digits : List ℕ → String
digits [] = ""
digits (zero ∷ bs) = "0" <> digits bs
digits (suc n ∷ bs) = "1" <> digits bs

abbrev hashing : Hashing
hashing = record { sha256_hex = digits; utf8 = λ s. [] }

abbrev texts : Texts
texts = record { of_ℕ = λ n. "n"; of_error = λ e. "error" }

apart : (s t : String) → (s == t) ≡ false → s ≢ t
apart s t differ = λ e. absurd (ground arith)

abbrev item : Bytes → String → String → FetchedItem
item blob checksum updated_at = record {
  item_id = "i";
  item_type = "entity";
  encrypted_blob = blob;
  checksum = checksum;
  author_id = "alice";
  group_id = "g1";
  key_version = 1;
  parent_id = none;
  is_copy = false;
  updated_at = updated_at;
}

abbrev older : FetchedItem
older = item (0 ∷ []) "0" "2026-01-01"

abbrev newer : FetchedItem
newer = item (1 ∷ []) "1" "2026-01-02"

-- Other content at the time of `newer`.
abbrev rival : FetchedItem
rival = item (1 ∷ 1 ∷ []) "11" "2026-01-02"

abbrev empty : SqliteStorage
empty = record {
  is_poisoned = false;
  failure = none;
  meta_failure = none;
  clock = "2026-02-01";
  l2_items = [];
  access_log = [];
  groups = [];
  group_members = [];
  l1_hot = [];
  l2_index = none;
  devices = none;
}

abbrev groups : List String
groups = "g1" ∷ []

newer_arrives :
    (on_receive hashing texts (sqlite_storage hashing) newer groups none empty).0 ≡ stored
unfolding on_receive is_known lookup string_eq Items.write_l2_item read_l2_item available is_row
newer_arrives = refl

newer_is_news : is_known (read_l2_item "i" empty) newer ≡ false
unfolding is_known lookup read_l2_item available
newer_is_news = refl

rival_is_news : is_known (read_l2_item "i" empty) rival ≡ false
unfolding is_known lookup read_l2_item available
rival_is_news = refl

empty_works : (sqlite_working hashing).Works empty
unfolding sqlite_working available
empty_works = refl

newer-IsGood : IsGood hashing (sqlite_working hashing) groups none newer
unfolding sqlite_working string_eq is_row
newer-IsGood = record {
  admitted = record { size = refl; group = refl };
  live = refl;
  valid = refl;
  fits = refl;
}

rival-IsGood : IsGood hashing (sqlite_working hashing) groups none rival
unfolding sqlite_working string_eq is_row
rival-IsGood = record {
  admitted = record { size = refl; group = refl };
  live = refl;
  valid = refl;
  fits = refl;
}

older-Yields : Yields newer older
unfolding text_leb lex_leb string_eq
older-Yields = inr (inl (refl, refl, apart "0" "1" refl))

sqlite_storage-IsItemStore_example : IsItemStore hashing (sqlite_storage hashing)
sqlite_storage-IsItemStore_example = sqlite_storage-IsItemStore hashing

abbrev st : ItemStore
st = sqlite_storage hashing

abbrev stored_once : SqliteStorage
stored_once = (on_receive hashing texts st newer groups none empty).1

on_receive-stored_example :
    IsAdmitted groups none newer
    × (((is_tombstone_item newer ≡ true) × (read_l2_item "i" stored_once ≡ ok none))
        ⊎ ((is_tombstone_item newer ≡ false)
            × (validate_checksum hashing newer ≡ true)
            × (row : L2ItemRow) × (read_l2_item "i" stored_once ≡ ok (some row))
            × IsRowOf hashing (write_of newer) row))
on_receive-stored_example =
    on_receive-stored hashing texts st (sqlite_storage-IsItemStore hashing) newer groups none empty
      newer_arrives

on_receive-others_example : read_l2_item "j" stored_once ≡ read_l2_item "j" empty
unfolding string_eq
on_receive-others_example =
    on_receive-others hashing texts st (sqlite_storage-IsItemStore hashing) newer groups none empty
      "j" (apart "i" "j" refl)

on_receive-refused_example :
    read_l2_item "i" (on_receive hashing texts st newer [] none empty).1 ≡ read_l2_item "i" empty
unfolding on_receive string_eq
on_receive-refused_example =
    on_receive-refused hashing texts st (sqlite_storage-IsItemStore hashing) newer [] none empty "i"
      (ground arith)

receive_all-newest_example :
    (row : L2ItemRow) × (read_l2_item "i"
        (receive_all hashing texts st groups none (older ∷ newer ∷ older ∷ []) empty)
      ≡ ok (some row))
    × IsRowOf hashing (write_of newer) row
receive_all-newest_example =
    receive_all-newest hashing texts st groups none (sqlite_storage-IsItemStore hashing)
      (sqlite_working hashing) newer (older ∷ []) (older ∷ []) empty newer-IsGood empty_works
      (inl newer_is_news) (older-Yields, tt) (older-Yields, tt)

-- The content of `older`, written again after `newer`.
abbrev again : FetchedItem
again = item (0 ∷ []) "0" "2026-01-03"

older_is_news : is_known (read_l2_item "i" empty) older ≡ false
unfolding is_known lookup read_l2_item available
older_is_news = refl

older-IsGood : IsGood hashing (sqlite_working hashing) groups none older
unfolding sqlite_working string_eq is_row
older-IsGood = record {
  admitted = record { size = refl; group = refl };
  live = refl;
  valid = refl;
  fits = refl;
}

again-IsGood : IsGood hashing (sqlite_working hashing) groups none again
unfolding sqlite_working string_eq is_row
again-IsGood = record {
  admitted = record { size = refl; group = refl };
  live = refl;
  valid = refl;
  fits = refl;
}

on_receive-repeated_example :
    ((row : L2ItemRow) × (read_l2_item "i"
          (receive_all hashing texts st groups none (older ∷ again ∷ newer ∷ []) empty)
        ≡ ok (some row))
      × IsRowOf hashing (write_of newer) row)
    × ((row : L2ItemRow) × (read_l2_item "i"
            (receive_all hashing texts st groups none (older ∷ newer ∷ again ∷ []) empty)
          ≡ ok (some row))
        × IsRowOf hashing (write_of again) row)
unfolding string_eq text_leb
on_receive-repeated_example =
    on_receive-repeated hashing texts st groups none (sqlite_storage-IsItemStore hashing)
      (sqlite_working hashing) older again newer empty older-IsGood again-IsGood newer-IsGood
      empty_works refl refl refl (apart "0" "1" refl) refl refl older_is_news

on_receive-tie_example :
    ((row : L2ItemRow) × (read_l2_item "i"
          (receive_all hashing texts st groups none (newer ∷ rival ∷ []) empty)
        ≡ ok (some row))
      × IsRowOf hashing (write_of newer) row)
    × ((row : L2ItemRow) × (read_l2_item "i"
            (receive_all hashing texts st groups none (rival ∷ newer ∷ []) empty)
          ≡ ok (some row))
        × IsRowOf hashing (write_of rival) row)
on_receive-tie_example =
    on_receive-tie hashing texts st groups none (sqlite_storage-IsItemStore hashing)
      (sqlite_working hashing) newer rival empty newer-IsGood rival-IsGood empty_works refl refl
      newer_is_news rival_is_news

abbrev row_of_newer : L2ItemRow
row_of_newer = Items.upserted hashing "2026-02-01" none (write_of newer)

newer_is_read : read_l2_item "i" stored_once ≡ ok (some row_of_newer)
unfolding on_receive is_known lookup insert string_eq Items.write_l2_item read_l2_item available
    is_row Items.log_access
newer_is_read = refl

on_receive-not_older_example :
    (row : L2ItemRow) × (read_l2_item "i"
        (on_receive hashing texts st older groups none stored_once).1
      ≡ ok (some row))
    × (text_leb row_of_newer.updated_at row.updated_at ≡ true)
unfolding string_eq
on_receive-not_older_example =
    on_receive-not_older hashing texts st (sqlite_storage-IsItemStore hashing) older groups none
      stored_once row_of_newer refl newer_is_read

abbrev header : String → String → ItemHeader
header id checksum = record {
  item_id = id;
  item_type = "entity";
  checksum = checksum;
  updated_at = "2026-01-01";
  author_id = "alice";
  is_deletion = false;
}

abbrev headers : List ItemHeader
headers = header "a" "1" ∷ header "b" "2" ∷ []

diff_headers_lem_example :
    diff_headers headers (header "a" "0" ∷ header "b" "2" ∷ header "c" "3" ∷ []) ≡ "a" ∷ "c" ∷ []
unfolding string_eq
diff_headers_lem_example =
    diff_headers_lem headers (header "a" "0" ∷ header "b" "2" ∷ header "c" "3" ∷ [])

split_into_batches_lem_example :
    (concat hashing (split_into_batches hashing (older ∷ newer ∷ [])) ≡ older ∷ newer ∷ [])
    × All (Fits hashing) (split_into_batches hashing (older ∷ newer ∷ []))
split_into_batches_lem_example = split_into_batches_lem hashing (older ∷ newer ∷ [])
