-- ===== src/Swarm/Tests.antt =====
-- crates/cordelia-node/src/swarm_task.rs: each theorem at a concrete descriptor.
use cordelia_core.Prelude.{
  length, String, true, false, Option, none, some, [], ◌∷◌, ◌≡◌, ◌≢◌, ◌⊎◌, refl, arith, ◌==◌,
  string_eq,
}
use cordelia_core.Prelude.Dict.{lookup}
use cordelia_core.Prelude.Text.{text_leb, lex_leb}
use cordelia_core.Protocol.Messages.{Hashing, GroupDescriptor, FetchedItem, SyncRequest}
use cordelia_core.Storage.Rows.{ok, GroupRow, GroupMemberRow}
use cordelia_core.Storage.Items.{SqliteStorage, available, sqlite_storage}
use cordelia_core.Storage.Groups.{read_group, list_members}
use cordelia_core.Swarm.Descriptors.{
  MergeResult, Signing, merge_descriptor, name_for, signature_holds, verify_descriptor_signature,
}
use cordelia_core.Swarm.Merge.{IsAuthorised, merge_descriptor-IsAuthorised}
use cordelia_core.Storage.Interface.{ItemStore}
use cordelia_core.Storage.Items
use cordelia_core.Storage.ItemLaws.{sqlite_storage-IsItemStore}
use cordelia_core.Replication.Culture.{stored}
use cordelia_core.Replication.Engine.{Texts, on_receive, is_known}
use cordelia_core.Swarm.Requests.{handle_sync_request, handle_fetch_request}
use cordelia_core.Swarm.Exchange.{handle_fetch_request-on_receive, handle_sync_request_lem}
use cordelia_core.Protocol.Messages.{is_tombstone}
use cordelia_core.Swarm.Announce.{NodeIdentity, descriptor_of, build_descriptor}
use cordelia_core.Swarm.Announced.{build_descriptor-merge_descriptor}
use cordelia_core.Swarm.Tombstone.{merge_descriptor_tombstone}
use cordelia_core.Swarm.Unverified.{merge_descriptor_unverified}

abbrev hashing : Hashing
hashing = record { sha256_hex = λ bytes. "hash"; utf8 = λ s. [] }

-- Every signature that decodes verifies.
abbrev signing : Signing
signing = record { decode = λ s. some []; verify = λ key message sig. true }

abbrev row : GroupRow
row = record {
  id = "g1";
  name = "Group";
  culture = "chatty";
  security_policy = "closed";
  created_at = "2026-01-01";
  updated_at = "2026-01-01";
  owner_id = some "alice";
  owner_pubkey = some "aa";
  signature = some "cc";
}

abbrev storage : SqliteStorage
storage = record {
  is_poisoned = false;
  failure = none;
  meta_failure = none;
  clock = "2026-02-01";
  l2_items = [];
  access_log = [];
  groups = ("g1", row) ∷ [];
  group_members = [];
  l1_hot = [];
  l2_index = none;
  devices = none;
}

abbrev descriptor : Option String → GroupDescriptor
descriptor owner_pubkey = record {
  id = "g1";
  culture = "taciturn";
  updated_at = "2026-01-02";
  checksum = "hash";
  owner_id = none;
  owner_pubkey = owner_pubkey;
  signature = some "dd";
}

abbrev nothing_yet : MergeResult
nothing_yet = record { upserted = []; tombstoned = [] }

merge_descriptor-IsAuthorised_example :
    (merge_descriptor hashing signing (descriptor (some "bb")) (nothing_yet, storage)
      ≡ (nothing_yet, storage))
    ⊎ IsAuthorised hashing signing "aa" row (descriptor (some "bb"))
unfolding read_group available lookup string_eq
merge_descriptor-IsAuthorised_example =
    merge_descriptor-IsAuthorised hashing signing (descriptor (some "bb")) nothing_yet storage row
      "aa" "cc" refl refl refl

apart : (s t : String) → (s == t) ≡ false → s ≢ t
apart s t differ = λ e. absurd (ground arith)

merge_descriptor_unverified_example :
    (row' : GroupRow) × (read_group "g1"
        (merge_descriptor hashing signing (descriptor none) (nothing_yet, storage)).1
      ≡ ok (some row'))
    × (row'.culture ≡ "taciturn")
    × (row'.signature ≡ some "cc")
unfolding available lookup string_eq text_leb lex_leb
merge_descriptor_unverified_example =
    merge_descriptor_unverified hashing signing (descriptor none) nothing_yet storage row "dd" refl
      refl refl refl refl refl refl refl

abbrev texts : Texts
texts = record { of_ℕ = λ n. "n"; of_error = λ e. "error" }

abbrev item : FetchedItem
item = record {
  item_id = "i";
  item_type = "entity";
  encrypted_blob = 1 ∷ [];
  checksum = "hash";
  author_id = "alice";
  group_id = "g1";
  key_version = 3000000000;
  parent_id = none;
  is_copy = false;
  updated_at = "2026-01-01";
}

abbrev st : ItemStore
st = sqlite_storage hashing

item_arrives : (on_receive hashing texts st item ("g1" ∷ []) none storage).0 ≡ stored
unfolding on_receive is_known lookup string_eq Items.write_l2_item Items.read_l2_item available
    Items.is_row
item_arrives = refl

handle_fetch_request-on_receive_example :
    handle_fetch_request hashing texts st
      ("i" ∷ [])
      (on_receive hashing texts st item ("g1" ∷ []) none storage).1
    ≡ item ∷ []
unfolding string_eq
handle_fetch_request-on_receive_example =
    handle_fetch_request-on_receive hashing texts st (sqlite_storage-IsItemStore hashing) item
      ("g1" ∷ []) none storage (omega arith) refl item_arrives

abbrev page : SyncRequest
page = record { group_id = "g1"; since = none; limit = 10 }

handle_sync_request_lem_example :
    (length (handle_sync_request page storage).items ≡ 0)
    × ((handle_sync_request page storage).has_more ≡ false)
unfolding available
handle_sync_request_lem_example = handle_sync_request_lem page storage refl

abbrev member : GroupMemberRow
member = record {
  group_id = "g1";
  entity_id = "bob";
  role = "member";
  posture = some "active";
  joined_at = "2026-01-01";
}

abbrev with_member : SqliteStorage
with_member = record storage { group_members = member ∷ [] }

abbrev tombstone : GroupDescriptor
tombstone = record (descriptor (some "aa")) { culture = "__deleted__" }

merge_descriptor_tombstone_example :
    (list_members "g1" (merge_descriptor hashing signing tombstone (nothing_yet, with_member)).1
      ≡ ok [])
    × ((merge_descriptor hashing signing tombstone (nothing_yet, with_member)).0.tombstoned
        ≡ "g1" ∷ [])
unfolding available lookup string_eq text_leb lex_leb read_group name_for signature_holds
    verify_descriptor_signature
merge_descriptor_tombstone_example =
    merge_descriptor_tombstone hashing signing tombstone nothing_yet with_member "Group" refl refl
      refl refl refl

-- The key of a node whose signatures `signing` accepts.
abbrev identity : NodeIdentity
identity = record { pubkey_hex = "aa"; sign_hex = λ message. "cc" }

abbrev unsigned : GroupRow
unsigned = record row { id = "g2"; owner_pubkey = none; signature = none }

g2_is_new : read_group "g2" storage ≡ ok none
unfolding read_group lookup string_eq available
g2_is_new = refl

g2_is_live : is_tombstone (descriptor_of hashing unsigned) ≡ false
unfolding string_eq
g2_is_live = refl

storage_works : available storage ≡ none
unfolding available
storage_works = refl

build_descriptor-merge_descriptor_example :
    (got : GroupRow) × (read_group "g2"
        (merge_descriptor hashing signing
          (build_descriptor hashing identity "alice" unsigned storage).0
          (nothing_yet, storage)).1
      ≡ ok (some got))
    × (got.culture ≡ "chatty")
build_descriptor-merge_descriptor_example =
    build_descriptor-merge_descriptor hashing signing identity "alice" unsigned storage nothing_yet
      storage ([], refl, λ message. ([], refl, refl)) refl g2_is_live refl storage_works g2_is_new
