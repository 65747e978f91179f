-- ===== src/Api/Tests.antt =====
-- crates/cordelia-api/src/lib.rs: each theorem at a concrete state.
use cordelia_core.Prelude.{
  String, ◌<>◌, false, Option, none, some, [], ◌∷◌, ◌≡◌, refl, ◌==◌, string_eq, ltb, length,
}
use cordelia_core.Prelude.Dict.{lookup}
use cordelia_core.Prelude.Text.{codes}
use cordelia_core.Protocol.Messages.{Bytes, Hashing}
use cordelia_core.Storage.Rows.{ok, GroupRow, GroupMemberRow}
use cordelia_core.Storage.Items.{SqliteStorage, available}
use cordelia_core.Storage.Groups.{read_group}
use cordelia_core.Storage.Search.{FullText}
use cordelia_core.Swarm.Descriptors.{MergeResult, Signing, merge_descriptor}
use cordelia_core.Swarm.Announce.{NodeIdentity, build_descriptor}
use cordelia_core.Api.State.{AppState, Json, answer, check_auth}
use cordelia_core.Api.Requests.{L2WriteRequest}
use cordelia_core.Api.Items.{l2_write, l2_delete}
use cordelia_core.Api.Groups.{groups_delete}
use cordelia_core.Api.Router.{router, post_l1_delete}
use cordelia_core.Api.Auth.{router-unauthorized}
use cordelia_core.Api.Writes
use cordelia_core.Api.Writes.{l2_write_lem}
use cordelia_core.Api.Deletes
use cordelia_core.Api.Deletes.{l2_delete_lem}
use cordelia_core.Api.GroupDeletion.{IsGone, groups_delete-IsGone}
use cordelia_core.Api.SignedDeletion.{groups_delete-merge_descriptor}

-- A document is its text, a list of bytes; the empty one cannot be printed.
abbrev document : Json
document = record {
  Value = Bytes;
  null = [];
  to_vec = λ v. elim v [ [] ↦ none | b ∷ bs ↦ some (b ∷ bs) ];
  to_vec_error = λ v. "empty";
  from_slice = λ bs. some bs;
  base64 = λ bs. "bytes";
  of_ℕ = λ n. "n";
  of_error = λ e. "error";
  of_tenths = λ n d. "n";
}

abbrev hashing : Hashing
hashing = record { sha256_hex = λ bytes. "hash"; utf8 = λ s. [] }

abbrev full_text : FullText
full_text = record { trim = λ s. s; split_whitespace = λ s. s ∷ []; ranked = λ q s. [] }

abbrev group : GroupRow
group = record {
  id = "g1";
  name = "Group";
  culture = "chatty";
  security_policy = "{}";
  created_at = "2026-01-01";
  updated_at = "2026-01-01";
  owner_id = some "alice";
  owner_pubkey = some "aa";
  signature = some "cc";
}

abbrev member : GroupMemberRow
member = record {
  group_id = "g1";
  entity_id = "alice";
  role = "owner";
  posture = some "active";
  joined_at = "2026-01-01";
}

abbrev tables : SqliteStorage
tables = record {
  is_poisoned = false;
  failure = none;
  meta_failure = none;
  clock = "2026-02-01";
  l2_items = [];
  access_log = [];
  groups = ("g1", group) ∷ [];
  group_members = member ∷ [];
  l1_hot = ("alice", []) ∷ [];
  l2_index = none;
  devices = some [];
}

abbrev state : AppState
state = record {
  storage = tables;
  node_id = "n1";
  entity_id = "alice";
  bearer_token = "t";
  uptime_secs = 0;
  write_notify = some [];
  shared_groups = some ("g1" ∷ []);
  peer_count_fn = none;
  peer_list_fn = none;
  replication_stats = none;
  bootstrap_sync = none;
}

abbrev valid : Option String
valid = some "Bearer t"

token_holds : check_auth Bytes state valid ≡ none
unfolding check_auth string_eq
token_holds = refl

token_differs : ("Bearer s" == "Bearer " <> state.bearer_token) ≡ false
unfolding string_eq
token_differs = refl

router-unauthorized_example :
    router document hashing full_text (some "Bearer s") (post_l1_delete "alice") state
    ≡ (answer Bytes 401 "invalid bearer token", state)
router-unauthorized_example =
    router-unauthorized document hashing full_text (some "Bearer s") (post_l1_delete "alice") state
      token_differs

abbrev write : L2WriteRequest Bytes
write = record {
  item_id = "i";
  item_type = "entity";
  value = 1 ∷ [];
  meta = some (record {
    owner_id = none;
    visibility = some "group";
    group_id = some "g1";
    author_id = none;
    key_version = none;
    parent_id = none;
    is_copy = none;
  });
}

l2_write_lem_example :
    Writes.Outcome document hashing full_text write state
      (l2_write document hashing full_text valid write state)
l2_write_lem_example = l2_write_lem document hashing full_text valid write state token_holds

-- The item that was just written is deleted.
l2_delete_lem_example :
    Deletes.Outcome document hashing full_text "i"
      (l2_write document hashing full_text valid write state).1
      (l2_delete document hashing full_text valid "i"
        (l2_write document hashing full_text valid write state).1)
unfolding l2_write check_auth string_eq cordelia_core.Storage.Items.write_l2_item available
    cordelia_core.Storage.Items.is_row
l2_delete_lem_example =
    l2_delete_lem document hashing full_text valid "i"
      (l2_write document hashing full_text valid write state).1 refl

group_is_there : read_group "g1" tables ≡ ok (some group)
unfolding read_group lookup string_eq available
group_is_there = refl

works : available tables ≡ none
unfolding available
works = refl

groups_delete-IsGone_example :
    ((groups_delete document valid "g1" state).0.status ≡ 200)
    × IsGone document "g1" valid (groups_delete document valid "g1" state).1
groups_delete-IsGone_example =
    groups_delete-IsGone document valid "g1" group state token_holds works group_is_there

-- The signature of the row's payload, which has twenty bytes, and not of the tombstone's, which is longer.
abbrev signing : Signing
signing = record { decode = λ s. some []; verify = λ key message sig. ltb (length message) 25 }

abbrev coded : Hashing
coded = record { sha256_hex = λ bytes. "hash"; utf8 = codes }

abbrev identity : NodeIdentity
identity = record { pubkey_hex = "aa"; sign_hex = λ message. "cc" }

groups_delete-merge_descriptor_example :
    (row : GroupRow) × (read_group "g1" (groups_delete document valid "g1" state).1.storage
      ≡ ok (some row))
    × ((r : MergeResult) (s peer : SqliteStorage)
        → merge_descriptor coded signing (build_descriptor coded identity "alice" row s).0 (r, peer)
          ≡ (r, peer))
groups_delete-merge_descriptor_example =
    groups_delete-merge_descriptor coded signing document identity "alice" valid "g1" group state
      "aa" "cc" [] [] token_holds works group_is_there refl refl refl refl refl
