-- ===== src/Storage/Search.antt =====
-- crates/cordelia-storage/src/lib.rs: the metadata of items, the counts over the tables, and full-text
-- search. The index of FTS5 and the white space of Unicode are parameters.
use cordelia_core.Prelude.{
  ℕ, String, ◌<>◌, not, Option, none, some, List, [], ◌∷◌, map, filter, take, length, contains,
  if◌then◌else◌, ◌==◌, ◌+◌, string_eq, option_eq,
}
use cordelia_core.Prelude.Dict.{lookup, values}
use cordelia_core.Prelude.Sort.{sort_by}
use cordelia_core.Storage.Rows.{
  Result, ok, err, sqlite, L2ItemRow, L2ItemMeta, GroupRow, GroupMemberRow,
}
use cordelia_core.Storage.Items.{SqliteStorage, available}
use cordelia_core.Storage.Groups.{by_text}

abbrev pub meta_of : L2ItemRow → L2ItemMeta
meta_of row = record {
  owner_id = row.owner_id;
  visibility = row.visibility;
  group_id = row.group_id;
  author_id = row.author_id;
  key_version = row.key_version;
  parent_id = row.parent_id;
  is_copy = row.is_copy;
}

abbrev pub meta_of? : Option L2ItemRow → Option L2ItemMeta
meta_of? none = none
meta_of? (some row) = some (meta_of row)

unfoldable pub read_l2_item_meta : String → SqliteStorage → Result (Option L2ItemMeta)
read_l2_item_meta id s = elim (available s) [
  | none ↦ elim s.meta_failure [
    | none ↦ ok (meta_of? (lookup id s.l2_items))
    | some e ↦ err (sqlite e)
  ]
  | some e ↦ err e
]

-- `SELECT DISTINCT`
abbrev pub distinct : List (Option String) → List String
distinct [] = []
distinct (none ∷ ids) = distinct ids
distinct (some id ∷ ids) = let rest = distinct ids in if contains rest id then rest else id ∷ rest

unfoldable pub list_stored_group_ids : SqliteStorage → Result (List String)
list_stored_group_ids s = elim (available s) [
  | none ↦ ok (distinct (map (λ (row : L2ItemRow). row.group_id) (values s.l2_items)))
  | some e ↦ err e
]

pub record GroupStats : Type 0 where
  pub group_id : String
  pub item_count : ℕ
  pub data_bytes : ℕ
  pub member_count : ℕ

pub record StorageStats : Type 0 where
  pub l2_item_count : ℕ
  pub l2_data_bytes : ℕ
  pub group_count : ℕ
  pub groups : List GroupStats

-- `COALESCE(SUM(LENGTH(data)), 0)`
abbrev pub sum_bytes : List L2ItemRow → ℕ
sum_bytes [] = 0
sum_bytes (row ∷ rows) = length row.bytes + sum_bytes rows

abbrev pub items_of : String → SqliteStorage → List L2ItemRow
items_of group_id s =
    filter (λ (row : L2ItemRow). row.group_id == some group_id) (values s.l2_items)

-- One row of the join. A member that was removed still has a row, and counts.
abbrev pub stats_of : SqliteStorage → GroupRow → GroupStats
stats_of s g = record {
  group_id = g.id;
  item_count = length (items_of g.id s);
  data_bytes = sum_bytes (items_of g.id s);
  member_count = length (filter (λ (m : GroupMemberRow). m.group_id == g.id) s.group_members);
}

unfoldable pub storage_stats : SqliteStorage → Result StorageStats
storage_stats s = elim (available s) [
  | some e ↦ err e
  | none ↦ ok (record {
    l2_item_count = length (values s.l2_items);
    l2_data_bytes = sum_bytes (values s.l2_items);
    group_count = length (values s.groups);
    groups = map (stats_of s) (sort_by (by_text (λ (g : GroupRow). g.id)) (values s.groups));
  })
]

-- `trim`, `split_whitespace`, and the ids that match a query of FTS5, the best first.
pub record FullText : Type 0 where
  pub trim : String → String
  pub split_whitespace : String → List String
  pub ranked : String → SqliteStorage → List String

-- `t.replace('"', "")`
abbrev pub without_quotes : String → String
without_quotes String.[] = String.[]
without_quotes (String.◌∷◌ c s) =
    let rest = without_quotes s in
    if String.◌∷◌ c String.[] == "\"" then rest else String.◌∷◌ c rest

-- `join(" ")`
abbrev pub join : List String → String
join [] = ""
join (s ∷ []) = s
join (s ∷ t ∷ ss) = s <> (" " <> join (t ∷ ss))

abbrev pub safe_query : FullText → String → String
safe_query ft trimmed = join (
    map (λ t. "\"" <> (without_quotes t <> "\""))
      (filter (λ t. not (t == "")) (ft.split_whitespace trimmed)))

unfoldable pub fts_search : FullText → String → ℕ → SqliteStorage → Result (List String)
fts_search ft query limit s =
    if ft.trim query == ""
    then ok []
    else if safe_query ft (ft.trim query) == ""
    then ok []
    else elim (available s) [
      | some e ↦ err e
      | none ↦ ok (take limit (ft.ranked (safe_query ft (ft.trim query)) s))
    ]
