-- ===== src/Storage/Schema.antt =====
-- crates/cordelia-storage/src/lib.rs, schema_v4.sql to schema_v7.sql: `ensure_schema`, the migration of a
-- database when it is opened. The statements of a batch all succeed.
use cordelia_core.Prelude.{
  ℕ, Bool, true, Option, none, some, if◌then◌else◌, ltb, ◌==◌, ◌||◌, nat_eq, max, ◌≡◌,
}
use cordelia_core.Storage.Rows.{Result, ok, err, schema_version_mismatch}

-- What the migrations look at or change: the table and the row of `schema_version`, the table `devices`,
-- the columns of the owner, and whether a membership may be `removed`.
pub record Schema : Type 0 where
  pub has_version_table : Bool
  pub version : Option ℕ
  pub has_devices : Bool
  pub has_owner_columns : Bool
  pub allows_removed : Bool

-- schema_v4.sql, on a database without `schema_version`.
abbrev pub run_v4 : Schema → Schema
run_v4 s = record s {
  has_version_table = true;
  version = some 6;
  has_owner_columns = true;
  allows_removed = true;
}

abbrev pub run_v5 : Schema → Schema
run_v5 s = record s { has_devices = true; version = some 5 }

-- The second batch of statements, or the update of the version alone.
abbrev pub run_v6 : Schema → Schema
run_v6 s = record s { has_owner_columns = true; version = some 6 }

abbrev pub run_v7 : Schema → Schema
run_v7 s = record s { allows_removed = true; version = some 7 }

abbrev pub found_version : Schema → ℕ
found_version s = elim s.version [ none ↦ 0 | some v ↦ v ]

abbrev pub migrate_v4 : Schema → Schema
migrate_v4 s = if found_version s == 4 then run_v5 s else s

abbrev pub migrate_v5 : Schema → Schema
migrate_v5 s = if found_version s == 5 then run_v6 s else s

abbrev pub migrate_v6 : Schema → Schema
migrate_v6 s = if found_version s == 6 then run_v7 s else s

-- The schema that the migrations start from.
abbrev pub initialised : Schema → Schema
initialised s = if s.has_version_table then s else run_v4 s

unfoldable pub ensure_schema : Schema → Result (Unit {0}) × Schema
ensure_schema s =
    if ltb (found_version (initialised s)) 4
    then (err (schema_version_mismatch 4 (found_version (initialised s))), initialised s)
    else (ok tt, migrate_v6 (migrate_v5 (migrate_v4 (initialised s))))

-- What an upgrade from a version leaves.
abbrev pub IsUpgraded : ℕ → Schema → Schema → Type 0
IsUpgraded v before after =
    (after.version ≡ some (max v 7))
    × (after.has_version_table ≡ before.has_version_table)
    × (after.has_devices ≡ (v == 4 || before.has_devices))
    × (after.allows_removed ≡ (ltb v 7 || before.allows_removed))

-- Upgraded, and at rest.
abbrev pub IsDone : ℕ → Schema → Result (Unit {0}) × Schema → Type 0
IsDone v before r = (r.0 ≡ ok tt) × IsUpgraded v before r.1 × (ensure_schema r.1 ≡ (ok tt, r.1))
