-- ===== src/Examples/State.antt =====
-- Histories in memory, migrations and settings.
use envorca.Prelude.{
  ℤ, leb_ℤ, some, ℕ, suc, ◌≤◌, ◌≡◌, refl, true, none, List, [], ◌∷◌, map, length, reverse, last_n,
  min, All, arith, pos,
}
use envorca.Text.{bytes, index_byte}
use envorca.Text.Decimal.{atoi, decimal, digits_value}
use envorca.Wsl.{ok, err}
use envorca.State.Sql.{
  Row, Table, Database, meaning, select_latest, order_by_id_desc, insert_desc, id_in, rows_until,
}
use envorca.State.History.{record_row, recent_rows}
use envorca.State.Retention.{
  IsOrdered, Left, Recorded, opened, recorded, entry, record_row-Left, recent_rows-Recorded,
}
use envorca.State.Migrations.{
  Migration, Schema, Sqlite, migrate, migrate_from, migrate_one, apply_migration, sort_by_name,
  insert_by_name, name_lt, parse_version, without_extension, has_version,
}
use envorca.State.Handle.{schema_version}
use envorca.State.Highest.{IsRecorded, schema_version-migrate}
use envorca.State.Migrated.{VersionIn, migrate-again}
use envorca.Examples.{memory_database, empty_table}

abbrev numbers : Database ℕ
numbers = memory_database ℕ

abbrev row : ℕ → ℕ → Row ℕ
row id v = record { id = id; performed_at = bytes "noon"; values = v }

-- The tables after one and after two records with a bound of one row.
abbrev first_table : Table ℕ
first_table = record { rows = row 1 7 ∷ []; last_id = 1 }

abbrev second_table : Table ℕ
second_table = record { rows = row 2 8 ∷ []; last_id = 2 }

first_IsOrdered : IsOrdered first_table
first_IsOrdered = record { ascending = (tt, tt); bounded = (omega arith, tt) }

record_row-Left_example :
    Left numbers 1 8 first_table
      (record_row numbers 1 (bytes "record") (bytes "prune") 8 first_table).1
      (record_row numbers 1 (bytes "record") (bytes "prune") 8 first_table).0
record_row-Left_example =
    record_row-Left numbers 1 (bytes "record") (bytes "prune") 8 first_table first_IsOrdered

once : Recorded numbers 1 (bytes "record") (bytes "prune") first_table ((bytes "noon", 7) ∷ [])
unfolding record_row meaning select_latest order_by_id_desc insert_desc id_in
once = recorded 7 first_table (opened empty_table refl) refl

twice :
    Recorded numbers 1
      (bytes "record")
      (bytes "prune")
      second_table
      ((bytes "noon", 7) ∷ (bytes "noon", 8) ∷ [])
unfolding record_row meaning select_latest order_by_id_desc insert_desc id_in
twice = recorded 8 second_table once refl

found : numbers.query_latest 5 second_table ≡ rows_until (row 2 8 ∷ []) none
unfolding select_latest order_by_id_desc insert_desc
found = refl

recent_rows-Recorded_example :
    (length second_table.rows ≤ 1)
    × (recent_rows numbers (bytes "read") (pos 5) second_table ≡ (row 2 8 ∷ [], none))
    × (map (entry numbers) (row 2 8 ∷ [])
        ≡ reverse (last_n (min 5 1) ((bytes "noon", 7) ∷ (bytes "noon", 8) ∷ [])))
recent_rows-Recorded_example =
    recent_rows-Recorded numbers (bytes "read") 5 twice (omega arith) found

-- A schema that counts the scripts it ran.
abbrev counting : Sqlite ℕ
counting = record {
  script = λ sql c. ok (suc c);
  ensure_failed = none;
  read_failed = none;
  begin_failed = λ name. none;
  insert_failed = λ name. none;
  commit_failed = λ name. none;
}

-- A database that cannot be written any more.
abbrev locked : Sqlite ℕ
locked = record counting {
  script = λ sql c. err (bytes "database is locked");
  begin_failed = λ name. some (bytes "database is locked");
}

abbrev files : List Migration
files =
    record { name = bytes "0002_history.sql"; sql = [] }
    ∷ record { name = bytes "0001_settings.sql"; sql = [] }
    ∷ []

abbrev fresh : Schema ℕ
fresh = record { versions = []; content = 0 }

abbrev current : Schema ℕ
current = record { versions = pos 1 ∷ pos 2 ∷ []; content = 2 }

files-migrate : migrate counting files fresh ≡ (none, current)
unfolding migrate migrate_from migrate_one apply_migration sort_by_name insert_by_name name_lt
    parse_version without_extension has_version bytes index_byte atoi decimal digits_value
files-migrate = refl

migrate-again_example :
    All (VersionIn current.versions) (sort_by_name files)
    × All (λ v. has_version v current.versions ≡ true) fresh.versions
    × (migrate locked files current ≡ (none, current))
migrate-again_example = migrate-again counting locked files fresh files-migrate refl refl

schema_version-migrate_example :
    (top : ℤ) × (schema_version none current ≡ ok top)
    × IsRecorded current.versions top
    × All (λ v. leb_ℤ v top ≡ true) fresh.versions
    × All
        (λ m. (v : ℤ) × (parse_version m.name ≡ some v) × (leb_ℤ v top ≡ true))
        (sort_by_name files)
schema_version-migrate_example = schema_version-migrate counting files fresh files-migrate
