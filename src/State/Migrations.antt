-- ===== src/State/Migrations.antt =====
-- Migrate and the settings (daemon/internal/state/state.go). The schema `S` and what a script makes of
-- it are SQLite's.
use envorca.Prelude.{
  Bool, true, false, ◌||◌, Option, none, some, List, [], ◌∷◌, ◌++◌, ltb, ◌==◌, take, if◌then◌else◌,
  ℤ, eqb_ℤ,
}
use envorca.Text.{Text, bytes, index_byte, text_eq}
use envorca.Text.Decimal.{atoi}
use envorca.Wsl.{Result, ok, err}

-- An embedded file of the directory migrations.
pub record Migration : Type 0 where
  pub name : Text
  pub sql : Text

-- What stands before the last point, or the whole text (TrimSuffix of filepath.Ext, for a name).
unfoldable pub without_extension : Text → Text
without_extension [] = []
without_extension (c ∷ s) =
    let rest = without_extension s in
    elim (index_byte s b'.') [ some i ↦ c ∷ rest | none ↦ if c == b'.' then [] else c ∷ s ]

-- `none` is an error.
unfoldable pub parse_version : Text → Option ℤ
unfolding without_extension
parse_version name =
    let base = without_extension name in
    elim (index_byte base b'_') [ none ↦ none | some i ↦ atoi (take i base) ]

unfoldable pub name_lt : Text → Text → Bool
name_lt [] [] = false
name_lt [] (d ∷ t) = true
name_lt (c ∷ s) [] = false
name_lt (c ∷ s) (d ∷ t) = if ltb c d then true else if c == d then name_lt s t else false

unfoldable pub insert_by_name : Migration → List Migration → List Migration
unfolding name_lt
insert_by_name m [] = m ∷ []
insert_by_name m (n ∷ rest) =
    let later = n ∷ insert_by_name m rest in if name_lt n.name m.name then later else m ∷ n ∷ rest

-- sort.Slice by the names, which differ
unfoldable pub sort_by_name : List Migration → List Migration
unfolding insert_by_name
sort_by_name [] = []
sort_by_name (m ∷ ms) = insert_by_name m (sort_by_name ms)

unfoldable pub has_version : ℤ → List ℤ → Bool
has_version v [] = false
has_version v (x ∷ xs) = eqb_ℤ x v || has_version v xs

-- The rows of schema_migrations, and the rest of the database.
pub record Schema (S : Type 0) : Type 0 where
  pub versions : List ℤ
  pub content : S

-- What SQLite does: the effect of a script, and the errors of the other calls, `none` where one succeeds.
pub record Sqlite (S : Type 0) : Type 0 where
  pub script : Text → S → Result S
  pub ensure_failed : Option Text
  pub read_failed : Option Text
  pub begin_failed : Text → Option Text
  pub insert_failed : Text → Option Text
  pub commit_failed : Text → Option Text

-- The errors of Migrate: a file name without a version, or what SQLite said.
pub data Failure : Type 0 where
  bad_name failed : Text → Failure

module _ {S : Type 0} (q : Sqlite S) where
  -- INSERT INTO schema_migrations(version): the version is the primary key.
  abbrev pub insert_version : Text → ℤ → S → Schema S → Option Failure × Schema S
  insert_version name v c db =
      if has_version v db.versions
      then (some (failed (bytes "UNIQUE constraint failed")), db)
      else (none, record { versions = db.versions ++ v ∷ []; content = c })

  -- The errors of the INSERT and of the Commit; after either the database is as before.
  abbrev pub finish :
      Option Text → Option Text → Option Failure × Schema S → Schema S → Option Failure × Schema S
  finish (some e) commit r db = (some (failed e), db)
  finish none commit (some e, r) db = (some e, db)
  finish none (some e) (none, r) db = (some (failed e), db)
  finish none none (none, r) db = (none, r)

  abbrev pub after_script : Text → ℤ → Result S → Schema S → Option Failure × Schema S
  after_script name v (err e) db =
      (some (failed (bytes "apply migration " ++ (name ++ (bytes ": " ++ e)))), db)
  after_script name v (ok c) db =
      finish (q.insert_failed name) (q.commit_failed name) (insert_version name v c db) db

  abbrev pub after_begin : Option Text → Migration → ℤ → Schema S → Option Failure × Schema S
  after_begin (some e) m v db = (some (failed e), db)
  after_begin none m v db = after_script m.name v (q.script m.sql db.content) db

  -- The transaction of one migration.
  unfoldable pub apply_migration : Migration → ℤ → Schema S → Option Failure × Schema S
  apply_migration m v db = after_begin (q.begin_failed m.name) m v db

  abbrev pub unless_applied : Option ℤ → List ℤ → Migration → Schema S → Option Failure × Schema S
  unless_applied none applied m db = (some (bad_name m.name), db)
  unless_applied (some v) applied m db =
      if has_version v applied then (none, db) else apply_migration m v db

  -- A round of the loop of Migrate.
  unfoldable pub migrate_one : List ℤ → Migration → Schema S → Option Failure × Schema S
  unfolding parse_version has_version apply_migration
  migrate_one applied m db = unless_applied (parse_version m.name) applied m db

  abbrev pub unless_failed :
      Option Failure × Schema S → Option Failure × Schema S → Option Failure × Schema S
  unless_failed (some e, db) rest = (some e, db)
  unless_failed (none, db) rest = rest

  unfoldable pub migrate_from : List ℤ → List Migration → Schema S → Option Failure × Schema S
  unfolding migrate_one
  migrate_from applied [] db = (none, db)
  migrate_from applied (m ∷ ms) db =
      let one = migrate_one applied m db in unless_failed one (migrate_from applied ms one.1)

  abbrev pub start_migrating :
      Option Text → Option Text → List Migration → Schema S → Option Failure × Schema S
  start_migrating (some e) r ms db = (some (failed (bytes "ensure schema_migrations: " ++ e)), db)
  start_migrating none (some e) ms db = (some (failed (bytes "read schema_migrations: " ++ e)), db)
  start_migrating none none ms db = migrate_from db.versions (sort_by_name ms) db

  unfoldable pub migrate : List Migration → Schema S → Option Failure × Schema S
  unfolding migrate_from sort_by_name
  migrate ms db = start_migrating q.ensure_failed q.read_failed ms db

-- The table of settings, by key: the upsert of SetSetting, and GetSetting.
unfoldable pub set_setting : Text → Text → List (Text × Text) → List (Text × Text)
set_setting key value [] = (key, value) ∷ []
set_setting key value ((k, v) ∷ rest) =
    let later = set_setting key value rest in
    if text_eq k key then (k, value) ∷ rest else (k, v) ∷ later

unfoldable pub get_setting : Text → List (Text × Text) → Text
get_setting key [] = []
get_setting key ((k, v) ∷ rest) =
    let later = get_setting key rest in if text_eq k key then v else later
