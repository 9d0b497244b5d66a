-- ===== src/State/Handle.antt =====
-- The handle of the database (daemon/internal/state/state.go): Open, SchemaVersion, and the calls for a setting
-- with their errors. An error of the driver is given, `none` where a call succeeds.
use envorca.Prelude.{Option, none, some, List, [], ◌∷◌, ◌++◌, ℤ, pos, ltb_ℤ, if◌then◌else◌}
use envorca.Text.{Text, bytes}
use envorca.Wsl.{Result, ok, err}
use envorca.State.Migrations.{Schema, set_setting, get_setting}

-- The file name with which the driver is opened.
unfoldable pub dsn : Text → Text
dsn path =
    bytes "file:"
    ++ (path
        ++ bytes "?_pragma=journal_mode(WAL)&_pragma=busy_timeout(5000)&_pragma=foreign_keys(ON)")

-- Open: the data source that is open, or the error; after a failed ping the handle is closed again.
unfoldable pub open_db : Option Text → Option Text → Option Text → Text → Result Text
unfolding dsn
open_db (some e) opening pinging path = err (bytes "state dir: " ++ e)
open_db none (some e) pinging path = err (bytes "open sqlite: " ++ e)
open_db none none (some e) path = err (bytes "ping sqlite: " ++ e)
open_db none none none path = ok (dsn path)

-- MAX(version)
unfoldable pub max_version : ℤ → List ℤ → ℤ
max_version m [] = m
max_version m (v ∷ vs) = max_version (if ltb_ℤ m v then v else m) vs

-- COALESCE(MAX(version), 0)
unfoldable pub highest : List ℤ → ℤ
unfolding max_version
highest [] = pos 0
highest (v ∷ vs) = max_version v vs

unfoldable pub schema_version : {S : Type 0} → Option Text → Schema S → Result ℤ
unfolding highest
schema_version (some e) db = err e
schema_version none db = ok (highest db.versions)

-- GetSetting: a key without a row is no error.
unfoldable pub read_setting : Option Text → Text → List (Text × Text) → Result Text
unfolding get_setting
read_setting (some e) key table = err e
read_setting none key table = ok (get_setting key table)

-- SetSetting
unfoldable pub write_setting :
    Option Text → Text → Text → List (Text × Text) → Option Text × List (Text × Text)
unfolding set_setting
write_setting (some e) key value table = (some e, table)
write_setting none key value table = (none, set_setting key value table)
