-- ===== src/Config.antt =====
-- The daemon's configuration and the endpoint that it gives (daemon/internal/config/config.go, api/ipc),
-- and the log level (daemon/internal/logging/logging.go).
pub mod Precedence
use envorca.Prelude.{
  ℕ, zero, suc, Bool, true, false, Option, none, some, List, [], ◌∷◌, ◌++◌, if◌then◌else◌, ℤ, pos,
  negsuc,
}
use envorca.Text.{Text, bytes, text_eq}
use envorca.Wsl.{Result, ok, err}

pub record Config : Type 0 where
  pub state_dir : Text
  pub log_level : Text
  pub socket : Text

-- What the operating system gives: the environment (an unset variable is empty), the home directory,
-- the temporary directory, filepath.Join, os.ReadFile and os.MkdirAll; and the YAML decoder, which
-- overwrites the fields that the text has.
pub record System : Type 0 where
  pub on_windows : Bool
  pub env : Text → Text
  pub home : Result Text
  pub temp_dir : Text
  pub join : List Text → Text
  pub read_file : Text → Result Text
  pub mkdir_all : Text → Option Text
  pub yaml : Text → Config → Result Config

abbrev pub or_else : Text → Text → Text
or_else [] d = d
or_else (c ∷ s) d = c ∷ s

module _ (sys : System) where
  abbrev pub under_home : List Text → Text → Result Text → Text
  under_home parts name (ok home) = sys.join (home ∷ parts)
  under_home parts name (err e) = sys.join (sys.temp_dir ∷ name ∷ [])

  -- The value of a variable with the application's name below, or else `d`.
  abbrev pub under_variable : Text → Text → Text → Text
  under_variable [] name d = d
  under_variable (c ∷ s) name d = sys.join ((c ∷ s) ∷ name ∷ [])

  -- defaultStateDir of endpoint_windows.go and of endpoint_unix.go
  unfoldable pub platform_state_dir : Bool → Text
  platform_state_dir true = under_variable (sys.env (bytes "LOCALAPPDATA")) (bytes "Envorca") (
      under_home (bytes "AppData" ∷ bytes "Local" ∷ bytes "Envorca" ∷ []) (bytes "Envorca")
        sys.home)
  platform_state_dir false = under_variable (sys.env (bytes "XDG_DATA_HOME")) (bytes "envorca") (
      under_home (bytes ".local" ∷ bytes "share" ∷ bytes "envorca" ∷ []) (bytes "envorca") sys.home)

  unfoldable pub platform_endpoint : Bool → Text → Text
  platform_endpoint true state_dir = bytes "\\\\.\\pipe\\envorca"
  platform_endpoint false state_dir = sys.join (state_dir ∷ bytes "run" ∷ bytes "envorca.sock" ∷ [])

  unfoldable pub default_state_dir : Text
  unfolding platform_state_dir
  default_state_dir =
      or_else (sys.env (bytes "ENVORCA_STATE_DIR")) (platform_state_dir sys.on_windows)

  unfoldable pub default_endpoint : Text → Text
  unfolding platform_endpoint
  default_endpoint state_dir =
      or_else (sys.env (bytes "ENVORCA_SOCKET")) (platform_endpoint sys.on_windows state_dir)

  unfoldable pub defaults : Config
  unfolding default_state_dir
  defaults = record { state_dir = default_state_dir; log_level = bytes "info"; socket = [] }

  unfoldable pub runtime_dir : Config → Text
  runtime_dir c = sys.join (c.state_dir ∷ bytes "run" ∷ [])

  unfoldable pub log_dir : Config → Text
  log_dir c = sys.join (c.state_dir ∷ bytes "logs" ∷ [])

  unfoldable pub db_path : Config → Text
  db_path c = sys.join (c.state_dir ∷ bytes "state.db" ∷ [])

  unfoldable pub endpoint : Config → Text
  unfolding default_endpoint
  endpoint c = or_else c.socket (default_endpoint c.state_dir)

  -- The fields that a file leaves empty.
  unfoldable pub filled : Config → Config
  unfolding defaults
  filled c = record c {
    state_dir = or_else c.state_dir defaults.state_dir;
    log_level = or_else c.log_level (bytes "info");
  }

  abbrev pub parsed : Text → Result Config → Result Config
  parsed path (err e) = err (bytes "parse config " ++ (path ++ (bytes ": " ++ e)))
  parsed path (ok c) = ok (filled c)

  abbrev pub read : Text → Result Text → Result Config
  read path (err e) = err (bytes "read config " ++ (path ++ (bytes ": " ++ e)))
  read path (ok b) = parsed path (sys.yaml b defaults)

  abbrev pub from_path : Text → Result Config
  from_path [] = ok defaults
  from_path (c ∷ path) = read (c ∷ path) (sys.read_file (c ∷ path))

  abbrev pub unless_made : Text → Option Text → Result Config → Result Config
  unless_made dir (some e) r = err (bytes "create dir " ++ (dir ++ (bytes ": " ++ e)))
  unless_made dir none r = r

  -- The loop that creates the directories.
  unfoldable pub make_dirs : List Text → Config → Result Config
  make_dirs [] c = ok c
  make_dirs (dir ∷ dirs) c = unless_made dir (sys.mkdir_all dir) (make_dirs dirs c)

  abbrev pub with_dirs : Result Config → Result Config
  with_dirs (err e) = err e
  with_dirs (ok c) = make_dirs (c.state_dir ∷ runtime_dir c ∷ log_dir c ∷ []) c

  unfoldable pub load : Text → Result Config
  unfolding filled make_dirs runtime_dir log_dir
  load path = with_dirs (from_path (or_else path (sys.env (bytes "ENVORCA_CONFIG"))))

-- slog's numbers for the levels; `none` is an error.
unfoldable pub level : Text → Option ℤ
level name =
    if text_eq name (bytes "debug")
    then some (negsuc 3)
    else if text_eq name (bytes "info")
    then some (pos 0)
    else if text_eq name (bytes "warn")
    then some (pos 4)
    else if text_eq name (bytes "error")
    then some (pos 8)
    else none
