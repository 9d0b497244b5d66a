-- ===== src/Cli/Runner.antt =====
-- Where the command line finds the daemon, and where the daemon's output goes (cli/internal/runner/runner.go).
use envorca.Prelude.{Bool, true, false, Option, none, some, [], ◌∷◌}
use envorca.Text.{Text, bytes}
use envorca.Cli.Repair.{Response, received, call_failed}

-- What the package asks the system: ENVORCA_DAEMON_BIN, empty when unset; os.Executable; filepath's Dir and
-- Join; whether a path is a directory, if it exists; LookPath; and the errors of MkdirAll and OpenFile.
pub record System : Type 0 where
  pub on_windows : Bool
  pub daemon_bin : Text
  pub executable : Option Text
  pub dir : Text → Text
  pub join : Text → Text → Text
  pub is_dir : Text → Option Bool
  pub look_path : Text → Option Text
  pub default_state_dir : Text
  pub mkdir_failed : Text → Option Text
  pub open_failed : Text → Option Text

unfoldable pub daemon_name : Bool → Text
daemon_name true = bytes "envorcad.exe"
daemon_name false = bytes "envorcad"

module _ (sys : System) where
  abbrev pub name : Text
  name = daemon_name sys.on_windows

  abbrev pub in_path : Option Text → Response Text
  in_path (some p) = received p
  in_path none =
      call_failed
        (bytes "envorcad binary not found; set ENVORCA_DAEMON_BIN or put envorcad on PATH")

  abbrev pub if_file : Text → Option Bool → Response Text
  if_file candidate (some false) = received candidate
  if_file candidate _ = in_path (sys.look_path name)

  abbrev pub beside : Option Text → Response Text
  beside none = in_path (sys.look_path name)
  beside (some exe) =
      let candidate = sys.join (sys.dir exe) name in if_file candidate (sys.is_dir candidate)

  abbrev pub unless_set : Text → Response Text
  unless_set [] = beside sys.executable
  unless_set (c ∷ p) = received (c ∷ p)

  unfoldable pub find_daemon_binary : Response Text
  unfolding daemon_name
  find_daemon_binary = unless_set sys.daemon_bin

  abbrev pub opened : Text → Option Text → Response Text
  opened path (some e) = call_failed e
  opened path none = received path

  abbrev pub made : Text → Option Text → Response Text
  made dir (some e) = call_failed e
  made dir none =
      let path = sys.join dir (bytes "daemon.out.log") in opened path (sys.open_failed path)

  unfoldable pub open_spawn_log : Response Text
  open_spawn_log =
      let dir = sys.join sys.default_state_dir (bytes "logs") in made dir (sys.mkdir_failed dir)
