-- ===== src/Examples/Process.antt =====
-- A process that a signal ends, and the version strings of a build.
use envorca.Prelude.{ℕ, ◌≡◌, refl, ◌⊎◌, Bool, true, false, none, some, List, [], ◌∷◌, ◌++◌, arith}
use envorca.Text.{Text, bytes, text_eq}
use envorca.Text.Trim.{trim_space}
use envorca.Version.{Settings, full, full_cli_version}
use envorca.Version.Agreement.{IsTidy, full_cli_version-full}
use envorca.Events.{publish, new_event}
use envorca.Process.{
  asked, Meanwhile, handling, announcing, Process, Startup, running, signalled, fresh, say,
  begin_stop, start_up, run,
}
use envorca.Process.Life.{Life, born, opens, begins, Reach, begun, then_step}
use envorca.Process.Draining.{IsHeld, IsReleased, life_drains}
use envorca.Process.Successor.{Host, claim, close_listener, release, release_successor}
use envorca.Ipc.{served, absent, leftover, dial}
use envorca.Ipc.Race.{listening, race, turn, advance, turns_of, starting}
use envorca.Ipc.Contest.{Reached, overtaking, listen_race}
use envorca.Process.Stopping.{Finished, run-Finished}

abbrev clock : ℕ → ℕ
clock n = n

abbrev startup : Startup
startup = record {
  version = bytes "0.1.0-dev";
  state_dir = bytes "/data";
  endpoint = bytes "/data/run/envorca.sock";
  config_failed = none;
  level_failed = none;
  log_failed = none;
  open_failed = none;
  migrate_failed = none;
  registry_failed = none;
  listen_failed = none;
  pid_failed = none;
  unix = true;
  pid_before = true;
  pid_left = false;
}

-- A repair during the wait, and the announcement of the endpoint only while GracefulStop waits.
abbrev others : Meanwhile
others = record {
  waiting =
      handling (new_event (bytes "info") (bytes "recovery") (bytes "repair_executed") []) ∷ [];
  before_stop = [];
  draining = announcing ∷ [];
  after_stop = [];
}

run-Finished_example :
    Finished clock asked others (start_up clock startup) (run clock startup asked others)
run-Finished_example = run-Finished clock startup asked others

abbrev settings : Settings
settings = (bytes "vcs.revision", bytes "73078704f2") ∷ (bytes "vcs.modified", bytes "true") ∷ []

settings-IsTidy : IsTidy settings
unfolding text_eq bytes trim_space
settings-IsTidy = ((refl, tt), refl, (tt, refl, tt))

full_cli_version-full_example :
    full_cli_version (bytes "0.1.0-dev") [] (some settings)
    ≡ full (bytes "0.1.0-dev") [] (some settings)
full_cli_version-full_example =
    full_cli_version-full (bytes "0.1.0-dev") [] (some settings) settings-IsTidy

abbrev ready : Process
ready = record fresh {
  bus =
      publish 0
        (new_event (bytes "info") (bytes "daemon") (bytes "starting")
          ((bytes "version", startup.version) ∷ (bytes "state_dir", startup.state_dir) ∷ []))
        fresh.bus;
  db_open = true;
  endpoint_open = true;
  socket_file = true;
  pid_file = true;
  serving = true;
}

starts : start_up clock startup ≡ running ready
unfolding start_up say publish envorca.Events.new
starts = refl

-- A client follows the events while a signal asks the daemon to stop.
abbrev followed : Life
followed = record (born ready) { open_streams = 1 }

abbrev signalled_life : Life
signalled_life = record followed {
  stopping = some (bytes "signal");
  process = begin_stop clock (bytes "signal") ready;
}

stuck : Reach clock (bytes "pipe") (born ready) signalled_life
stuck = then_step (then_step begun (opens refl)) (begins signalled refl)

life_drains_example : IsHeld signalled_life ⊎ IsReleased signalled_life
life_drains_example = life_drains clock (bytes "pipe") startup starts stuck

abbrev everywhere : Text → Bool
everywhere path = true

abbrev first_daemon : Host
first_daemon = record {
  sockets = λ path. elim (text_eq path (bytes "pipe")) [ true ↦ served 1 | false ↦ absent ];
  pid_file = some 1;
}

first_answers : dial (bytes "pipe") first_daemon.sockets ≡ true
unfolding dial text_eq bytes
first_answers = refl

release_successor_example :
    let (e, after) =
      claim everywhere (bytes "pipe") 2 (close_listener everywhere (bytes "pipe") first_daemon) in
    (e ≡ none)
    × (after.sockets (bytes "pipe") ≡ served 2)
    × (after.pid_file ≡ some 2)
    × (dial (bytes "pipe") (release everywhere (bytes "pipe") after).sockets ≡ false)
    × ((release everywhere (bytes "pipe") after).pid_file ≡ none)
release_successor_example = release_successor everywhere (bytes "pipe") 2 first_daemon refl

abbrev alternating : List Bool
alternating = true ∷ false ∷ true ∷ false ∷ false ∷ true ∷ []

listen_race_example :
    Reached 1 2 (race 1 2 alternating (starting leftover))
    × (race 1 2 ((true ∷ false ∷ []) ++ overtaking) (starting leftover)
        ≡ record { first = listening; second = listening; node = served 2 })
unfolding race turn advance turns_of
listen_race_example =
    listen_race 1 2 leftover alternating (true ∷ false ∷ []) refl (omega arith) (omega arith) refl
      refl
