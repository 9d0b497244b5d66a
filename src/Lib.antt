-- ===== src/Lib.antt =====
-- Envorca: the daemon that watches and repairs a WSL development environment, and its command line.
--
-- The daemon (daemon/) keeps a registry of health components, an event bus, a recovery engine and an SQLite
-- history, and answers gRPC calls; it reaches Windows and Linux through wsl.exe only. The command line
-- (cli/) dials it over a local endpoint (api/ipc) and prints what it answers. The modules, and the code
-- that each one follows:
--   Prelude, Text      numbers, lists, and the string functions of Go on lists of UTF-8 bytes
--   Api                the messages: api/gen/go/envorca/v1/envorca.pb.go
--   Ipc                api/ipc/socket_unix.go and pipe_windows.go: dial, listen, cleanup; in Race the
--                      system calls of two processes that listen at the same time
--   Health             daemon/internal/health/health.go: Register, Snapshot, OverallStatus
--   Events             daemon/internal/events/events.go: Publish, Subscribe, Snapshot
--   Wsl                daemon/internal/wsl/wsl.go: the commands, List's regular expression, decodeOutput;
--                      Wsl/Reading says what the expression means, Wsl/Row what a table looks like
--   Runtime            daemon/internal/runtime: exec, Ping, ListContainers
--   System             daemon/internal/system: the memory of the machine
--   Diagnosis          daemon/internal/diagnosis: the probes and the default registry, and in Budgets and
--                      Hung the time that they take
--   Recovery           daemon/internal/recovery/actions.go: the actions, Plan, Execute
--   State              daemon/internal/state: Open, the histories, Migrate, SchemaVersion, the settings
--   Config             daemon/internal/config, api/ipc/ipc.go and endpoint_*.go, and logging's Level
--   Daemon             daemon/internal/api/daemon.go: the handlers and StreamEvents
--   Version            daemon/internal/version and fullCliVersion of cli/cmd/envorca/main.go
--   Process            run of daemon/cmd/envorcad/main.go; Process/Life is the same step by step, with the
--                      streams that clients hold open, and Process/Successor has two daemons
--   Cli                cli/cmd/envorca: rendering and the commands; Cli/Calls is cli/internal/client, Cli/Runner
--                      cli/internal/runner, and Cli/Served puts the client's calls before the daemon
--   Examples           a small machine, on which every result is applied
-- A Go method is a function from the state before to the result and the state after. The outside world
-- is a type `W` that is passed along every call of wsl.exe, of a probe and of the clock; an error is an
-- Option, a sum or a result type of its own; a mutex makes an operation one step, and an interleaving
-- of goroutines is a sequence of such steps (Events/Replay, Daemon/Stream, Process/Life,
-- Ipc/Race).
--
-- Parameters stand for what is outside the repository: the runner of wsl.exe, sc.exe and the processor's
-- flags; SQLite, as a record of operations with the laws of its statements (State/Sql) and as the effect
-- of scripts (State/Migrations); the YAML decoder, filepath.Join and the file system (Config); the clock,
-- the JSON and time printers (Daemon/Handlers); the generated gRPC stubs
-- (Cli/Calls), and what gRPC makes of a handler's reply and of a deadline (Cli/Served).
--
-- Fuel: `itoa n` has `suc n` rounds, and each divides by ten; the wait of `envorca start` has as many rounds
-- as sleeps of 150 ms fit into its 15 seconds (Cli/Waiting). All other loops go through a list. A uint64
-- wraps around where the code can reach it: the bus's counter and the bytes of memory. The texts of
-- errors from the standard library are parameters or left out.
--
-- Time is in nanoseconds. A context is its deadline, and cancelling is left out. Where a result speaks of time, the
-- commands of wsl.exe and sc.exe keep to the deadline of their context, which is a hypothesis by name
-- (Diagnosis/Deadlines), and the rest of a probe takes none.
--
-- Not modelled: generated accessors and stubs, the Windows pipe, starting a process, the log files, the cobra
-- declarations and the flag that prints the version. What other goroutines publish
-- while run waits and stops is a list of deeds (Process/Deeds); a migration's script is given all of the database
-- but the table of versions, and the embedded scripts leave that table alone (State/Migrations).
pub mod Prelude
pub mod Text
pub mod Api
pub mod Health
pub mod Ipc
pub mod Events
pub mod Wsl
pub mod Runtime
pub mod System
pub mod Diagnosis
pub mod Recovery
pub mod State
pub mod Config
pub mod Version
pub mod Daemon
pub mod Process
pub mod Cli
pub mod Examples
