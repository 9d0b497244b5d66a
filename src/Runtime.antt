-- ===== src/Runtime.antt =====
-- The container bridge (daemon/internal/runtime/docker.go): docker commands in the default
-- distribution, through the runner for wsl.exe.
pub mod Listing
pub mod Reachable
pub mod Printed
use envorca.Prelude.{ℕ, Bool, true, false, Option, none, some, List, [], ◌∷◌, ◌++◌, if◌then◌else◌}
use envorca.Text.{Text, bytes, split}
use envorca.Text.Trim.{trim_space}
use envorca.Health.{Context}
use envorca.Wsl.{Runner, Result, ok, err, default_distro}
use envorca.Runtime.Listing.{Container, containers_of}

-- An error of `exec`: a transportError, or the command's own.
pub data ExecError : Type 0 where
  transport command : Text → ExecError

abbrev pub message : ExecError → Text
message (transport e) = e
message (command e) = e

unfoldable pub transport_fail : ExecError → Bool
transport_fail (transport e) = true
transport_fail (command e) = false

pub record Info : Type 0 where
  pub client_version : Text
  pub server_version : Text
  pub error : Option ExecError

abbrev pub no_info : Info
no_info = record { client_version = []; server_version = []; error = none }

pub data Output (A : Type 0) : Type 0 where
  output : A → Output A
  failed : ExecError → Output A

abbrev pub no_distro : Text
no_distro = bytes "no default WSL distribution available"

abbrev pub version_args : Text → List Text
version_args template = bytes "version" ∷ bytes "--format" ∷ template ∷ []

abbrev pub all_flag : Bool → List Text
all_flag true = bytes "-a" ∷ []
all_flag false = []

abbrev pub ps_args : Bool → List Text
ps_args all =
    (bytes "ps"
      ∷ bytes "--no-trunc"
      ∷ bytes "--format"
      ∷ bytes "{{.ID}}\t{{.Names}}\t{{.Image}}\t{{.State}}\t{{.Status}}"
      ∷ [])
    ++ all_flag all

module _ {W : Type 0} (run : Runner W) where
  abbrev pub as_output : Result Text × W → Output Text × W
  as_output (ok out, w) = (output out, w)
  as_output (err e, w) = (failed (command e), w)

  -- `exec` once the default distribution is known.
  abbrev pub in_distro : Context → List Text → Result Text × W → Output Text × W
  in_distro ctx args (err e, w) = (failed (transport e), w)
  in_distro ctx args (ok [], w) = (failed (transport no_distro), w)
  in_distro ctx args (ok (c ∷ d), w) =
      as_output
        (run ctx ((bytes "--distribution" ∷ (c ∷ d) ∷ bytes "--" ∷ bytes "docker" ∷ []) ++ args) w)

  unfoldable pub exec : Context → List Text → W → Output Text × W
  exec ctx args w = in_distro ctx args (default_distro run ctx w)

  abbrev pub after_server : Text → Output Text × W → Info × W
  after_server client (failed e, w) = (record no_info { client_version = client }, w)
  after_server client (output out, w) =
      (record no_info { client_version = client; server_version = trim_space out }, w)

  abbrev pub after_client : Context → Output Text × W → Info × W
  after_client ctx (failed e, w) =
      (if transport_fail e then record no_info { error = some e } else no_info, w)
  after_client ctx (output out, w) =
      after_server (trim_space out) (exec ctx (version_args (bytes "{{.Server.Version}}")) w)

  unfoldable pub ping : Context → W → Info × W
  unfolding transport_fail
  ping ctx w = after_client ctx (exec ctx (version_args (bytes "{{.Client.Version}}")) w)

  abbrev pub after_ps : Output Text × W → Output (List Container) × W
  after_ps (failed e, w) = (failed e, w)
  after_ps (output out, w) = (output (containers_of (split (trim_space out) b'\n')), w)

  unfoldable pub list_containers : Context → Bool → W → Output (List Container) × W
  list_containers ctx all w = after_ps (exec ctx (ps_args all) w)
