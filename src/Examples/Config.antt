-- ===== src/Examples/Config.antt =====
-- A home directory, and a configuration that names another state directory.
use envorca.Prelude.{◌≡◌, ◌≢◌, inr, refl, false, Option, none, some, List, [], ◌∷◌, ◌++◌}
use envorca.Text.{Text, bytes}
use envorca.Wsl.{ok}
use envorca.Config.{
  Config, System, default_state_dir, platform_state_dir, default_endpoint, defaults, endpoint, load,
  filled, make_dirs, runtime_dir, log_dir,
}
use envorca.Config.Precedence.{IsLoaded, load-IsLoaded}
use envorca.Cli.Commands.{command_endpoint}
use envorca.Cli.Endpoints.{command_endpoint-agrees, command_endpoint-diverges}

abbrev joined : List Text → Text
joined [] = []
joined (p ∷ []) = p
joined (p ∷ q ∷ rest) = p ++ (bytes "/" ++ joined (q ∷ rest))

-- Every file says `state_dir: /data`.
abbrev linux : System
linux = record {
  on_windows = false;
  env = λ name. [];
  home = ok (bytes "/home/me");
  temp_dir = bytes "/tmp";
  join = joined;
  read_file = λ path. ok (bytes "state_dir: /data");
  mkdir_all = λ dir. none;
  yaml = λ text c. ok (record c { state_dir = bytes "/data" });
}

abbrev data_config : Config
data_config = record { state_dir = bytes "/data"; log_level = bytes "info"; socket = [] }

data_loaded : load linux (bytes "config.yaml") ≡ ok data_config
unfolding load default_state_dir platform_state_dir defaults filled make_dirs runtime_dir log_dir
    bytes
data_loaded = refl

home_state_dir : default_state_dir linux ≢ []
unfolding default_state_dir platform_state_dir bytes
home_state_dir e = cc

load-IsLoaded_example : IsLoaded linux data_config
load-IsLoaded_example =
    load-IsLoaded linux (bytes "config.yaml") data_config home_state_dir data_loaded

abbrev no_socket : Text → Option Text
no_socket path = some []

a_file : bytes "config.yaml" ≢ []
unfolding bytes
a_file e = cc

abbrev home_config : Config
home_config = record data_config { state_dir = default_state_dir linux }

command_endpoint-agrees_example :
    command_endpoint no_socket
      (bytes "config.yaml")
      (default_endpoint linux (default_state_dir linux))
    ≡ endpoint linux home_config
command_endpoint-agrees_example =
    command_endpoint-agrees linux no_socket (bytes "config.yaml") home_config a_file refl
      (inr (inr (inr refl)))

other_socket :
    linux.join (default_state_dir linux ∷ bytes "run" ∷ bytes "envorca.sock" ∷ [])
    ≢ linux.join (data_config.state_dir ∷ bytes "run" ∷ bytes "envorca.sock" ∷ [])
unfolding default_state_dir platform_state_dir bytes
other_socket e = cc

command_endpoint-diverges_example :
    command_endpoint no_socket
      (bytes "config.yaml")
      (default_endpoint linux (default_state_dir linux))
    ≢ endpoint linux data_config
command_endpoint-diverges_example =
    command_endpoint-diverges linux no_socket (bytes "config.yaml") data_config a_file refl refl
      refl refl other_socket
