-- ===== src/Diagnosis/Container.antt =====
-- The probe of the container runtime.
use envorca.Prelude.{
  ℕ, ◌+◌, Bool, true, false, not, Option, none, some, List, [], ◌∷◌, ◌++◌, length, if◌then◌else◌,
}
use envorca.Text.{Text, bytes, text_eq}
use envorca.Text.Decimal.{itoa}
use envorca.Api.{healthy, warning, critical, unknown, ComponentStatus, brief, explained}
use envorca.Health.{Context}
use envorca.Wsl.{Runner}
use envorca.Runtime.{ExecError, message, Info, Output, output, failed, ping, list_containers}
use envorca.Runtime.Listing.{Container}

-- The loop that counts the running containers.
unfoldable pub count_running : List Container → ℕ
count_running [] = 0
count_running (c ∷ cs) = (if text_eq c.state (bytes "running") then 1 else 0) + count_running cs

unfoldable pub unreachable : ExecError → ComponentStatus
unreachable e = record (brief unknown (bytes "cannot reach container runtime")) {
  reason = message e;
}

unfoldable pub no_client_status : ComponentStatus
no_client_status =
    explained warning (bytes "Docker CLI is not installed in the default distribution")
      (bytes "Development containers need the Docker CLI inside the WSL distribution.")
      (bytes
        "Install Docker (e.g. `sudo apt-get install docker.io` inside the distribution) or use Docker Desktop with WSL integration enabled.")
      false

unfoldable pub no_server_status : ComponentStatus
no_server_status =
    explained critical (bytes "Docker CLI present but the Docker daemon is not responding")
      (bytes "Containers cannot run while the Docker daemon is stopped.")
      (bytes
        "Start the Docker service (`sudo service docker start` in the distribution) or start Docker Desktop.")
      false

unfoldable pub container_note : Output (List Container) → Text
unfolding count_running
container_note (failed e) = []
container_note (output cs) =
    bytes "; "
    ++ (itoa (count_running cs) ++ (bytes " running, " ++ (itoa (length cs) ++ bytes " total")))

abbrev pub after_listing : Text → Output (List Container) → ComponentStatus
after_listing server listing =
    brief healthy
      ((bytes "Docker ready (server " ++ (server ++ bytes ")")) ++ container_note listing)

module _ {W : Type 0} (run : Runner W) where
  abbrev pub with_listing : Text → Output (List Container) × W → ComponentStatus × W
  with_listing server (listing, w) = (after_listing server listing, w)

  -- The checks on what Ping found: the error, the client's and the server's version.
  unfoldable pub after_versions : Context → Option ExecError → Text → Text → W → ComponentStatus × W
  unfolding unreachable no_client_status no_server_status container_note
  after_versions ctx (some e) client server w = (unreachable e, w)
  after_versions ctx none [] server w = (no_client_status, w)
  after_versions ctx none (c ∷ client) [] w = (no_server_status, w)
  after_versions ctx none (c ∷ client) (d ∷ server) w =
      with_listing (d ∷ server) (list_containers run ctx true w)

  abbrev pub after_ping : Context → Info × W → ComponentStatus × W
  after_ping ctx (info, w) = after_versions ctx info.error info.client_version info.server_version w

  unfoldable pub container_probe : Bool → Context → W → ComponentStatus × W
  unfolding after_versions
  container_probe installed ctx w =
      if not installed
      then (brief unknown (bytes "WSL not installed; container check skipped"), w)
      else after_ping ctx (ping run ctx w)
