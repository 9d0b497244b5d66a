-- ===== src/Process/Successor.antt =====
-- Two daemons on one endpoint that is a Unix socket: what start-up and stop of run (daemon/cmd/envorcad/main.go) do to the socket and
-- to the pid file, which both share.
use envorca.Prelude.{ℕ, ◌≡◌, refl, ap, Bool, true, false, Option, none, some, ◌++◌}
use envorca.Text.{Text, bytes}
use envorca.Ipc.{absent, served, Sockets, put_node, answers, dial, cleanup, listen}
use envorca.Ipc.Exclusive.{put_node_same, listen_busy, listen_free}

-- The sockets, and the process that the pid file names.
pub record Host : Type 0 where
  pub sockets : Sockets
  pub pid_file : Option ℕ

module _ (writable : Text → Bool) (endpoint : Text) where
  abbrev pub claimed : ℕ → Host → Option Text × Sockets → Option Text × Host
  claimed me host (some e, sockets) =
      (some (bytes "listen " ++ (endpoint ++ (bytes ": " ++ e))), record host { sockets = sockets })
  claimed me host (none, sockets) = (none, record { sockets = sockets; pid_file = some me })

  -- Start-up, from Listen to the pid file.
  unfoldable pub claim : ℕ → Host → Option Text × Host
  claim me host = claimed me host (listen writable me endpoint host.sockets)

  -- GracefulStop closes the listener first, and with it the file of the socket goes.
  unfoldable pub close_listener : Host → Host
  unfolding cleanup
  close_listener host = record host { sockets = cleanup endpoint host.sockets }

  -- What follows GracefulStop: the Cleanup of a Unix socket, and the deferred removal of the pid file.
  unfoldable pub release : Host → Host
  unfolding cleanup
  release host = record { sockets = cleanup endpoint host.sockets; pid_file = none }

  -- A daemon that starts while another one answers on its endpoint fails, and takes neither the endpoint nor
  -- the pid file from it.
  pub claim_refused :
      (you : ℕ) (host : Host)
      → dial endpoint host.sockets ≡ true
      → (e : Text) × (claim you host ≡ (some e, host))
  unfolding claim
  claim_refused you host busy =
      (_, ap (claimed you host) (listen_busy writable you endpoint host.sockets busy))

  -- Outside Windows, where the endpoint is a Unix socket and Cleanup removes its file: a daemon that stops closes its
  -- listener and then waits for its streams. If another one starts in the meantime, whose endpoint's directory is
  -- writable, it gets the endpoint and writes the pid file, and then the first one, when its wait is over, removes
  -- both: the second daemon runs on, but nobody can reach it, and there is no pid file.
  pub release_successor :
      (you : ℕ) (host : Host)
      → writable endpoint ≡ true
      → let (e, after) = claim you (close_listener host) in
        (e ≡ none)
        × (after.sockets endpoint ≡ served you)
        × (after.pid_file ≡ some you)
        × (dial endpoint (release after).sockets ≡ false)
        × ((release after).pid_file ≡ none)
  unfolding claim close_listener release dial cleanup
  release_successor you host can =
      let closed = cleanup endpoint host.sockets in
      let held = put_node endpoint (served you) (cleanup endpoint closed) in
      let free : dial endpoint closed ≡ false =
        ap answers (put_node_same endpoint absent host.sockets) in
      rw (listen_free writable you endpoint closed can free) (
        refl,
        put_node_same endpoint (served you) (cleanup endpoint closed),
        refl,
        ap answers (put_node_same endpoint absent held),
        refl,
      )
