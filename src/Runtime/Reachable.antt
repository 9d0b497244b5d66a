-- ===== src/Runtime/Reachable.antt =====
-- When Ping reports an error, and what docker is asked.
use envorca.Prelude.{◌≡◌, refl, Option, none, some, List, [], ◌∷◌}
use envorca.Text.{Text}
use envorca.Health.{Context}
use envorca.Wsl.{Runner, Result, ok, err, default_distro}
use envorca.Runtime.{
  ExecError, transport, Output, output, failed, no_distro, in_distro, as_output, exec, after_client,
  after_server, ping, transport_fail,
}

-- The default distribution is missing or cannot be asked for, with the error that Ping then reports.
abbrev pub Unreachable : Result Text → Option ExecError → Type 0
Unreachable (err e) o = o ≡ some (transport e)
Unreachable (ok []) o = o ≡ some (transport no_distro)
Unreachable (ok (c ∷ d)) o = o ≡ none

module _ {W : Type 0} (run : Runner W) where
  after_server-error :
      (client : Text) (r : Output Text × W) → (after_server run client r).0.error ≡ none
  after_server-error client (failed e, w) = refl
  after_server-error client (output out, w) = refl

  as_output-error :
      (ctx : Context) (r : Result Text × W)
      → (after_client run ctx (as_output run r)).0.error ≡ none
  unfolding transport_fail
  as_output-error ctx (ok out, w) = after_server-error _ _
  as_output-error ctx (err e, w) = refl

  in_distro-error :
      (ctx : Context) (args : List Text) (r : Result Text × W)
      → Unreachable r.0 (after_client run ctx (in_distro run ctx args r)).0.error
  unfolding transport_fail
  in_distro-error ctx args (err e, w) = refl
  in_distro-error ctx args (ok [], w) = refl
  in_distro-error ctx args (ok (c ∷ d), w) = as_output-error ctx _

  -- Ping reports an error exactly when the default distribution cannot be resolved: the error of the
  -- listing, or the missing distribution's. A docker command that fails is never reported as one.
  pub ping-Unreachable :
      (ctx : Context) (w : W) → Unreachable (default_distro run ctx w).0 (ping run ctx w).0.error
  unfolding ping exec
  ping-Unreachable ctx w = in_distro-error ctx _ _
