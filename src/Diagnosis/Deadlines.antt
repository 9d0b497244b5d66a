-- ===== src/Diagnosis/Deadlines.antt =====
-- The time that the probes take, where the commands they run keep to the deadline of their context.
use envorca.Prelude.{
  ℕ, ◌≤◌, max, inl, inr, Bool, Bool-cases, true, false, Option, none, some, List, [], ◌∷◌, arith,
}
use envorca.Text.{Text}
use envorca.Health.{Context}
use envorca.Wsl.{Runner, Result, ok, err, default_distro, boot, list, kernel_version}
use envorca.Runtime.{
  Output, output, failed, exec, as_output, after_server, after_ps, in_distro, ping, after_client,
  list_containers, ExecError,
}
use envorca.Diagnosis.{wsl_probe, after_distro, after_boot}
use envorca.Diagnosis.Kernel.{kernel_probe}
use envorca.Diagnosis.Container.{after_versions, container_probe}
use envorca.Diagnosis.Virtualization.{
  ScQuery, ServiceState, after_vmcompute, diagnose_virtualization, after_status,
  virtualization_probe,
}

-- From `a` to `b` time does not go back, and it does not pass the deadline, if there is one: what begins
-- after the deadline takes no time.
abbrev pub InTime : Option ℕ → ℕ → ℕ → Type 0
InTime none a b = a ≤ b
InTime (some d) a b = (a ≤ b) × (b ≤ max a d)

pub InTime-refl : (d : Option ℕ) (a : ℕ) → InTime d a a
InTime-refl none a = omega arith
InTime-refl (some d) a = (omega arith, omega arith)

pub InTime-trans : (d : Option ℕ) (a b c : ℕ) → InTime d a b → InTime d b c → InTime d a c
InTime-trans none a b c h k = omega arith
InTime-trans (some d) a b c h k = (omega arith, omega arith)

pub InTime-forward : (d : Option ℕ) (a b : ℕ) → InTime d a b → a ≤ b
InTime-forward none a b h = h
InTime-forward (some d) a b h = h.0

-- What the probes ask for keeps to the deadline of its context.
pub record KeepsDeadlines {W : Type 0} (now : W → ℕ) (run : Runner W)
    (sc_query : Context → Text → W → ScQuery × W) : Type 0 where
  pub run_in_time :
      (ctx : Context) (args : List Text) (w : W)
      → InTime ctx.deadline (now w) (now (run ctx args w).1)
  pub sc_in_time :
      (ctx : Context) (name : Text) (w : W)
      → InTime ctx.deadline (now w) (now (sc_query ctx name w).1)

module _ {W : Type 0} {now : W → ℕ} {run : Runner W} {sc_query : Context → Text → W → ScQuery × W}
    (keeps : KeepsDeadlines now run sc_query) (ctx : Context) where
  abbrev pub Since : ℕ → W → Type 0
  Since a w = InTime ctx.deadline a (now w)

  run-Since : (args : List Text) (a : ℕ) (w : W) → Since a w → Since a (run ctx args w).1
  run-Since args a w h = InTime-trans ctx.deadline _ _ _ h (keeps.run_in_time ctx args w)

  default_distro-Since : (a : ℕ) (w : W) → Since a w → Since a (default_distro run ctx w).1
  unfolding default_distro list
  default_distro-Since a w h = run-Since _ a w h

  as_output-Since : (a : ℕ) (out : Result Text × W) → Since a out.1 → Since a (as_output run out).1
  as_output-Since a (ok out, w) h = h
  as_output-Since a (err e, w) h = h

  in_distro-Since :
      (args : List Text) (a : ℕ) (out : Result Text × W)
      → Since a out.1
      → Since a (in_distro run ctx args out).1
  in_distro-Since args a (err e, w) h = h
  in_distro-Since args a (ok [], w) h = h
  in_distro-Since args a (ok (c ∷ d), w) h = as_output-Since a _ (run-Since _ a w h)

  exec-Since : (args : List Text) (a : ℕ) (w : W) → Since a w → Since a (exec run ctx args w).1
  unfolding exec
  exec-Since args a w h =
      in_distro-Since args a (default_distro run ctx w) (default_distro-Since a w h)

  after_server-Since :
      (client : Text) (a : ℕ) (out : Output Text × W)
      → Since a out.1
      → Since a (after_server run client out).1
  after_server-Since client a (failed e, w) h = h
  after_server-Since client a (output out, w) h = h

  after_client-Since :
      (a : ℕ) (out : Output Text × W) → Since a out.1 → Since a (after_client run ctx out).1
  after_client-Since a (failed e, w) h = h
  after_client-Since a (output out, w) h = after_server-Since _ a _ (exec-Since _ a w h)

  ping-Since : (a : ℕ) (w : W) → Since a w → Since a (ping run ctx w).1
  unfolding ping
  ping-Since a w h = after_client-Since a _ (exec-Since _ a w h)

  after_ps-Since : (a : ℕ) (out : Output Text × W) → Since a out.1 → Since a (after_ps run out).1
  after_ps-Since a (failed e, w) h = h
  after_ps-Since a (output out, w) h = h

  list_containers-Since :
      (all : Bool) (a : ℕ) (w : W) → Since a w → Since a (list_containers run ctx all w).1
  unfolding list_containers
  list_containers-Since all a w h = after_ps-Since a _ (exec-Since _ a w h)

  after_versions-Since :
      (e : Option ExecError) (client server : Text) (a : ℕ) (w : W)
      → Since a w
      → Since a (after_versions run ctx e client server w).1
  unfolding after_versions
  after_versions-Since (some e) client server a w h = h
  after_versions-Since none [] server a w h = h
  after_versions-Since none (c ∷ client) [] a w h = h
  after_versions-Since none (c ∷ client) (d ∷ server) a w h = list_containers-Since true a w h

  pub container_probe-Since :
      (installed : Bool) (a : ℕ) (w : W)
      → Since a w
      → Since a (container_probe run installed ctx w).1
  unfolding container_probe
  container_probe-Since true a w h = after_versions-Since _ _ _ a _ (ping-Since a w h)
  container_probe-Since false a w h = h

  after_boot-Since :
      (distro : Text) (a : ℕ) (out : Option Text × W)
      → Since a out.1
      → Since a (after_boot run ctx distro out).1
  unfolding list
  after_boot-Since distro a (some e, w) h = h
  after_boot-Since distro a (none, w) h = run-Since _ a w h

  after_distro-Since :
      (a : ℕ) (out : Result Text × W) → Since a out.1 → Since a (after_distro run ctx out).1
  unfolding boot
  after_distro-Since a (err e, w) h = h
  after_distro-Since a (ok [], w) h = h
  after_distro-Since a (ok (c ∷ d), w) h = after_boot-Since _ a _ (run-Since _ a w h)

  pub wsl_probe-Since :
      (installed : Bool) (a : ℕ) (w : W) → Since a w → Since a (wsl_probe run installed ctx w).1
  unfolding wsl_probe
  wsl_probe-Since true a w h = after_distro-Since a _ (default_distro-Since a w h)
  wsl_probe-Since false a w h = h

  pub kernel_probe-Since :
      (installed : Bool) (a : ℕ) (w : W) → Since a w → Since a (kernel_probe run installed ctx w).1
  unfolding kernel_probe kernel_version
  kernel_probe-Since true a w h = run-Since _ a w h
  kernel_probe-Since false a w h = h

  sc-Since : (name : Text) (a : ℕ) (w : W) → Since a w → Since a (sc_query ctx name w).1
  sc-Since name a w h = InTime-trans ctx.deadline _ _ _ h (keeps.sc_in_time ctx name w)

  after_vmcompute-Since :
      (s : Option ServiceState) (a : ℕ) (w : W)
      → Since a w
      → Since a (after_vmcompute run sc_query ctx s w).1
  after_vmcompute-Since none a w h = sc-Since _ a w h
  after_vmcompute-Since (some s) a w h = elim (Bool-cases s.installed) [
    | inr f ↦ rw f h
    | inl t ↦ elim (Bool-cases s.running) [
      | inr g ↦ rw (t, g) h
      | inl u ↦ rw (t, u) (sc-Since _ a w h)
    ]
  ]

  diagnose_virtualization-Since :
      (cpu slat : Bool) (a : ℕ) (w : W)
      → Since a w
      → Since a (diagnose_virtualization run sc_query cpu slat ctx w).1
  unfolding diagnose_virtualization
  diagnose_virtualization-Since false slat a w h = h
  diagnose_virtualization-Since true false a w h = h
  diagnose_virtualization-Since true true a w h = after_vmcompute-Since _ a _ (sc-Since _ a w h)

  pub after_status-Since :
      (cpu slat : Bool) (a : ℕ) (out : Result Text × W)
      → Since a out.1
      → Since a (after_status run sc_query cpu slat ctx out).1
  after_status-Since cpu slat a (ok out, w) h = h
  after_status-Since cpu slat a (err e, w) h = diagnose_virtualization-Since cpu slat a w h

  pub virtualization_probe-Since :
      (cpu slat : Bool) (a : ℕ) (w : W)
      → Since a w
      → Since a (virtualization_probe run sc_query cpu slat ctx w).1
  unfolding virtualization_probe
  virtualization_probe-Since cpu slat a w h = after_status-Since cpu slat a _ (run-Since _ a w h)
