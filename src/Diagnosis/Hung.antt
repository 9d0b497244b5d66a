-- ===== src/Diagnosis/Hung.antt =====
-- The time that a snapshot takes where wsl.exe hangs: every command runs into its deadline.
use envorca.Prelude.{
  ℕ, ◌+◌, ◌*◌, ◌≤◌, max, min, ◌≡◌, refl, ap, true, false, Bool, Option, none, some, List, [], ◌∷◌,
  arith,
}
use envorca.Text.{Text, bytes}
use envorca.Api.{ComponentStatus}
use envorca.Health.{
  Context, with_deadline, with_timeout, Component, snapshot_from, Registry, snapshot, second,
}
use envorca.Wsl.{Runner, Result, ok, err, default_distro, list, kernel_version, on_ok}
use envorca.Runtime.{failed, transport, exec, in_distro, ping, version_args, transport_fail}
use envorca.Diagnosis.{wsl_probe, as_probe, after_distro}
use envorca.Diagnosis.Kernel.{kernel_probe}
use envorca.Diagnosis.Memory.{resources_status}
use envorca.Diagnosis.Container.{container_probe, after_versions}
use envorca.Diagnosis.Entries.{
  Machine, built, default_registry, entries, windows_entry, virtualization_entry,
}
use envorca.Diagnosis.Virtualization.{virtualization_firmware, ScQuery, virtualization_probe}
use envorca.Diagnosis.Deadlines.{
  InTime, InTime-refl, InTime-forward, KeepsDeadlines, after_status-Since,
  virtualization_probe-Since, wsl_probe-Since, kernel_probe-Since, container_probe-Since,
}
use envorca.Diagnosis.Budgets.{
  default_components, default_registry-components, snapshot_from-Budgeted,
  default_components-Budgeted,
}

-- Every command fails, and not before the deadline of its context, if that has one.
pub record Hangs {W : Type 0} (now : W → ℕ) (run : Runner W) : Type 0 where
  pub fails : (ctx : Context) (args : List Text) (w : W) → (e : Text) × ((run ctx args w).0 ≡ err e)
  pub late :
      (ctx : Context) (args : List Text) (w : W) {d : ℕ}
      → ctx.deadline ≡ some d
      → d ≤ now (run ctx args w).1

limited :
    (limit : ℕ) (o : Option ℕ) {d : ℕ}
    → o ≡ some d
    → (with_deadline limit o).deadline ≡ some (min limit d)
limited limit none h = absurd (ground arith)
limited limit (some d) h = cc

on_ok_err : {A B : Type 0} (f : A → B) {r : Result A} {e : Text} → r ≡ err e → on_ok f r ≡ err e
on_ok_err f h = ap (on_ok f) h

module _ {W : Type 0} {now : W → ℕ} {run : Runner W} (hangs : Hangs now run) where
  abbrev list_arguments : List Text
  list_arguments = bytes "--list" ∷ bytes "--verbose" ∷ []

  distro_fails : (ctx : Context) (w : W) → (e : Text) × ((default_distro run ctx w).0 ≡ err e)
  unfolding default_distro list
  distro_fails ctx w =
      let (e, h) = hangs.fails ctx list_arguments w in (e, on_ok_err _ (on_ok_err _ h))

  after_distro_failed :
      (ctx : Context) (out : Result Text × W) {e : Text}
      → out.0 ≡ err e
      → (after_distro run ctx out).1 ≡ out.1
  after_distro_failed ctx (err e, w) h = refl
  after_distro_failed ctx (ok d, w) h = absurd (ground arith)

  wsl_probe_late :
      (ctx : Context) (w : W) {d : ℕ} → ctx.deadline ≡ some d → d ≤ now (wsl_probe run true ctx w).1
  unfolding wsl_probe default_distro list
  wsl_probe_late ctx w {d} h =
      let (e, fails) = distro_fails ctx w in
      rw (after_distro_failed ctx (default_distro run ctx w) fails) (hangs.late ctx _ w h)

  kernel_probe_late :
      (ctx : Context) (w : W) {d : ℕ}
      → ctx.deadline ≡ some d
      → d ≤ now (kernel_probe run true ctx w).1
  unfolding kernel_probe kernel_version
  kernel_probe_late ctx w h = hangs.late ctx _ w h

  in_distro_failed :
      (ctx : Context) (args : List Text) (out : Result Text × W) {e : Text}
      → out.0 ≡ err e
      → in_distro run ctx args out ≡ (failed (transport e), out.1)
  in_distro_failed ctx args (err e, w) h = cc
  in_distro_failed ctx args (ok d, w) h = absurd (ground arith)

  container_probe_late :
      (ctx : Context) (w : W) {d : ℕ}
      → ctx.deadline ≡ some d
      → d ≤ now (container_probe run true ctx w).1
  unfolding container_probe ping exec after_versions transport_fail default_distro list
  container_probe_late ctx w h =
      let (e, fails) = distro_fails ctx w in
      rw
        (in_distro_failed ctx (version_args (bytes "{{.Client.Version}}"))
          (default_distro run ctx w) fails)
        (hangs.late ctx _ w h)

  virtualization_probe_late :
      {sc_query : Context → Text → W → ScQuery × W}
      → KeepsDeadlines now run sc_query
      → (cpu slat : Bool) (ctx : Context) (w : W) {d : ℕ} → ctx.deadline ≡ some d
      → d ≤ now (virtualization_probe run sc_query cpu slat ctx w).1
  unfolding virtualization_probe
  virtualization_probe_late keeps cpu slat ctx w {d} h =
      let out = run ctx (bytes "--status" ∷ []) w in
      let after = InTime-forward ctx.deadline _ _ (
        after_status-Since keeps ctx cpu slat (now out.1) out
          (InTime-refl ctx.deadline (now out.1))) in
      omega (arith, hangs.late ctx (bytes "--status" ∷ []) w h)

InTime-exact :
    (o : Option ℕ) (a b d n : ℕ)
    → o ≡ some d
    → InTime o a b
    → a ≤ b
    → min d (a + n) ≤ b
    → d ≤ a + n
    → b ≡ max a d
InTime-exact none a b d n h k on slow soon = absurd (ground arith)
InTime-exact (some c) a b d n h k on slow soon = ground arith

module _ {W : Type 0} (now : W → ℕ) where
  -- A probe that takes at least a delay, or until its context's deadline.
  abbrev pub Slow : Component W → ℕ → Type 0
  Slow c delay =
      (ctx : Context) (w : W) (d : ℕ)
      → ctx.deadline ≡ some d
      → (now w ≤ now (c.probe ctx w).1) × (min d (now w + delay) ≤ now (c.probe ctx w).1)

  -- Components and the sum of their delays.
  pub data Delayed : List (Component W) → ℕ → Type 0 where
    no_delay : Delayed [] 0
    add_delay :
        (b : ℕ) {c : Component W} {cs : List (Component W)} {n : ℕ}
        → Slow c b
        → Delayed cs n
        → Delayed (c ∷ cs) (b + n)

  snapshot_from-Delayed :
      {cs : List (Component W)} {n : ℕ}
      → Delayed cs n
      → (ctx : Context) (w : W) (d : ℕ) → ctx.deadline ≡ some d
      → (now w ≤ now (snapshot_from cs ctx w).1)
        × (min d (now w + n) ≤ now (snapshot_from cs ctx w).1)
  unfolding snapshot_from
  snapshot_from-Delayed no_delay ctx w d h = (omega arith, omega arith)
  snapshot_from-Delayed (add_delay b {c} {cs} {n} slow rest) ctx w d h =
      let w₁ = (c.probe ctx w).1 in
      let (forward, first) = slow ctx w d h in
      let (onward, later) = snapshot_from-Delayed rest ctx w₁ d h in (omega arith, omega arith)

-- The delay of the virtualization probe, which asks wsl.exe on Windows only.
abbrev pub virtualization_delay : Bool → ℕ
virtualization_delay true = 3 * second
virtualization_delay false = 0

module _ {W : Type 0} (m : Machine W) (keeps : KeepsDeadlines m.now m.run m.sc_query)
    (hangs : Hangs m.now m.run) where
  -- A probe that runs into the deadline of its context, under WithTimeout.
  with_timeout-Slow :
      (id : Text) (p : Context → W → ComponentStatus × W) (budget : ℕ)
      → ((ctx : Context) (w : W) → InTime ctx.deadline (m.now w) (m.now (p ctx w).1))
      → ((ctx : Context) (w : W) (d : ℕ) → ctx.deadline ≡ some d → d ≤ m.now (p ctx w).1)
      → Slow m.now (record { id = id; probe = with_timeout m.now (as_probe p) budget }) budget
  unfolding with_timeout
  with_timeout-Slow id p budget in_time late ctx w d h =
      let limit = m.now w + budget in
      let c = with_deadline limit ctx.deadline in
      let reached = late c w (min limit d) (limited limit ctx.deadline h) in
      (InTime-forward c.deadline _ _ (in_time c w), omega arith)

  idle-Slow :
      (id : Text) (p : Context → W → ComponentStatus × W) (budget : ℕ)
      → ((ctx : Context) (w : W) → m.now w ≤ m.now (p ctx w).1)
      → Slow m.now (record { id = id; probe = with_timeout m.now (as_probe p) budget }) 0
  unfolding with_timeout
  idle-Slow id p budget goes ctx w d h =
      let c = with_deadline (m.now w + budget) ctx.deadline in
      let on = goes c w in (on, omega arith)

  windows_forward :
      (on : Bool) (ctx : Context) (w : W) → m.now w ≤ m.now (windows_entry m on ctx w).1
  windows_forward true ctx w = omega arith
  windows_forward false ctx w = omega arith

  virtualization-Slow :
      (on : Bool)
      → Slow m.now
          (record {
            id = bytes "virtualization";
            probe = with_timeout m.now (as_probe (virtualization_entry m on)) (3 * second);
          })
          (virtualization_delay on)
  virtualization-Slow true =
      with_timeout-Slow (bytes "virtualization") (virtualization_entry m true) (3 * second)
        (λ c v.
          virtualization_probe-Since keeps c (virtualization_firmware m.feature_present).0
            (virtualization_firmware m.feature_present).1 _ v (InTime-refl _ _))
        (λ c v d h.
          virtualization_probe_late hangs keeps (virtualization_firmware m.feature_present).0
            (virtualization_firmware m.feature_present).1 c v h)
  virtualization-Slow false =
      idle-Slow (bytes "virtualization") (virtualization_entry m false) (3 * second)
        (λ c v. omega arith)

  default_components-Delayed :
      m.installed ≡ true
      → Delayed m.now
          (default_components m)
          (0 + (0 + (virtualization_delay m.on_windows + 19 * second)))
  unfolding entries
  default_components-Delayed there =
      let now = m.now in
      add_delay 0 (λ c v d h. (omega arith, omega arith))
        (add_delay 0
          (idle-Slow (bytes "windows") (windows_entry m m.on_windows) (3 * second)
            (windows_forward m.on_windows))
          (add_delay (virtualization_delay m.on_windows) (virtualization-Slow m.on_windows) (
            add_delay (8 * second)
              (with_timeout-Slow (bytes "wsl") (wsl_probe m.run m.installed) (8 * second)
                (λ c v. wsl_probe-Since keeps c m.installed _ v (InTime-refl _ _))
                (λ c v d h. rw there (wsl_probe_late hangs c v h)))
              (add_delay (3 * second)
                (with_timeout-Slow (bytes "linux_kernel") (kernel_probe m.run m.installed)
                  (3 * second) (λ c v. kernel_probe-Since keeps c m.installed _ v (InTime-refl _ _))
                  (λ c v d h. rw there (kernel_probe_late hangs c v h)))
                (add_delay 0
                  (idle-Slow (bytes "resources") (λ c v. (resources_status (m.memory v), v)) second
                    (λ c v. omega arith))
                  (add_delay (8 * second)
                    (with_timeout-Slow (bytes "container_runtime")
                      (container_probe m.run m.installed) (8 * second)
                      (λ c v. container_probe-Since keeps c m.installed _ v (InTime-refl _ _))
                      (λ c v d h. rw there (container_probe_late hangs c v h)))
                    no_delay))))))

  -- If WSL is installed and wsl.exe hangs, so that every command of it fails no earlier than its context's
  -- deadline, then a snapshot of the default registry lasts exactly until the deadline of the request that asks
  -- for it, wherever that is at most 19 seconds away, and on Windows 22 seconds.
  pub default_registry_late :
      (ctx : Context) (w : W) {d : ℕ}
      → m.installed ≡ true
      → ctx.deadline ≡ some d
      → d ≤ m.now w + (virtualization_delay m.on_windows + 19 * second)
      → (r : Registry W) × (default_registry m ≡ built r)
        × (m.now (snapshot r ctx w).1 ≡ max (m.now w) d)
  unfolding snapshot
  default_registry_late ctx w {d} there h soon =
      let (on, slow) = snapshot_from-Delayed m.now (default_components-Delayed there) ctx w d h in
      let (kept, bounded) =
        snapshot_from-Budgeted m.now (default_components-Budgeted m keeps) ctx w in
      (
        _,
        default_registry-components m,
        InTime-exact ctx.deadline _ _ _ _ h kept on slow (omega arith),
      )
