-- ===== src/Cli/HungRepair.antt =====
-- `envorca repair` against a daemon whose wsl.exe hangs.
use envorca.Prelude.{
  ℕ, ◌+◌, ◌*◌, ◌≤◌, max, ◌≡◌, refl, sym, ap, ◌∙◌, Bool, true, some, [], ◌++◌, arith,
}
use envorca.Text.{Text, bytes}
use envorca.Api.{RepairPlan}
use envorca.Health.{Context, Registry, snapshot, second}
use envorca.Diagnosis.Entries.{Machine, built, default_registry}
use envorca.Diagnosis.Deadlines.{KeepsDeadlines}
use envorca.Diagnosis.Hung.{Hangs, virtualization_delay, default_registry_late}
use envorca.Daemon.Rpc.{Reply}
use envorca.Daemon.Handlers as Handlers
use envorca.Daemon.Handlers.{Services, Daemon}
use envorca.Cli.Repair.{
  Response, received, call_failed, Input, Ended, with_plan, plan_timeout, repair,
}
use envorca.Cli.Calls.{dial, get_repair_plan, repair_client}
use envorca.Cli.Served.{Grpc, Traffic, served, background, probe-served}

-- The context that a call without a deadline of its own gets at a time.
abbrev pub call_context : ℕ → ℕ → Context
call_context timeout t = record { deadline = some (t + timeout) }

-- A command that prints nothing and ends with an error that begins with what it asked for.
abbrev pub FailsTo : Text → {S : Type 0} → Ended S → Type 0
FailsTo what ended =
    ((e : Text) × (ended.error ≡ some (what ++ (bytes ": " ++ e)))) × (ended.lines ≡ [])

built_injective : {W : Type 0} {r r' : Registry W} → built r ≡ built r' → r ≡ r'
built_injective e = cc

module _ (grpc : Grpc) {W : Type 0} (s : Services W) (traffic : Traffic) (endpoint : Text) where
  repair-served :
      (yes_flag : Bool) (input : Input) (d : Daemon s) (w : W)
      → let (reply, w') = Handlers.get_repair_plan s (call_context plan_timeout (s.now w)) d w in
        (repair (repair_client (served grpc s traffic) background endpoint) yes_flag input (d, w)
          ≡ with_plan
              (repair_client (served grpc s traffic) background endpoint)
              yes_flag
              input
              (grpc.deliver (call_context plan_timeout (s.now w)) (s.now w') reply, (d, w')))
  unfolding repair repair_client dial get_repair_plan served
  repair-served yes_flag input d w = rw (probe-served grpc s traffic endpoint d w) refl

  failed_plan :
      (yes_flag : Bool) (input : Input) (t : Daemon s × W) (reply : Response RepairPlan) {e : Text}
      → reply ≡ call_failed e
      → let ended =
          with_plan
            (repair_client (served grpc s traffic) background endpoint)
            yes_flag
            input
            (reply, t) in
        FailsTo (bytes "get repair plan") ended × (ended.state ≡ t)
  unfolding bytes
  failed_plan yes_flag input t (received p) h = absurd (ground arith)
  failed_plan yes_flag input t (call_failed e) h = (((e, refl), refl), refl)

module _ (grpc : Grpc) {W : Type 0} (s : Services W) (traffic : Traffic) (endpoint : Text)
    (m : Machine W) (keeps : KeepsDeadlines m.now m.run m.sc_query)
    (hangs : Hangs m.now m.run) where
  -- A snapshot that the daemon takes for a call lasts as long as the call's timeout.
  pub snapshot_late :
      (timeout : ℕ) (d : Daemon s) (w : W)
      → timeout ≤ virtualization_delay m.on_windows + 19 * second
      → m.installed ≡ true
      → m.now ≡ s.now
      → default_registry m ≡ built d.health
      → s.now w + timeout ≤ s.now (snapshot d.health (call_context timeout (s.now w)) w).1
  snapshot_late timeout d w soon installed clock registry =
      let ctx = call_context timeout (s.now w) in
      let same : (v : W) → m.now v ≡ s.now v = λ v. ap (λ f. f v) clock in
      let (r, e, late) =
        default_registry_late m keeps hangs ctx w installed refl (omega (arith, soon, same w)) in
      let joined : r ≡ d.health = built_injective (sym e ∙ registry) in
      let ends : m.now (snapshot d.health ctx w).1 ≡ max (m.now w) (s.now w + timeout) =
        ap (λ q. m.now (snapshot q ctx w).1) (sym joined) ∙ late in
      omega (arith, same (snapshot d.health ctx w).1, same w, ends)

  plan_late :
      (d : Daemon s) (w : W)
      → m.installed ≡ true
      → m.now ≡ s.now
      → default_registry m ≡ built d.health
      → s.now w + plan_timeout
        ≤ s.now (Handlers.get_repair_plan s (call_context plan_timeout (s.now w)) d w).1
  unfolding envorca.Daemon.Handlers.get_repair_plan
  plan_late d w = snapshot_late plan_timeout d w (omega arith)

  -- The command ends with an error that says that the plan is not there, with --yes and without, and the
  -- daemon is left as it was.
  pub repair_hung :
      (yes_flag : Bool) (input : Input) (d : Daemon s) (w : W)
      → m.installed ≡ true
      → m.now ≡ s.now
      → default_registry m ≡ built d.health
      → let ended =
          repair
            (repair_client (served grpc s traffic) background endpoint)
            yes_flag
            input
            (d, w) in
        FailsTo (bytes "get repair plan") ended × (ended.state.0 ≡ d)
  repair_hung yes_flag input d w installed clock registry =
      let ctx = call_context plan_timeout (s.now w) in
      let (reply, w') : Reply RepairPlan × W = Handlers.get_repair_plan s ctx d w in
      let (e, late) =
        grpc.too_late ctx (s.now w') (s.now w + plan_timeout) reply refl
          (plan_late d w installed clock registry) in
      let (failed, kept) = failed_plan grpc s traffic endpoint yes_flag input (d, w') _ late in
      let runs = repair-served grpc s traffic endpoint yes_flag input d w in
      (
        ((failed.0.0, ap (λ t. t.error) runs ∙ failed.0.1), ap (λ t. t.lines) runs ∙ failed.1),
        ap (λ t. t.state.0) runs ∙ ap (λ t. t.0) kept,
      )
