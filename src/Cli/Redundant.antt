-- ===== src/Cli/Redundant.antt =====
-- `envorca repair --yes` where both repairs are planned and the first one heals the environment.
use envorca.Prelude.{
  ◌≡◌, refl, sym, ap, ◌∙◌, inl, inr, true, false, Option, none, some, [], ◌∷◌, ◌++◌, Bool-cases,
}
use envorca.Text.{Text, bytes, text_eq}
use envorca.Api.{RepairPlan, RepairOutcome, ExecuteRepairRequest}
use envorca.Health.{Context, snapshot}
use envorca.Recovery as Recoveries
use envorca.Recovery.{Recovery, Executed, outcome, refused, proposal, not_applicable}
use envorca.Recovery.Actions.{Action, wsl_start, wsl_restart, action_id, can_execute}
use envorca.Daemon.Rpc.{answer, Message}
use envorca.Daemon.Handlers.{
  Services, Daemon, get_repair_plan, conclude_repair, execute_with, execute_repair,
}
use envorca.Cli.Repair.{
  received, Input, repair_line, outcome_label, apply_repairs, apply_plan, listing, closing_line,
  repair,
}
use envorca.Cli.Interactive.{daemon_client}

abbrev pub both_planned : Text → RepairPlan
both_planned at = record {
  actions = proposal wsl_start ∷ proposal wsl_restart ∷ [];
  evaluated_at = at;
}

abbrev pub redundant_line : Text
redundant_line = bytes "  wsl.restart: failed — action no longer applicable; re-run doctor"

-- A request that the command makes with --yes.
abbrev pub confirmed_request : Action → ExecuteRepairRequest
confirmed_request a = record { action_id = action_id a; confirmed = true }

module _ {W : Type 0} (s : Services W) (ctx : Context) where
  conclude_repair-recovery :
      (id : Text) (d : Daemon s) (ran : Executed × W)
      → (conclude_repair s id d ran).1.recovery ≡ d.recovery
  conclude_repair-recovery id d (refused e, w) = refl
  conclude_repair-recovery id d (outcome o, w) = refl

  execute_with-recovery :
      (r : Option Recovery) (req : ExecuteRepairRequest) (d : Daemon s) (w : W)
      → (execute_with s r ctx req d w).1.recovery ≡ d.recovery
  execute_with-recovery none req d w = refl
  execute_with-recovery (some r) req d w = elim (Bool-cases (text_eq req.action_id [])) [
    | inl t ↦ rw t refl
    | inr f ↦ rw f (conclude_repair-recovery req.action_id d _)
  ]

  -- Repairs do not change what the daemon can repair.
  execute_repair-recovery :
      (req : ExecuteRepairRequest) (d : Daemon s) (w : W)
      → (execute_repair s ctx req d w).1.recovery ≡ d.recovery
  unfolding execute_repair
  execute_repair-recovery req d w = execute_with-recovery d.recovery req d w

  restart_no_longer :
      (d : Daemon s) (w : W)
      → d.recovery ≡ some Recoveries.new
      → can_execute wsl_restart (snapshot d.health ctx w).0 ≡ false
      → (execute_repair s ctx (confirmed_request wsl_restart) d w).0
        ≡ answer (not_applicable wsl_restart (action_id wsl_restart))
  unfolding execute_repair Recoveries.new Recoveries.execute Recoveries.execute_from
      Recoveries.execute_known action_id text_eq bytes
  restart_no_longer d w h healed = rw (h, healed) refl

module _ {W : Type 0} (s : Services W) (ctx : Context) (show : Message → Text) where
  redundant_text :
      bytes "  "
        ++ (action_id wsl_restart
            ++ (bytes ": failed — " ++ bytes "action no longer applicable; re-run doctor"))
      ≡ redundant_line
  unfolding action_id bytes
  redundant_text = refl

  line_of_success :
      (o : RepairOutcome)
      → o.success ≡ true
      → repair_line (action_id wsl_start) (received o)
        ≡ (bytes "  wsl.start: ok" ++ outcome_label o.verification, false)
  unfolding repair_line action_id bytes
  line_of_success o h = rw h refl

  -- The plan has both repairs, the start succeeds, and after it the environment is no longer one to restart.
  -- Then `envorca repair --yes` reports the restart as failed and ends with one failed repair, though nothing
  -- is left to repair.
  pub repair_redundant_restart :
      (input : Input) (d d' : Daemon s) (w w' : W) {at : Text} {o : RepairOutcome}
      → d.recovery ≡ some Recoveries.new
      → (get_repair_plan s ctx d w).0 ≡ answer (both_planned at)
      → execute_repair s ctx (confirmed_request wsl_start) d (get_repair_plan s ctx d w).1
        ≡ (answer o, d', w')
      → o.success ≡ true
      → can_execute wsl_restart (snapshot d'.health ctx w').0 ≡ false
      → (repair (daemon_client s ctx show) true input (d, w)).lines
        ≡ listing (both_planned at)
          ++ (bytes "  wsl.start: ok" ++ outcome_label o.verification)
            ∷ redundant_line
            ∷ closing_line 1
            ∷ []
  unfolding repair apply_plan apply_repairs daemon_client
  repair_redundant_restart input d d' w w' {at} {o} known planned ran ok healed =
      let kept : d'.recovery ≡ some Recoveries.new =
        ap (λ t. t.1.recovery) (sym ran) ∙ execute_repair-recovery s ctx _ d _ ∙ known in
      let second = restart_no_longer s ctx d' w' kept healed in
      rw (planned, ran, line_of_success o ok, second, redundant_text) refl
