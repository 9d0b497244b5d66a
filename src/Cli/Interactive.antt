-- ===== src/Cli/Interactive.antt =====
-- The repairs that a user approves at the prompt, carried to the daemon.
use envorca.Prelude.{
  ◌≡◌, refl, ap, ◌∙◌, inl, inr, Bool, true, false, none, some, List, [], ◌∷◌, ◌++◌, Bool-cases,
}
use envorca.Text.{Text, bytes, text_eq}
use envorca.Api.{RepairPlan, ExecuteRepairRequest}
use envorca.Health.{Context, snapshot}
use envorca.Recovery as Recoveries
use envorca.Recovery.{confirmation_required, proposal}
use envorca.Recovery.Actions.{wsl_restart, action_id, can_execute, requires_confirmation}
use envorca.Recovery.Outcomes.{execute_unconfirmed}
use envorca.Daemon.Rpc.{Reply, answer, status, crash, Message, from_recovery}
use envorca.Daemon.Handlers.{Services, Daemon, get_repair_plan, conclude_repair, execute_repair}
use envorca.Cli.Repair.{
  Response, received, call_failed, Client, Input, repair_line, apply_repairs, apply_plan,
  count_failure, listing, question, after_answer, with_actions, closing_line, repair,
}
use envorca.Cli.Requests.{SaysYes, SaysYes-decided}

-- A client connected to a daemon that runs; `show` is the text of an error.
abbrev pub response_of : {A : Type 0} → (Message → Text) → Reply A → Response A
response_of show (answer a) = received a
response_of show (status c m) = call_failed (show m)
response_of show crash = call_failed (bytes "transport is closing")

module _ {W : Type 0} (s : Services W) (ctx : Context) (show : Message → Text) where
  open s use {run}

  unfoldable pub daemon_client : Client (Daemon s × W)
  daemon_client = record {
    probe = λ t. (true, t);
    dial = λ t. none;
    get_repair_plan = λ limit t.
        let (reply, w') = get_repair_plan s ctx t.0 t.1 in (response_of show reply, (t.0, w'));
    execute_repair = λ id confirmed limit t.
        let req : ExecuteRepairRequest = record { action_id = id; confirmed = confirmed } in
        let (reply, d', w') = execute_repair s ctx req t.0 t.1 in
        (response_of show reply, (d', w'));
  }

  abbrev restart_request : ExecuteRepairRequest
  restart_request = record { action_id = action_id wsl_restart; confirmed = false }

  abbrev pub restart_plan : Text → RepairPlan
  restart_plan at = record { actions = proposal wsl_restart ∷ []; evaluated_at = at }

  restart_asked :
      (d : Daemon s) (w : W)
      → d.recovery ≡ some Recoveries.new
      → execute_repair s ctx restart_request d w
        ≡ conclude_repair s (action_id wsl_restart) d (
            Recoveries.execute run Recoveries.new ctx
              (action_id wsl_restart)
              false
              (snapshot d.health ctx w).0
              (snapshot d.health ctx w).1)
  unfolding execute_repair action_id text_eq bytes
  restart_asked d w h = rw h refl

  -- The line of a restart that was not confirmed, in states where it applies and where it does not.
  abbrev pub vain_line : Bool → Text
  vain_line true =
      bytes "  "
      ++ (action_id wsl_restart
          ++ (bytes ": failed — "
              ++ show (from_recovery (confirmation_required (action_id wsl_restart)))))
  vain_line false =
      bytes "  "
      ++ (action_id wsl_restart
          ++ (bytes ": failed — " ++ bytes "action no longer applicable; re-run doctor"))

  -- A request for a restart without confirmation: its line, and the outside world after it.
  restart_in_vain :
      (d : Daemon s) (w : W)
      → d.recovery ≡ some Recoveries.new
      → let (cs, w') = snapshot d.health ctx w in
        let asked = execute_repair s ctx restart_request d w in
        (repair_line (action_id wsl_restart) (response_of show asked.0)
          ≡ (vain_line (can_execute wsl_restart cs), true))
        × (asked.2 ≡ w')
  unfolding repair_line requires_confirmation
  restart_in_vain d w known =
      let (cs, w') = snapshot d.health ctx w in
      let ran = restart_asked d w known in
      let executed = execute_unconfirmed run ctx wsl_restart cs w' in
      elim (Bool-cases (can_execute wsl_restart cs)) [
        | inl t ↦ rw (ran, executed, t) (refl, refl)
        | inr f ↦ rw (ran, executed, f) (refl, refl)
      ]

  restart_applied :
      (listed : List Text) (at : Text) (d : Daemon s) (w : W)
      → d.recovery ≡ some Recoveries.new
      → let (cs, w') = snapshot d.health ctx w in
        let ended = apply_plan daemon_client false listed (restart_plan at) (d, w) in
        (ended.lines ≡ listed ++ vain_line (can_execute wsl_restart cs) ∷ closing_line 1 ∷ [])
        × (ended.state.1 ≡ w')
  unfolding apply_plan apply_repairs daemon_client
  restart_applied listed at d w known =
      let (line, unchanged) = restart_in_vain d w known in
      (ap (λ r. listed ++ r.0 ∷ closing_line (count_failure r.1 0) ∷ []) line, unchanged)

  planned :
      (input : Input) (d : Daemon s) (w : W) {at : Text}
      → (get_repair_plan s ctx d w).0 ≡ answer (restart_plan at)
      → repair daemon_client false input (d, w)
        ≡ with_actions daemon_client false input
            (restart_plan at)
            (d, (get_repair_plan s ctx d w).1)
  unfolding repair daemon_client
  planned input d w h = rw h

  -- A user who answers y or yes at the prompt approves a restart of WSL in vain. The plan is the restart alone, and
  -- the daemon has the repairs that New gives it. Then the command ends by reporting one failed repair: the daemon
  -- asks for a confirmation, where the restart applies to the states of the snapshot that it takes for the request,
  -- and says else that the restart no longer applies. Nothing but the two snapshots, for the plan and for the
  -- request, touches the outside world.
  pub repair_restart_refused :
      (input : Input) (d : Daemon s) (w : W) {at : Text}
      → d.recovery ≡ some Recoveries.new
      → (get_repair_plan s ctx d w).0 ≡ answer (restart_plan at)
      → SaysYes input
      → let (cs, w') = snapshot d.health ctx (snapshot d.health ctx w).1 in
        let ended = repair daemon_client false input (d, w) in
        (ended.lines
          ≡ (listing (restart_plan at) ++ question ∷ [])
            ++ vain_line (can_execute wsl_restart cs) ∷ closing_line 1 ∷ [])
        × (ended.state.1 ≡ w')
  unfolding get_repair_plan
  repair_restart_refused input d w {at} known h approved =
      let listed = listing (restart_plan at) ++ question ∷ [] in
      let w₁ = (snapshot d.health ctx w).1 in
      let runs =
        planned input d w h
        ∙ ap (λ a. after_answer daemon_client a listed (restart_plan at) (d, w₁))
            (SaysYes-decided approved) in
      let (lines, unchanged) = restart_applied listed at d w₁ known in
      (ap (λ t. t.lines) runs ∙ lines, ap (λ t. t.state.1) runs ∙ unchanged)
