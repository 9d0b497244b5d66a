-- ===== src/Recovery/Safety.antt =====
-- The calls of wsl.exe that Execute makes (daemon/internal/recovery/actions.go).
use envorca.Prelude.{◌≡◌, inl, inr, false, Option, none, some, List, [], ◌∷◌, All, Bool-cases}
use envorca.Text.{Text, bytes, text_eq}
use envorca.Api.{ComponentStatus}
use envorca.Health.{Context}
use envorca.Wsl.{Runner, Result, ok, err, list, default_distro, boot}
use envorca.Recovery.Actions.{
  Action, wsl_start, wsl_restart, boot_default, after_distro, execute_action, verify_action,
  can_execute, action_id, requires_confirmation,
}
use envorca.Recovery.{Recovery, execute_known, execute_from, execute, verify_step, after_execute}

-- A runner that keeps the argument slices of its calls, the last one first.
unfoldable pub logged : {W : Type 0} → Runner W → Runner (W × List (List Text))
logged run ctx args (w, log) = let (out, w') = run ctx args w in (out, (w', args ∷ log))

abbrev pub IsShutdown : List Text → Type 0
IsShutdown args = args ≡ bytes "--shutdown" ∷ []

-- No call of the log was `wsl --shutdown`.
abbrev pub NoShutdown : List (List Text) → Type 0
NoShutdown log = All (λ args. ¬ IsShutdown args) log

not-IsShutdown_list : ¬ IsShutdown (bytes "--list" ∷ bytes "--verbose" ∷ [])
not-IsShutdown_list e = cc

not-IsShutdown_boot :
    (d : Text)
    → ¬ IsShutdown
        (bytes "--distribution" ∷ d ∷ bytes "--" ∷ bytes "echo" ∷ bytes "envorca:boot" ∷ [])
not-IsShutdown_boot d e = cc

module _ {W : Type 0} (run : Runner W) (ctx : Context) where
  abbrev State : Type 0
  State = W × List (List Text)

  after_distro-NoShutdown :
      (r : Result Text) (s : State)
      → NoShutdown s.1
      → NoShutdown (after_distro (logged run) ctx (r, s)).1.1
  unfolding boot logged
  after_distro-NoShutdown (err e) s h = h
  after_distro-NoShutdown (ok d) s h = (not-IsShutdown_boot d, h)

  boot_default-NoShutdown :
      (s : State) → NoShutdown s.1 → NoShutdown (boot_default (logged run) ctx s).1.1
  unfolding boot_default default_distro list logged
  boot_default-NoShutdown s h =
      after_distro-NoShutdown (default_distro (logged run) ctx s).0
        (default_distro (logged run) ctx s).1 (not-IsShutdown_list, h)

  verify_action-NoShutdown :
      (a : Action) (s : State)
      → NoShutdown s.1
      → NoShutdown (verify_action (logged run) ctx a s).1.1
  unfolding verify_action
  verify_action-NoShutdown Action.wsl_start s h = boot_default-NoShutdown s h
  verify_action-NoShutdown Action.wsl_restart s h = boot_default-NoShutdown s h

  after_execute-NoShutdown :
      (a : Action) (id : Text) (o : Option Text) (s : State)
      → NoShutdown s.1
      → NoShutdown (after_execute (logged run) ctx a id (o, s)).1.1
  unfolding verify_step
  after_execute-NoShutdown a id (some e) s h = h
  after_execute-NoShutdown a id none s h = verify_action-NoShutdown a s h

  -- Only an action that needs confirmation shuts WSL down.
  start-NoShutdown :
      (id : Text) (s : State)
      → NoShutdown s.1
      → NoShutdown
          (after_execute
            (logged run)
            ctx
            wsl_start
            id
            (execute_action (logged run) ctx wsl_start s)).1.1
  unfolding execute_action
  start-NoShutdown id s h =
      after_execute-NoShutdown wsl_start id (boot_default (logged run) ctx s).0
        (boot_default (logged run) ctx s).1 (boot_default-NoShutdown s h)

  execute_known-NoShutdown :
      (a : Action) (id : Text) (cs : List ComponentStatus) (s : State)
      → NoShutdown s.1
      → NoShutdown (execute_known (logged run) ctx a id false cs s).1.1
  unfolding execute_known requires_confirmation
  execute_known-NoShutdown Action.wsl_start id cs s h =
      elim (Bool-cases (can_execute wsl_start cs)) [
        | inl t ↦ rw t (start-NoShutdown id s h)
        | inr f ↦ rw f h
      ]
  execute_known-NoShutdown Action.wsl_restart id cs s h =
      elim (Bool-cases (can_execute wsl_restart cs)) [ inl t ↦ rw t h | inr f ↦ rw f h ]

  execute_from-NoShutdown :
      (known : List Action) (id : Text) (cs : List ComponentStatus) (s : State)
      → NoShutdown s.1
      → NoShutdown (execute_from (logged run) known ctx id false cs s).1.1
  unfolding execute_from
  execute_from-NoShutdown [] id cs s h = h
  execute_from-NoShutdown (a ∷ rest) id cs s h = elim (Bool-cases (text_eq (action_id a) id)) [
    | inl t ↦ rw t (execute_known-NoShutdown a id cs s h)
    | inr f ↦ rw f (execute_from-NoShutdown rest id cs s h)
  ]

  -- Whatever action is asked for, in whatever state of the components and of the outside world: without
  -- confirmation Execute makes no call of `wsl --shutdown`, which would interrupt every distribution.
  pub execute-NoShutdown :
      (r : Recovery) (id : Text) (cs : List ComponentStatus) (w : W)
      → NoShutdown (execute (logged run) r ctx id false cs (w, [])).1.1
  unfolding execute
  execute-NoShutdown r id cs w = execute_from-NoShutdown r.actions id cs (w, []) tt
