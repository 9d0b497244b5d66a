-- ===== src/Diagnosis/Repairable.antt =====
-- The wsl probe's promise that Envorca can fix a problem, against the plan that the daemon makes.
use envorca.Prelude.{
  ◌≡◌, ◌≢◌, ◌↔◌, ◌⊎◌, inl, inr, refl, Bool, true, false, Option, none, some, List, [], ◌∷◌, ◌++◌,
  All, arith, if◌then◌else◌,
}
use envorca.Text.{Text, bytes, text_eq, contains, to_lower}
use envorca.Api.{healthy, ComponentStatus, RepairAction, brief}
use envorca.Health.{Context}
use envorca.Wsl.{Runner, Result, ok, err}
use envorca.Recovery.{new, plan, plan_from}
use envorca.Recovery.Actions.{
  Action, wsl_start, wsl_restart, wsl_critical, can_execute, summary_has,
}
use envorca.Diagnosis.{
  not_installed_status, no_query_status, no_distro_status, no_boot_status, wsl_probe, after_distro,
  after_boot,
}

-- The identifier that Snapshot gives the probe's status.
abbrev pub as_wsl : ComponentStatus → ComponentStatus
as_wsl st = record st { id = bytes "wsl" }

abbrev pub IsOther : ComponentStatus → Type 0
IsOther c = text_eq c.id (bytes "wsl") ≡ false

wsl_critical-others :
    (p : ComponentStatus → Bool) (before after : List ComponentStatus) (c : ComponentStatus)
    → All IsOther before
    → All IsOther after
    → wsl_critical (before ++ c ∷ after) p ≡ wsl_critical (c ∷ []) p
unfolding wsl_critical
wsl_critical-others p [] [] c hb ha = refl
wsl_critical-others p [] (a ∷ after) c hb (e, ha) =
    ground (arith, wsl_critical-others p [] after c tt ha)
wsl_critical-others p (b ∷ before) after c (e, hb) ha =
    rw e (wsl_critical-others p before after c hb ha)

can_execute-others :
    (a : Action) (before after : List ComponentStatus) (c : ComponentStatus)
    → All IsOther before
    → All IsOther after
    → can_execute a (before ++ c ∷ after) ≡ can_execute a (c ∷ [])
unfolding can_execute
can_execute-others Action.wsl_start before after c hb ha =
    wsl_critical-others _ before after c hb ha
can_execute-others Action.wsl_restart before after c hb ha =
    wsl_critical-others _ before after c hb ha

-- The actions that the plan holds for a status of the wsl component.
abbrev pub Repairs : ComponentStatus → Type 0
Repairs st =
    ((st.safe_to_fix ≡ true) × (can_execute wsl_restart (as_wsl st ∷ []) ≡ true))
    ⊎ ((st.safe_to_fix ≡ false)
        × (can_execute wsl_start (as_wsl st ∷ []) ≡ false)
        × (can_execute wsl_restart (as_wsl st ∷ []) ≡ false))

healthy-Repairs : (s : Text) → Repairs (brief healthy s)
unfolding can_execute wsl_critical text_eq bytes
healthy-Repairs s = inr (refl, refl, refl)

not_installed-Repairs : Repairs not_installed_status
unfolding can_execute wsl_critical text_eq bytes not_installed_status contains to_lower summary_has
not_installed-Repairs = inr (refl, refl, refl)

no_query-Repairs : Repairs no_query_status
unfolding can_execute wsl_critical text_eq bytes no_query_status contains to_lower summary_has
no_query-Repairs = inl (refl, refl)

no_distro-Repairs : Repairs no_distro_status
unfolding can_execute wsl_critical text_eq bytes no_distro_status contains to_lower summary_has
no_distro-Repairs = inr (refl, refl, refl)

no_boot-Repairs : Repairs no_boot_status
unfolding can_execute wsl_critical text_eq bytes no_boot_status contains to_lower summary_has
no_boot-Repairs = inl (refl, refl)

-- The plan holds an action exactly where one of the tests succeeds.
one_test :
    (a b f : Bool) (p q : RepairAction)
    → ((f ≡ true) × (b ≡ true)) ⊎ ((f ≡ false) × (a ≡ false) × (b ≡ false))
    → let rest = if b then p ∷ [] else [] in ((f ≡ true) ↔ ((if a then q ∷ rest else rest) ≢ []))
one_test true b f p q (inl (e, e')) = ((λ _ k. cc), (λ _. e))
one_test false true f p q (inl (e, e')) = ((λ _ k. cc), (λ _. e))
one_test false false f p q (inl (e, e')) = absurd cc
one_test a b f p q (inr (e, e', e'')) = rw (e, e', e'') ((λ k. absurd cc), (λ k. absurd (k refl)))

module _ {W : Type 0} (run : Runner W) where
  after_boot-Repairs :
      (ctx : Context) (d : Text) (r : Option Text × W) → Repairs (after_boot run ctx d r).0
  after_boot-Repairs ctx d (none, w) = healthy-Repairs _
  after_boot-Repairs ctx d (some e, w) = no_boot-Repairs

  after_distro-Repairs : (ctx : Context) (r : Result Text × W) → Repairs (after_distro run ctx r).0
  after_distro-Repairs ctx (err e, w) = no_query-Repairs
  after_distro-Repairs ctx (ok [], w) = no_distro-Repairs
  after_distro-Repairs ctx (ok (c ∷ d), w) = after_boot-Repairs ctx (c ∷ d) _

  wsl_probe-Repairs :
      (installed : Bool) (ctx : Context) (w : W) → Repairs (wsl_probe run installed ctx w).0
  unfolding wsl_probe
  wsl_probe-Repairs true ctx w = after_distro-Repairs ctx _
  wsl_probe-Repairs false ctx w = not_installed-Repairs

  -- The wsl probe says that Envorca can fix a problem exactly when the repair plan of any snapshot with
  -- its status, where no other component is called wsl, has an action.
  pub wsl_probe-plan :
      (installed : Bool) (ctx : Context) (w : W) (before after : List ComponentStatus)
      → All IsOther before
      → All IsOther after
      → let st = (wsl_probe run installed ctx w).0 in
        ((st.safe_to_fix ≡ true) ↔ (plan new (before ++ as_wsl st ∷ after) ≢ []))
  unfolding plan new plan_from
  wsl_probe-plan installed ctx w before after hb ha =
      rw
        (
          can_execute-others wsl_start before after _ hb ha,
          can_execute-others wsl_restart before after _ hb ha,
        )
        (one_test _ _ _ _ _ (wsl_probe-Repairs installed ctx w))
