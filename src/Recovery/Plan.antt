-- ===== src/Recovery/Plan.antt =====
-- What Plan proposes, against a description of the component states that need a repair.
use envorca.Prelude.{
  ◌≡◌, ◌↔◌, ◌⊎◌, inl, inr, Bool, true, false, List, [], ◌∷◌, any_by, Bool-cases, &&-eq-true, ◌&&◌,
  arith,
}
use envorca.Text.{Text, bytes, text_eq, contains, to_lower}
use envorca.Text.Laws.{text_eq_iff}
use envorca.Api.{Status, critical, ComponentStatus}
use envorca.Recovery.Actions.{
  Action, wsl_start, wsl_restart, is_critical, wsl_critical, summary_has, start_keywords,
  restart_keywords, can_execute,
}
use envorca.Recovery.{new, proposal, plan}

abbrev pub HasAny : Text → List Text → Type 0
HasAny s [] = ⊥
HasAny s (k ∷ ks) = (contains s k ≡ true) ⊎ HasAny s ks

-- Some component is `wsl`, is critical, and has a keyword in its summary, in any case of letters.
abbrev pub CriticalWith : List Text → List ComponentStatus → Type 0
CriticalWith ks [] = ⊥
CriticalWith ks (c ∷ cs) =
    ((c.id ≡ bytes "wsl") × (c.status ≡ critical) × HasAny (to_lower c.summary) ks)
    ⊎ CriticalWith ks cs

any_by-HasAny : (s : Text) (ks : List Text) → any_by (contains s) ks ≡ true → HasAny s ks
any_by-HasAny s [] h = cc
any_by-HasAny s (k ∷ ks) h = elim (Bool-cases (contains s k)) [
  | inl t ↦ inl t
  | inr f ↦ inr (any_by-HasAny s ks (ground arith))
]

HasAny-any_by : (s : Text) (ks : List Text) → HasAny s ks → any_by (contains s) ks ≡ true
HasAny-any_by s [] h = absurd h
HasAny-any_by s (k ∷ ks) (inl p) = rw (p, any_by)
HasAny-any_by s (k ∷ ks) (inr h) = ground (arith, HasAny-any_by s ks h)

is_critical-eq : (s : Status) → is_critical s ≡ true → s ≡ critical
is_critical-eq s h = ground arith

wsl_critical-CriticalWith :
    (ks : List Text) (cs : List ComponentStatus)
    → wsl_critical cs (λ s. summary_has s ks) ≡ true
    → CriticalWith ks cs
unfolding wsl_critical summary_has
wsl_critical-CriticalWith ks [] h = cc
wsl_critical-CriticalWith ks (c ∷ cs) h =
    let found =
      text_eq c.id (bytes "wsl")
      && (is_critical c.status && any_by (contains (to_lower c.summary)) ks) in
    elim (Bool-cases found) [
      | inl t ↦
          let (same, rest) = &&-eq-true _ _ t in
          let (worst, some_keyword) = &&-eq-true _ _ rest in
          inl (
            (text_eq_iff c.id (bytes "wsl")).0 same,
            is_critical-eq c.status worst,
            any_by-HasAny (to_lower c.summary) ks some_keyword,
          )
      | inr f ↦ inr (wsl_critical-CriticalWith ks cs (ground arith))
    ]

CriticalWith-wsl_critical :
    (ks : List Text) (cs : List ComponentStatus)
    → CriticalWith ks cs
    → wsl_critical cs (λ s. summary_has s ks) ≡ true
unfolding wsl_critical summary_has
CriticalWith-wsl_critical ks [] h = absurd h
CriticalWith-wsl_critical ks (c ∷ cs) (inl (p, q, r)) =
    ground (arith, (text_eq_iff c.id (bytes "wsl")).1 p, HasAny-any_by (to_lower c.summary) ks r)
CriticalWith-wsl_critical ks (c ∷ cs) (inr h) = ground (arith, CriticalWith-wsl_critical ks cs h)

abbrev pub keywords : Action → List Text
keywords Action.wsl_start = start_keywords
keywords Action.wsl_restart = restart_keywords

-- An action applies exactly when the component `wsl` is critical with one of the action's keywords in its
-- summary.
pub can_execute_iff :
    (a : Action) (cs : List ComponentStatus)
    → (can_execute a cs ≡ true) ↔ CriticalWith (keywords a) cs
unfolding can_execute
can_execute_iff Action.wsl_start cs =
    (wsl_critical-CriticalWith start_keywords cs, CriticalWith-wsl_critical start_keywords cs)
can_execute_iff Action.wsl_restart cs =
    (wsl_critical-CriticalWith restart_keywords cs, CriticalWith-wsl_critical restart_keywords cs)

not_both : {b : Bool} → b ≡ true → b ≡ false → ⊥
not_both p q = cc

start→restart :
    (cs : List ComponentStatus) → CriticalWith start_keywords cs → CriticalWith restart_keywords cs
start→restart [] h = h
start→restart (c ∷ cs) (inl (p, q, inl r)) = inl (p, q, inl r)
start→restart (c ∷ cs) (inl (p, q, inr r)) = absurd r
start→restart (c ∷ cs) (inr h) = inr (start→restart cs h)

-- The plan, in its three forms: nothing unless `wsl` is critical with a keyword of the restart; the restart
-- alone if there is none of the start's; else the start and then the restart.
pub plan-new :
    (cs : List ComponentStatus)
    → ¬ CriticalWith restart_keywords cs × (plan new cs ≡ [])
      ⊎ CriticalWith restart_keywords cs
        × ¬ CriticalWith start_keywords cs
        × (plan new cs ≡ proposal wsl_restart ∷ [])
      ⊎ CriticalWith start_keywords cs
        × (plan new cs ≡ proposal wsl_start ∷ proposal wsl_restart ∷ [])
unfolding plan new
plan-new cs =
    let restart_iff = can_execute_iff wsl_restart cs in
    let start_iff = can_execute_iff wsl_start cs in
    elim (Bool-cases (can_execute wsl_start cs)) [
      | inl start ↦
          let broken = start→restart cs (start_iff.0 start) in
          inr (inr (start_iff.0 start, rw (start, restart_iff.1 broken)))
      | inr no_start ↦
          let cannot_start =
            λ (h : CriticalWith start_keywords cs). not_both (start_iff.1 h) no_start in
          elim (Bool-cases (can_execute wsl_restart cs)) [
            | inl restart ↦ inr (inl (restart_iff.0 restart, cannot_start, rw (no_start, restart)))
            | inr no_restart ↦
                inl (λ h. not_both (restart_iff.1 h) no_restart, rw (no_start, no_restart))
          ]
    ]
