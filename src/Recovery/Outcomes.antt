-- ===== src/Recovery/Outcomes.antt =====
-- What the result of Execute says about what was done.
use envorca.Prelude.{
  ◌≡◌, ◌≢◌, refl, ◌∙◌, ◌⊎◌, inl, inr, Bool, true, false, not, ◌&&◌, Option, none, some, List, [],
  ◌∷◌, Bool-cases, arith, if◌then◌else◌,
}
use envorca.Text.{Text, bytes, text_eq}
use envorca.Text.Laws.{text_eq_iff, text_eq_refl}
use envorca.Api.{ComponentStatus, RepairOutcome}
use envorca.Health.{Context}
use envorca.Wsl.{Runner}
use envorca.Recovery.Actions.{
  Action, execute_action, verify_action, can_execute, action_id, requires_confirmation,
}
use envorca.Recovery.{
  Recovery, new, Executed, outcome, refused, confirmation_required, verified, not_applicable,
  execute_known, execute_from, execute, verify_step, after_execute,
}

abbrev pub Knows : Action → List Action → Type 0
Knows a [] = ⊥
Knows a (b ∷ rest) = (b ≡ a) ⊎ Knows a rest

text_ne : (s t : Text) → s ≢ t → text_eq s t ≡ false
text_ne s t h = elim (Bool-cases (text_eq s t)) [
  | inl e ↦ absurd (h ((text_eq_iff s t).0 e))
  | inr f ↦ f
]

not_confirmed : (b : Bool) → (b && not true) ≡ false
not_confirmed b = ground arith

module _ {W : Type 0} (run : Runner W) (ctx : Context) where
  -- An action that was applicable and allowed ran from `w` and was verified, which ends in `w'`.
  pub record Applied (a : Action) (confirmed : Bool) (cs : List ComponentStatus) (w w' : W)
      : Type 0 where
    pub applicable : can_execute a cs ≡ true
    pub allowed : (requires_confirmation a ≡ false) ⊎ (confirmed ≡ true)
    pub between : W
    pub executed : execute_action run ctx a w ≡ (none, between)
    pub checked : verify_action run ctx a between ≡ (none, w')

  verified_success :
      (a : Action) (id : Text) (v : Option Text × W) {o : RepairOutcome} {w' : W}
      → (let e : Executed × W = (outcome (verified a id v.0), v.1) in e) ≡ (outcome o, w')
      → o.success ≡ true
      → v ≡ (none, w')
  verified_success a id (some e, w) h s = ground arith
  verified_success a id (none, w) h s = ground arith

  after_execute_success :
      (a : Action) (id : Text) (r : Option Text × W) {o : RepairOutcome} {w' : W}
      → after_execute run ctx a id r ≡ (outcome o, w')
      → o.success ≡ true
      → (between : W) × (r ≡ (none, between)) × (verify_action run ctx a between ≡ (none, w'))
  unfolding verify_step
  after_execute_success a id (some e, w) h s = absurd (ground arith)
  after_execute_success a id (none, w) h s =
      (w, refl, verified_success a id (verify_action run ctx a w) h s)

  execute_known_success :
      (a : Action) (id : Text) (confirmed : Bool) (cs : List ComponentStatus) (w : W)
      {o : RepairOutcome} {w' : W}
      → execute_known run ctx a id confirmed cs w ≡ (outcome o, w')
      → o.success ≡ true
      → Applied a confirmed cs w w'
  unfolding execute_known
  execute_known_success a id confirmed cs w h s = elim (Bool-cases (can_execute a cs)) [
    | inr f ↦ absurd (ground arith)
    | inl t ↦ elim (Bool-cases (requires_confirmation a && not confirmed)) [
      | inl refuse ↦ absurd (ground arith)
      | inr allowed ↦
          let (between, ran, passed) =
            after_execute_success a id (execute_action run ctx a w) (rw (t, allowed) at h) s in
          record {
            applicable = t;
            allowed = ground arith;
            between = between;
            executed = ran;
            checked = passed;
          }
    ]
  ]

  execute_from_success :
      (known : List Action) (id : Text) (confirmed : Bool) (cs : List ComponentStatus) (w : W)
      {o : RepairOutcome} {w' : W}
      → execute_from run known ctx id confirmed cs w ≡ (outcome o, w')
      → o.success ≡ true
      → (a : Action) × Knows a known × (action_id a ≡ id) × Applied a confirmed cs w w'
  unfolding execute_from
  execute_from_success [] id confirmed cs w h s = absurd (ground arith)
  execute_from_success (a ∷ rest) id confirmed cs w h s =
      elim (Bool-cases (text_eq (action_id a) id)) [
        | inl t ↦ (
          a,
          inl refl,
          (text_eq_iff (action_id a) id).0 t,
          execute_known_success a id confirmed cs w (rw t at h) s,
        )
        | inr f ↦
            let (b, known, same, applied) =
              execute_from_success rest id confirmed cs w (rw f at h) s in
            (b, inr known, same, applied)
      ]

  -- Success is reported only for a known action of that identifier which was applicable to the component
  -- states, was confirmed where it has to be, and whose commands and verification both ended without error.
  pub execute_success :
      (r : Recovery) (id : Text) (confirmed : Bool) (cs : List ComponentStatus) (w : W)
      {o : RepairOutcome} {w' : W}
      → execute run r ctx id confirmed cs w ≡ (outcome o, w')
      → o.success ≡ true
      → (a : Action) × Knows a r.actions × (action_id a ≡ id) × Applied a confirmed cs w w'
  unfolding execute
  execute_success r id confirmed cs w h s = execute_from_success r.actions id confirmed cs w h s

  execute-new :
      (a : Action) (confirmed : Bool) (cs : List ComponentStatus) (w : W)
      → execute run new ctx (action_id a) confirmed cs w
        ≡ execute_known run ctx a (action_id a) confirmed cs w
  unfolding execute new action_id
  execute-new Action.wsl_start confirmed cs w = rw (text_eq_refl (bytes "wsl.start"))
  execute-new Action.wsl_restart confirmed cs w = unfold text_eq bytes in refl

  execute_unconfirmed_when :
      (a : Action) (cs : List ComponentStatus) (w : W) {applies : Bool} {needs : Bool}
      → can_execute a cs ≡ applies
      → requires_confirmation a ≡ needs
      → execute run new ctx (action_id a) false cs w ≡ (
          if not applies
          then (outcome (not_applicable a (action_id a)), w)
          else if needs
          then (refused (confirmation_required (action_id a)), w)
          else execute run new ctx (action_id a) true cs w)
  execute_unconfirmed_when a cs w {applies = false} e n =
      execute-new a false cs w ∙ (unfold execute_known in rw e refl)
  execute_unconfirmed_when a cs w {applies = true} {needs = true} e n =
      execute-new a false cs w ∙ (unfold execute_known in rw (e, n) refl)
  execute_unconfirmed_when a cs w {applies = true} {needs = false} e n =
      rw (execute-new a false cs w, execute-new a true cs w)
        (unfold execute_known in rw (e, n) refl)

  -- What an unconfirmed Execute of a known action comes to: an action that no longer applies is reported as
  -- failed, and a restart that applies is refused, and both leave the outside world as it was; a start that
  -- applies goes as if it were confirmed.
  pub execute_unconfirmed :
      (a : Action) (cs : List ComponentStatus) (w : W)
      → execute run new ctx (action_id a) false cs w ≡ (
          if not (can_execute a cs)
          then (outcome (not_applicable a (action_id a)), w)
          else if requires_confirmation a
          then (refused (confirmation_required (action_id a)), w)
          else execute run new ctx (action_id a) true cs w)
  execute_unconfirmed a cs w = execute_unconfirmed_when a cs w refl refl
