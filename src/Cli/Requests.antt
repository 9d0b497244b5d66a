-- ===== src/Cli/Requests.antt =====
-- Which repairs `envorca repair` asks the daemon for.
use envorca.Prelude.{
  ℕ, ◌≡◌, refl, ap, sym, ◌∙◌, Bool, true, false, none, List, [], ◌∷◌, ◌++◌, map, append-nil,
  append_assoc, inl, inr, ◌⊎◌, Bool-cases, arith,
}
use envorca.Text.{Text, bytes, text_eq, to_lower}
use envorca.Text.Trim.{trim_space}
use envorca.Text.Laws.{text_eq_iff}
use envorca.Api.{RepairAction, RepairPlan}
use envorca.Cli.Repair.{
  received, Client, Input, word, no_input, read_error, Answer, decided, unreadable, prompt_yes_no,
  Ended, apply_repairs, apply_plan, after_answer, with_actions, with_plan, unless_empty,
  plan_timeout, repair,
}

-- A client that keeps the requests for repairs, oldest first.
unfoldable pub logged : {S : Type 0} → Client S → Client (S × List (Text × Bool))
logged client = record {
  probe = λ s. let (alive, s') = client.probe s.0 in (alive, (s', s.1));
  dial = λ s. client.dial s.0;
  get_repair_plan = λ t s. let (plan, s') = client.get_repair_plan t s.0 in (plan, (s', s.1));
  execute_repair = λ id confirmed t s.
      let (reply, s') = client.execute_repair id confirmed t s.0 in
      (reply, (s', s.1 ++ (id, confirmed) ∷ []));
}

-- A word that is y or yes, whatever the case of its letters and the white space around it.
pub data SaysYes : Input → Type 0 where
  short : {s : Text} → to_lower (trim_space s) ≡ bytes "y" → SaysYes (word s)
  long : {s : Text} → to_lower (trim_space s) ≡ bytes "yes" → SaysYes (word s)

not_word :
    {s : Text}
    → ¬ (to_lower (trim_space s) ≡ bytes "y")
    → ¬ (to_lower (trim_space s) ≡ bytes "yes")
    → ¬ SaysYes (word s)
not_word n m (short e) = n e
not_word n m (long e) = m e

different : (s t : Text) → text_eq s t ≡ false → ¬ (s ≡ t)
different s t f e = let k = (text_eq_iff s t).1 e in absurd (ground arith)

-- What the prompt makes of an input.
prompt_yes_no-SaysYes :
    (input : Input)
    → (SaysYes input × (prompt_yes_no input ≡ decided true))
      ⊎ ((¬ SaysYes input)
          × ((prompt_yes_no input ≡ decided false)
              ⊎ ((e : Text) × (prompt_yes_no input ≡ unreadable e))))
unfolding prompt_yes_no
prompt_yes_no-SaysYes no_input = inr ((λ h. elim h [ ]), inl refl)
prompt_yes_no-SaysYes (read_error e) = inr ((λ h. elim h [ ]), inr (e, refl))
prompt_yes_no-SaysYes (word s) =
    let a = to_lower (trim_space s) in
    elim (Bool-cases (text_eq a (bytes "y"))) [
      | inl t ↦ inl (short ((text_eq_iff a (bytes "y")).0 t), rw t refl)
      | inr f ↦ elim (Bool-cases (text_eq a (bytes "yes"))) [
        | inl t ↦ inl (long ((text_eq_iff a (bytes "yes")).0 t), rw (f, t) refl)
        | inr g ↦ inr (
          not_word (different a (bytes "y") f) (different a (bytes "yes") g),
          inl (rw (f, g) refl),
        )
      ]
    ]

pub SaysYes-decided : {input : Input} → SaysYes input → prompt_yes_no input ≡ decided true
SaysYes-decided {input} approved = elim (prompt_yes_no-SaysYes input) [
  | inl (a, e) ↦ e
  | inr (denied, e) ↦ absurd (denied approved)
]

unless_empty_elim :
    {A : Type 0} (P : A → Type 0) (actions : List RepairAction) {x y : A}
    → (actions ≡ [] → P x)
    → P y
    → P (unless_empty actions x y)
unless_empty_elim P [] h k = h refl
unless_empty_elim P (a ∷ rest) h k = k

module _ {S : Type 0} (client : Client S) where
  apply_repairs-requests :
      (confirmed : Bool) (actions : List RepairAction) (n : ℕ) (s : S × List (Text × Bool))
      → (apply_repairs (logged client) confirmed actions n s).2.1
        ≡ s.1 ++ map (λ a. (a.action_id, confirmed)) actions
  unfolding apply_repairs logged
  apply_repairs-requests confirmed [] n s = sym (append-nil s.1)
  apply_repairs-requests confirmed (a ∷ rest) n s =
      apply_repairs-requests confirmed rest _ _ ∙ append_assoc s.1 _ _

  -- What the command asks for, once it has a plan: with --yes every action, confirmed; without, every action
  -- unconfirmed if the answer is yes, and none otherwise.
  abbrev pub wanted : Bool → Answer → List RepairAction → List (Text × Bool)
  wanted true answer actions = map (λ a. (a.action_id, true)) actions
  wanted false (decided true) actions = map (λ a. (a.action_id, false)) actions
  wanted false (decided false) actions = []
  wanted false (unreadable e) actions = []

  after_answer-requests :
      (answer : Answer) (listed : List Text) (plan : RepairPlan) (s : S)
      → (after_answer (logged client) answer listed plan (s, [])).state.1
        ≡ wanted false answer plan.actions
  unfolding apply_plan
  after_answer-requests (decided true) listed plan s =
      apply_repairs-requests false plan.actions 0 (s, [])
  after_answer-requests (decided false) listed plan s = refl
  after_answer-requests (unreadable e) listed plan s = refl

  with_actions-requests :
      (yes_flag : Bool) (input : Input) (plan : RepairPlan) (s : S)
      → (with_actions (logged client) yes_flag input plan (s, [])).state.1
        ≡ wanted yes_flag (prompt_yes_no input) plan.actions
  unfolding apply_plan
  with_actions-requests true input plan s = apply_repairs-requests true plan.actions 0 (s, [])
  with_actions-requests false input plan s = after_answer-requests (prompt_yes_no input) _ plan s

  wanted-nil : (yes_flag : Bool) (answer : Answer) → wanted yes_flag answer [] ≡ []
  wanted-nil true answer = refl
  wanted-nil false (decided true) = refl
  wanted-nil false (decided false) = refl
  wanted-nil false (unreadable e) = refl

  with_plan-requests :
      (yes_flag : Bool) (input : Input) (plan : RepairPlan) (s : S)
      → (with_plan (logged client) yes_flag input (received plan, (s, []))).state.1
        ≡ wanted yes_flag (prompt_yes_no input) plan.actions
  with_plan-requests yes_flag input plan s =
      let answer = prompt_yes_no input in
      unless_empty_elim {A = Ended (S × List (Text × Bool))}
        (λ t. t.state.1 ≡ wanted yes_flag answer plan.actions) plan.actions
        (λ e. sym (ap (wanted yes_flag answer) e ∙ wanted-nil yes_flag answer))
        (with_actions-requests yes_flag input plan s)

  repair_connected :
      (yes_flag : Bool) (input : Input) (s : S) {plan : RepairPlan} {s₁ s' : S}
      → client.probe s ≡ (true, s₁)
      → client.dial s₁ ≡ none
      → client.get_repair_plan plan_timeout s₁ ≡ (received plan, s')
      → repair (logged client) yes_flag input (s, [])
        ≡ with_plan (logged client) yes_flag input (received plan, (s', []))
  unfolding repair logged
  repair_connected yes_flag input s up connected planned = rw (up, connected, planned)

  repair-wanted :
      (yes_flag : Bool) (input : Input) (s : S) {plan : RepairPlan} {s₁ s' : S}
      → client.probe s ≡ (true, s₁)
      → client.dial s₁ ≡ none
      → client.get_repair_plan plan_timeout s₁ ≡ (received plan, s')
      → (repair (logged client) yes_flag input (s, [])).state.1
        ≡ wanted yes_flag (prompt_yes_no input) plan.actions
  unfolding repair
  repair-wanted yes_flag input s {plan} {s₁} {s'} up connected planned =
      ap (λ t. t.state.1) (repair_connected yes_flag input s up connected planned)
      ∙ with_plan-requests yes_flag input plan s'

  -- What the command is to ask for: with --yes every action, confirmed; without, every action unconfirmed if the
  -- user says yes, and else none.
  abbrev pub Requested : Bool → Input → List RepairAction → List (Text × Bool) → Type 0
  Requested true input actions requests = requests ≡ map (λ a. (a.action_id, true)) actions
  Requested false input actions requests =
      (SaysYes input × (requests ≡ map (λ a. (a.action_id, false)) actions))
      ⊎ ((¬ SaysYes input) × (requests ≡ []))

  wanted-Requested :
      (yes_flag : Bool) (input : Input) (actions : List RepairAction)
      → Requested yes_flag input actions (wanted yes_flag (prompt_yes_no input) actions)
  wanted-Requested true input actions = refl
  wanted-Requested false input actions = elim (prompt_yes_no-SaysYes input) [
    | inl (approved, e) ↦ inl (approved, rw e refl)
    | inr (denied, other) ↦ elim other [
      | inl e ↦ inr (denied, rw e refl)
      | inr (t, e) ↦ inr (denied, rw e refl)
    ]
  ]

  -- Where the daemon is reached and answers with a plan, `envorca repair` asks for exactly the actions of the
  -- plan, each once and in order: confirmed with --yes; without it unconfirmed, if the input is a word that is
  -- "y" or "yes" but for white space around it and the case of its letters; and for none on any other word, on a
  -- blank line, at the end of the input and where it cannot be read.
  pub repair-requests :
      (yes_flag : Bool) (input : Input) (s : S) {plan : RepairPlan} {s₁ s' : S}
      → client.probe s ≡ (true, s₁)
      → client.dial s₁ ≡ none
      → client.get_repair_plan plan_timeout s₁ ≡ (received plan, s')
      → Requested yes_flag input plan.actions
          (repair (logged client) yes_flag input (s, [])).state.1
  repair-requests yes_flag input s {plan} up connected planned =
      rw (repair-wanted yes_flag input s up connected planned)
        (wanted-Requested yes_flag input plan.actions)
