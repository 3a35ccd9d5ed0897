-- ===== src/Rules/Evaluation.antt =====
-- Which rules block an action.
use nexus_efos.Common.{
  ℕ, ◌≡◌, ◌≢◌, ◌≤◌, ◌⊎◌, ◌↔◌, refl, sym, ap, ◌∙◌, Bool, ◌&&◌, ◌||◌, true, false, Option, none, some,
  List, [], ◌∷◌, All, &&_iff, map, any, all, filter, leb, Bool-cases, inl, inr, arith,
}
use nexus_efos.Common.Int.{ℤ}
use mathlib.Core.Option.{some-injective}
use nexus_efos.Rules.{
  Rule, RuleCondition, RuleAction, TriggerPoint, Context, started, unexpired, same_trigger,
  is_reject, is_in_force, evaluate_condition, insert_rule, by_priority, rule_matches, match_rules,
}

none_ne_some : (d : ℕ) → none ≢ some d
none_ne_some d h = cc

false_ne_true : false ≢ true
false_ne_true h = cc

any-filter {ℓ} :
    {A : Type ℓ} (p q : A → Bool) (xs : List A) → any p (filter q xs) ≡ any (λ x. q x && p x) xs
any-filter p q [] = refl
any-filter p q (x ∷ xs) = elim (Bool-cases (q x)) [
  | inl kept ↦ simp (kept, any-filter p q xs)
  | inr dropped ↦ simp (dropped, any-filter p q xs)
]

any-map {ℓ κ} :
    {A : Type ℓ} {B : Type κ} (p : B → Bool) (f : A → B) (xs : List A)
    → any p (map f xs) ≡ any (λ x. p (f x)) xs
any-map p f [] = refl
any-map p f (x ∷ xs) = simp (any-map p f xs)

swap : (a b c : Bool) → (a || (b || c)) ≡ (b || (a || c))
swap a b c = ground arith

any-insert_rule :
    (p : Rule → Bool) (r : Rule) (rules : List Rule)
    → any p (insert_rule r rules) ≡ (p r || any p rules)
any-insert_rule p r [] = refl
any-insert_rule p r (s ∷ rules) = elim (Bool-cases (leb r.priority s.priority)) [
  | inl first ↦ simp first
  | inr later ↦ simp (later, any-insert_rule p r rules) (swap (p s) (p r) (any p rules))
]

any-by_priority : (p : Rule → Bool) (rules : List Rule) → any p (by_priority rules) ≡ any p rules
any-by_priority p [] = refl
any-by_priority p (r ∷ rules) =
    any-insert_rule p r (by_priority rules) ∙ ap (λ b. p r || b) (any-by_priority p rules)

-- Some member has a property.
abbrev pub Any {ℓ} : {A : Type ℓ} → (A → Type 0) → List A → Type 0
Any P [] = ⊥
Any P (x ∷ xs) = P x ⊎ Any P xs

-- What the fields of a rule say, each on its own.
abbrev pub IsInForce : TriggerPoint → ℕ → Rule → Type 0
IsInForce trigger now r =
    (r.is_active ≡ true)
    × ((r.trigger_point ≡ trigger)
        × (((date : ℕ) → r.effective_date ≡ some date → date ≤ now)
            × ((date : ℕ) → r.expiry_date ≡ some date → now ≤ date)))

-- With the logic ANY some condition holds, and else all do, and there is one.
abbrev pub IsMet : (RuleCondition → Bool) → Bool → List RuleCondition → Type 0
IsMet holds true conditions = Any (λ c. holds c ≡ true) conditions
IsMet holds false conditions = (conditions ≢ []) × All (λ c. holds c ≡ true) conditions

abbrev pub Blocks : (RuleCondition → Bool) → TriggerPoint → ℕ → Rule → Type 0
Blocks holds trigger now r =
    IsInForce trigger now r
    × (IsMet holds r.matches_any r.conditions × Any (λ a. a ≡ RuleAction.reject) r.actions)

any_iff {ℓ} :
    {A : Type ℓ} (p : A → Bool) (P : A → Type 0) (xs : List A)
    → ((x : A) → (p x ≡ true) ↔ P x)
    → (any p xs ≡ true) ↔ Any P xs
any_iff p P [] each = (λ h. absurd (false_ne_true h), λ h. elim h [ ])
any_iff p P (x ∷ xs) each = elim (Bool-cases (p x)) [
  | inl yes_ ↦ (λ h. inl ((each x).0 yes_), λ h. rw yes_ refl)
  | inr no_ ↦ (
    λ h. inr ((any_iff p P xs each).0 (rw no_ at h)),
    λ h. elim h [
      | inl here ↦ absurd (false_ne_true (sym no_ ∙ (each x).1 here))
      | inr there ↦ rw no_ ((any_iff p P xs each).1 there)
    ],
  )
]

all_iff {ℓ} :
    {A : Type ℓ} (p : A → Bool) (xs : List A) → (all p xs ≡ true) ↔ All (λ x. p x ≡ true) xs
all_iff p [] = (λ h. tt, λ h. refl)
all_iff p (x ∷ xs) = (
  λ h. let (here, there) = (&&_iff (p x) (all p xs)).0 h in (here, (all_iff p xs).0 there),
  λ h. (&&_iff (p x) (all p xs)).1 (h.0, (all_iff p xs).1 h.1),
)

same_trigger_iff : (s t : TriggerPoint) → (same_trigger s t ≡ true) ↔ (s ≡ t)
same_trigger_iff s t = (forward s t, λ e. ap (same_trigger s) (sym e) ∙ itself s)
  where
    itself : (s : TriggerPoint) → same_trigger s s ≡ true
    itself TriggerPoint.loan_initiation = refl
    itself TriggerPoint.loan_approval = refl
    itself TriggerPoint.loan_disbursement = refl
    itself TriggerPoint.savings_account_opening = refl
    itself TriggerPoint.customer_creation = refl
    itself TriggerPoint.employee_onboarding = refl

    forward : (s t : TriggerPoint) → same_trigger s t ≡ true → s ≡ t
    forward TriggerPoint.loan_initiation TriggerPoint.loan_initiation h = refl
    forward TriggerPoint.loan_approval TriggerPoint.loan_approval h = refl
    forward TriggerPoint.loan_disbursement TriggerPoint.loan_disbursement h = refl
    forward TriggerPoint.savings_account_opening TriggerPoint.savings_account_opening h = refl
    forward TriggerPoint.customer_creation TriggerPoint.customer_creation h = refl
    forward TriggerPoint.employee_onboarding TriggerPoint.employee_onboarding h = refl
    forward _ _ h = absurd (false_ne_true h)

started_iff : (now : ℕ) (o : Option ℕ) → (started now o ≡ true) ↔ ((d : ℕ) → o ≡ some d → d ≤ now)
started_iff now none = (λ h d e. absurd (none_ne_some d e), λ h. refl)
started_iff now (some date) =
    (λ h d e. ground (arith, h, some-injective _ _ e), λ h. ground (arith, h date refl))

unexpired_iff :
    (now : ℕ) (o : Option ℕ) → (unexpired now o ≡ true) ↔ ((d : ℕ) → o ≡ some d → now ≤ d)
unexpired_iff now none = (λ h d e. absurd (none_ne_some d e), λ h. refl)
unexpired_iff now (some date) =
    (λ h d e. ground (arith, h, some-injective _ _ e), λ h. ground (arith, h date refl))

reject_iff : (a : RuleAction) → (is_reject a ≡ true) ↔ (a ≡ RuleAction.reject)
reject_iff RuleAction.flag = (λ h. absurd (false_ne_true h), λ h. cc)
reject_iff RuleAction.require_additional_approval = (λ h. absurd (false_ne_true h), λ h. cc)
reject_iff RuleAction.reject = (λ h. refl, λ h. refl)

and_iff {ℓ κ} :
    {P : Type ℓ} {Q : Type κ} {a b : Bool}
    → (a ≡ true) ↔ P
    → (b ≡ true) ↔ Q
    → ((a && b) ≡ true) ↔ (P × Q)
and_iff {a = a} {b = b} p q = (
  λ h. let (left, right) = (&&_iff a b).0 h in (p.0 left, q.0 right),
  λ h. (&&_iff a b).1 (p.1 h.0, q.1 h.1),
)

IsInForce-iff :
    (trigger : TriggerPoint) (now : ℕ) (r : Rule)
    → (is_in_force trigger now r ≡ true) ↔ IsInForce trigger now r
IsInForce-iff trigger now r =
    and_iff (λ h. h, λ h. h)
      (and_iff (same_trigger_iff r.trigger_point trigger)
        (and_iff (started_iff now r.effective_date) (unexpired_iff now r.expiry_date)))

module _ (number_of_text : List ℕ → Option ℤ) (text_of_number : ℤ → List ℕ)
    (lower_case : List ℕ → List ℕ) where
  IsMet-iff :
      (context : Context) (conditions : List RuleCondition) (matches_any : Bool)
      → (rule_matches number_of_text text_of_number lower_case context conditions matches_any
          ≡ true)
        ↔ IsMet
            (evaluate_condition number_of_text text_of_number lower_case context)
            matches_any
            conditions
  unfolding rule_matches
  IsMet-iff context [] true = (λ h. absurd (false_ne_true h), λ h. elim h [ ])
  IsMet-iff context [] false = (λ h. absurd (false_ne_true h), λ h. absurd (h.0 refl))
  IsMet-iff context (c ∷ conditions) true = any_iff _ _ (c ∷ conditions) (λ x. (λ h. h, λ h. h))
  IsMet-iff context (c ∷ conditions) false = (
    λ h. (cons_ne_nil, (all_iff _ (c ∷ conditions)).0 h),
    λ h. (all_iff _ (c ∷ conditions)).1 h.1,
  )
    where
      cons_ne_nil : (c ∷ conditions) ≢ []
      cons_ne_nil h = cc

  blocked_tests :
      (rules : List Rule) (trigger : TriggerPoint) (now : ℕ) (context : Context)
      → any
          (λ m. m.has_reject)
          (match_rules number_of_text text_of_number lower_case rules trigger now context)
        ≡ any
            (λ r.
              is_in_force trigger now r
              && (rule_matches number_of_text text_of_number lower_case context r.conditions
                    r.matches_any
                  && any is_reject r.actions))
            rules
  unfolding match_rules
  blocked_tests rules trigger now context = simp (any-map, any-filter, any-by_priority)

  -- The action is blocked, which is that a matched rule has `hasReject`, exactly if some rule is
  -- active and for this trigger point, has begun and has not expired, has a REJECT action, and has a
  -- condition that holds if its logic is ANY, or else at least one condition and only conditions
  -- that hold.
  pub blocked_iff :
      (rules : List Rule) (trigger : TriggerPoint) (now : ℕ) (context : Context)
      → (any
            (λ m. m.has_reject)
            (match_rules number_of_text text_of_number lower_case rules trigger now context)
          ≡ true)
        ↔ Any
            (Blocks
              (evaluate_condition number_of_text text_of_number lower_case context)
              trigger
              now)
            rules
  blocked_iff rules trigger now context = rw (blocked_tests rules trigger now context) (
      any_iff _ _ rules (λ r. and_iff (IsInForce-iff trigger now r) (
        and_iff (IsMet-iff context r.conditions r.matches_any)
          (any_iff is_reject (λ a. a ≡ RuleAction.reject) r.actions reject_iff))))
