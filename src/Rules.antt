-- ===== src/Rules.antt =====
-- The business rules, api/src/lib/businessRules.ts. A text is a list of character codes. What
-- JavaScript's `Number`, `String` and `toLowerCase` give is taken as the parameters of the section;
-- numbers are in hundredths.
-- `null` and booleans are what they are in JavaScript. `field` is a field path that `getField` finds
-- in the context or not.
mod Tests
pub mod Evaluation
use nexus_efos.Common.{
  ℕ, zero, suc, Bool, true, false, not, ◌&&◌, ◌||◌, Option, none, some, List, [], ◌∷◌, ◌++◌, map,
  any, all, filter, leb, ◌==◌, if◌then◌else◌,
}
use nexus_efos.Common.Int.{ℤ, pos, ltb_ℤ, leb_ℤ}

pub data ConditionOperator : Type 0 where
  equals not_equals greater_than greater_than_or_equal less_than less_than_or_equal contains :
      ConditionOperator

pub data Value : Type 0 where
  null : Value
  boolean : Bool → Value
  number : ℤ → Value
  text : List ℕ → Value

pub record RuleCondition : Type 0 where
  pub field : ℕ
  pub operator : ConditionOperator
  pub value : Value

pub data RuleAction : Type 0 where
  flag require_additional_approval reject : RuleAction

pub data TriggerPoint : Type 0 where
  loan_initiation loan_approval loan_disbursement savings_account_opening customer_creation
        employee_onboarding :
      TriggerPoint

pub record Rule : Type 0 where
  pub id : ℕ
  pub is_active : Bool
  pub trigger_point : TriggerPoint
  pub effective_date : Option ℕ
  pub expiry_date : Option ℕ
  pub priority : ℕ
  pub conditions : List RuleCondition
  pub matches_any : Bool
  pub actions : List RuleAction

pub record MatchedRule : Type 0 where
  pub rule : Rule
  pub has_reject : Bool

-- `none` is `undefined`.
abbrev pub Context : Type 0
Context = ℕ → Option Value

abbrev pub same_text : List ℕ → List ℕ → Bool
same_text [] [] = true
same_text (a ∷ s) (b ∷ t) = a == b && same_text s t
same_text _ _ = false

abbrev pub is_prefix : List ℕ → List ℕ → Bool
is_prefix [] t = true
is_prefix (a ∷ s) [] = false
is_prefix (a ∷ s) (b ∷ t) = a == b && is_prefix s t

-- `t.includes(s)`
abbrev pub includes : List ℕ → List ℕ → Bool
includes [] s = is_prefix s []
includes (b ∷ t) s = is_prefix s (b ∷ t) || includes t s

abbrev pub same_number : ℤ → ℤ → Bool
same_number a b = leb_ℤ a b && leb_ℤ b a

abbrev pub is_reject : RuleAction → Bool
is_reject RuleAction.reject = true
is_reject _ = false

abbrev pub same_trigger : TriggerPoint → TriggerPoint → Bool
same_trigger TriggerPoint.loan_initiation TriggerPoint.loan_initiation = true
same_trigger TriggerPoint.loan_approval TriggerPoint.loan_approval = true
same_trigger TriggerPoint.loan_disbursement TriggerPoint.loan_disbursement = true
same_trigger TriggerPoint.savings_account_opening TriggerPoint.savings_account_opening = true
same_trigger TriggerPoint.customer_creation TriggerPoint.customer_creation = true
same_trigger TriggerPoint.employee_onboarding TriggerPoint.employee_onboarding = true
same_trigger _ _ = false

abbrev pub started : ℕ → Option ℕ → Bool
started now none = true
started now (some date) = leb date now

abbrev pub unexpired : ℕ → Option ℕ → Bool
unexpired now none = true
unexpired now (some date) = leb now date

-- The `where` of the query.
abbrev pub is_in_force : TriggerPoint → ℕ → Rule → Bool
is_in_force trigger now r =
    r.is_active
    && (same_trigger r.trigger_point trigger
        && (started now r.effective_date && unexpired now r.expiry_date))

-- `orderBy: { priority: "asc" }`
abbrev pub insert_rule : Rule → List Rule → List Rule
insert_rule r [] = r ∷ []
insert_rule r (s ∷ rules) =
    let rest = insert_rule r rules in if leb r.priority s.priority then r ∷ s ∷ rules else s ∷ rest

abbrev pub by_priority : List Rule → List Rule
by_priority [] = []
by_priority (r ∷ rules) = insert_rule r (by_priority rules)

module _ (number_of_text : List ℕ → Option ℤ) (text_of_number : ℤ → List ℕ)
    (lower_case : List ℕ → List ℕ) where
  -- `Number(x)`, `none` for `NaN`, and `String(x)`.
  abbrev pub to_number : Value → Option ℤ
  to_number Value.null = some (pos 0)
  to_number (Value.boolean b) = some (pos (if b then 100 else 0))
  to_number (Value.number n) = some n
  to_number (Value.text t) = number_of_text t

  abbrev pub to_text : Value → List ℕ
  to_text Value.null = b'n' ∷ b'u' ∷ b'l' ∷ b'l' ∷ []
  to_text (Value.boolean b) =
      if b then b't' ∷ b'r' ∷ b'u' ∷ b'e' ∷ [] else b'f' ∷ b'a' ∷ b'l' ∷ b's' ∷ b'e' ∷ []
  to_text (Value.number n) = text_of_number n
  to_text (Value.text t) = t

  abbrev pub compare_numbers : ConditionOperator → ℤ → ℤ → Bool
  compare_numbers ConditionOperator.equals a e = same_number a e
  compare_numbers ConditionOperator.not_equals a e = not (same_number a e)
  compare_numbers ConditionOperator.greater_than a e = ltb_ℤ e a
  compare_numbers ConditionOperator.greater_than_or_equal a e = leb_ℤ e a
  compare_numbers ConditionOperator.less_than a e = ltb_ℤ a e
  compare_numbers ConditionOperator.less_than_or_equal a e = leb_ℤ a e
  compare_numbers ConditionOperator.contains a e = false

  abbrev pub compare_texts : ConditionOperator → List ℕ → List ℕ → Bool
  compare_texts ConditionOperator.equals a e = same_text a e
  compare_texts ConditionOperator.not_equals a e = not (same_text a e)
  compare_texts _ a e = false

  -- The comparisons other than CONTAINS: of numbers where both are.
  abbrev pub compare_values : ConditionOperator → Value → Value → Bool
  compare_values operator actual expected = elim (to_number actual) [
    | none ↦ compare_texts operator (to_text actual) (to_text expected)
    | some a ↦ elim (to_number expected) [
      | none ↦ compare_texts operator (to_text actual) (to_text expected)
      | some e ↦ compare_numbers operator a e
    ]
  ]

  abbrev pub compare_with : ConditionOperator → Value → Value → Bool
  compare_with ConditionOperator.contains actual expected =
      includes (lower_case (to_text actual)) (lower_case (to_text expected))
  compare_with operator actual expected = compare_values operator actual expected

  unfoldable pub evaluate_condition : Context → RuleCondition → Bool
  evaluate_condition context condition = elim (context condition.field) [
    | none ↦ false
    | some actual ↦ compare_with condition.operator actual condition.value
  ]

  unfoldable pub rule_matches : Context → List RuleCondition → Bool → Bool
  rule_matches context [] matches_any = false
  rule_matches context (c ∷ conditions) matches_any =
      if matches_any
      then any (evaluate_condition context) (c ∷ conditions)
      else all (evaluate_condition context) (c ∷ conditions)

  abbrev matched_rule : Rule → MatchedRule
  matched_rule r = record { rule = r; has_reject = any is_reject r.actions }

  unfoldable pub match_rules : List Rule → TriggerPoint → ℕ → Context → List MatchedRule
  unfolding matched_rule
  match_rules rules trigger now context = map matched_rule (
      filter (λ r. rule_matches context r.conditions r.matches_any)
        (by_priority (filter (is_in_force trigger now) rules)))

-- `executeMatchedRules`: the approvals that it asks for, each with the id of its rule. The flags
-- only go to the audit log.
abbrev pub requests_of : Rule → List RuleAction → List ℕ
requests_of r [] = []
requests_of r (RuleAction.require_additional_approval ∷ actions) = r.id ∷ requests_of r actions
requests_of r (_ ∷ actions) = requests_of r actions

unfoldable pub execute_matched_rules : List MatchedRule → List ℕ
execute_matched_rules [] = []
execute_matched_rules (m ∷ matched) =
    requests_of m.rule m.rule.actions ++ execute_matched_rules matched
