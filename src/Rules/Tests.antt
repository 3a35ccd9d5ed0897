-- ===== src/Rules/Tests.antt =====
-- One rule: reject loans of more than 5,000.00.
use nexus_efos.Common.{
  ℕ, ◌≡◌, ◌↔◌, refl, true, false, Option, none, some, List, [], ◌∷◌, any, ◌==◌, if◌then◌else◌,
}
use nexus_efos.Common.Int.{ℤ, pos}
use nexus_efos.Rules.{
  Rule, RuleAction, ConditionOperator, TriggerPoint, Context, Value, evaluate_condition,
  rule_matches, match_rules,
}
use nexus_efos.Rules.Evaluation.{Any, Blocks, blocked_iff}

abbrev large_loan : Rule
large_loan = record {
  id = 1;
  is_active = true;
  trigger_point = TriggerPoint.loan_disbursement;
  effective_date = some 10;
  expiry_date = none;
  priority = 1;
  conditions =
      (record {
        field = 0;
        operator = ConditionOperator.greater_than;
        value = Value.number (pos 500000);
      })
      ∷ [];
  matches_any = false;
  actions = RuleAction.reject ∷ [];
}

abbrev context : Context
context n = if n == 0 then some (Value.number (pos 600000)) else none

abbrev no_number : List ℕ → Option ℤ
no_number t = none

abbrev no_text : ℤ → List ℕ
no_text n = []

abbrev unchanged : List ℕ → List ℕ
unchanged t = t

blocked_iff_example :
    (any
        (λ m. m.has_reject)
        (match_rules no_number no_text unchanged
          (large_loan ∷ [])
          TriggerPoint.loan_disbursement
          20
          context)
      ≡ true)
    ↔ Any
        (Blocks
          (evaluate_condition no_number no_text unchanged context)
          TriggerPoint.loan_disbursement
          20)
        (large_loan ∷ [])
blocked_iff_example =
    blocked_iff no_number no_text unchanged (large_loan ∷ []) TriggerPoint.loan_disbursement 20
      context

-- The loan is refused.
loan_refused :
    any
      (λ m. m.has_reject)
      (match_rules no_number no_text unchanged
        (large_loan ∷ [])
        TriggerPoint.loan_disbursement
        20
        context)
    ≡ true
unfolding match_rules rule_matches evaluate_condition
loan_refused = refl
