-- ===== src/Loan/Lifecycle/Tests.antt =====
-- One loan from its application to its disbursement.
use nexus_efos.Common.{ℕ, ◌≡◌, refl, true, some, none, List, [], ◌∷◌, arith, sum_by}
use nexus_efos.Common.Int.{pos, ◌+ℤ◌, ◌-ℤ◌}
use nexus_efos.Common.Rounding.{round2, round2_ℤ}
use nexus_efos.Common.Result.{Error, Result, ok, err, server_error}
use nexus_efos.Ledger.{Category, is_balanced, balance_effect}
use nexus_efos.Ledger.Posting.{PeriodStatus, is_postable, post_automatic, post_lines, increment}
use nexus_efos.Rules.{execute_matched_rules, Rule, MatchedRule, TriggerPoint, Context}
use nexus_efos.Vault.{CashStore, VaultStatus}
use nexus_efos.Loan.Schedule.Generate.{InterestMethod, generate_schedule}
use nexus_efos.Loan.Repayment.{LoanStatus}
use nexus_efos.Loan.Lifecycle.{
  Loan, LoanBook, Op, run, approve, disburse, check_disburse, disbursement_lines, commit_disburse,
}
use nexus_efos.Loan.Lifecycle.Segregation.{AllSegregated, four_eyes}
use nexus_efos.Loan.Lifecycle.Disbursement.{Disbursed, disburse_pays}
use nexus_efos.Loan.Lifecycle.Once.{disbursed_once}

abbrev no_rules : List Rule → TriggerPoint → ℕ → Context → List MatchedRule
no_rules rules trigger now context = []

abbrev cash : CashStore
cash = record {
  vaults = (1, record { balance = pos 500000; status = VaultStatus.open_vault }) ∷ [];
  tellers = [];
  entries = [];
  transfers = [];
  balancings = [];
  employees = [];
  vault_cash_account = some 1;
  bank_account = none;
  books = record {
    accounts =
        (1, record { category = Category.asset; is_active = true; balance = pos 500000 })
        ∷ (2, record { category = Category.asset; is_active = true; balance = pos 0 })
        ∷ [];
    periods = (1, record { start_date = 0; end_date = 30; status = PeriodStatus.open_period }) ∷ [];
    journals = [];
  };
}

abbrev loan : Loan
loan = record {
  initiated_by = 5;
  approved_by = some 6;
  customer_id = 1;
  principal = 100000;
  term_months = 2;
  interest_rate = 2400;
  interest_method = InterestMethod.flat;
  status = LoanStatus.approved;
}

abbrev empty_book : LoanBook
empty_book = record {
  loans = [];
  customers = (1, record { is_active = true; fields = λ n. none }) ∷ [];
  product_versions =
      (
        1,
        record {
          is_loan = true;
          is_active = true;
          min_loan_amount = some 10000;
          max_loan_amount = none;
          min_tenure_months = none;
          max_tenure_months = some 24;
          interest_rate = 2400;
          interest_method = InterestMethod.flat;
        },
      )
      ∷ [];
  rules = [];
  rule_approvals = [];
  installments = [];
  receivable_account = some 2;
  cash_account = some 1;
  cash = cash;
}

abbrev ops : List (ℕ × Op)
ops =
    (1, Op.create_op 1 5 1 1 100000 2)
    ∷ (2, Op.approve_op 1 5)
    ∷ (2, Op.approve_op 1 6)
    ∷ (3, Op.disburse_op 1 (some 1))
    ∷ []

four_eyes_example : AllSegregated (run no_rules ops empty_book)
four_eyes_example = four_eyes no_rules ops empty_book tt

abbrev book : LoanBook
book = record empty_book { loans = (1, loan) ∷ [] }

abbrev or_else : LoanBook → Result LoanBook → LoanBook
or_else b (err e) = b
or_else b (ok b') = b'

abbrev paid : LoanBook
paid = or_else book (disburse no_rules 1 (some 1) 3 book)

succeeds : disburse no_rules 1 (some 1) 3 book ≡ ok paid
unfolding disburse check_disburse disbursement_lines commit_disburse is_balanced is_postable
    post_automatic post_lines increment balance_effect sum_by round2 round2_ℤ ◌+ℤ◌ ◌-ℤ◌
    generate_schedule
succeeds = refl

disburse_pays_example : Disbursed 1 1 2 loan book paid
disburse_pays_example =
    disburse_pays no_rules 1 1 2 1 3 loan book paid refl
      (refl, refl, refl, λ (p : 2 ≡ 1). ground arith) succeeds

-- The loan is approved again, and the second disbursement still fails.
abbrev after_it : List (ℕ × Op)
after_it = (4, Op.approve_op 1 6) ∷ (4, Op.disburse_op 1 (some 1)) ∷ []

disbursed_once_example :
    (e : Error) × (disburse no_rules 1 (some 1) 5 (run no_rules after_it paid) ≡ err e)
disbursed_once_example =
    disbursed_once no_rules 1 1 1 3 5 loan after_it book paid refl (omega arith) succeeds

again_approved : disburse no_rules 1 (some 1) 5 (run no_rules after_it paid) ≡ err server_error
unfolding disburse check_disburse disbursement_lines commit_disburse is_balanced is_postable
    post_automatic post_lines increment balance_effect sum_by round2 round2_ℤ ◌+ℤ◌ ◌-ℤ◌
    generate_schedule approve execute_matched_rules
again_approved = refl
