-- ===== src/Loan/Securities/Tests.antt =====
-- Two guarantors of a loan, of whom the second one asks for too much.
use nexus_efos.Common.{◌≡◌, refl, some, List, [], ◌∷◌, arith}
use nexus_efos.Loan.Repayment.{LoanStatus}
use nexus_efos.Loan.Lifecycle.{Loan}
use nexus_efos.Loan.Schedule.Generate.{InterestMethod}
use nexus_efos.Loan.Securities.{Securities, register_guarantor, approve_guarantor, total_pledged}
use nexus_efos.Loan.Securities.Limits.{
  Op, register_op, approve_op, perform, run, IsCovered, guarantees_within_principal,
}

abbrev loan : Loan
loan = record {
  initiated_by = 1;
  approved_by = some 2;
  customer_id = 1;
  principal = 10000;
  term_months = 1;
  interest_rate = 2400;
  interest_method = InterestMethod.flat;
  status = LoanStatus.active;
}

abbrev securities : Securities
securities = record { loans = (1, loan) ∷ []; guarantors = []; collaterals = [] }

abbrev ops : List Op
ops = register_op 1 1 6000 ∷ register_op 2 1 5000 ∷ approve_op 1 ∷ []

pledged : total_pledged 1 (run ops securities).guarantors ≡ 6000
unfolding run perform register_guarantor approve_guarantor
pledged = refl

guarantees_within_principal_example : IsCovered (run ops securities)
guarantees_within_principal_example =
    guarantees_within_principal ops securities (λ loan_id l found. omega arith)
