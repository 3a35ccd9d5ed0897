-- ===== src/Loan/Changes/Tests.antt =====
-- A loan with an installment, and a restructuring of it.
use nexus_efos.Common.{◌≡◌, refl, false, some, [], ◌∷◌, arith}
use nexus_efos.Common.Int.{pos}
use nexus_efos.Common.Result.{err, server_error}
use nexus_efos.Loan.Allocation.{InstallmentStatus}
use nexus_efos.Loan.Repayment.{LoanStatus}
use nexus_efos.Loan.Lifecycle.{Loan}
use nexus_efos.Loan.Schedule.Generate.{InterestMethod}
use nexus_efos.Loan.Changes.{InstallmentRow, LoanRestructure, ChangeBook, apply_restructure}
use nexus_efos.Loan.Changes.Numbers.{restructure_never_applies}

abbrev loan : Loan
loan = record {
  initiated_by = 1;
  approved_by = some 2;
  customer_id = 1;
  principal = 10000;
  term_months = 1;
  interest_rate = 2400;
  interest_method = InterestMethod.flat;
  status = LoanStatus.active;
}

abbrev installment : InstallmentRow
installment = record {
  loan_id = 1;
  installment_number = 1;
  due_date = pos 30;
  principal_due = pos 10000;
  interest_due = pos 200;
  status = InstallmentStatus.pending;
  is_deleted = false;
}

abbrev restructure : LoanRestructure
restructure = record {
  loan_id = 1;
  original_principal = 10000;
  original_rate = 2400;
  original_term_months = 1;
  new_principal = 10000;
  new_rate = 1200;
  new_term_months = 3;
  is_applied = false;
}

abbrev book : ChangeBook
book = record {
  loans = (1, loan) ∷ [];
  installments = installment ∷ [];
  restructures = (5, restructure) ∷ [];
  reschedules = [];
  write_offs = [];
  requests = [];
}

restructure_never_applies_example : apply_restructure pos 5 book ≡ err server_error
restructure_never_applies_example =
    restructure_never_applies pos 5 restructure book refl (omega arith) refl
