-- ===== src/Loan/Lifecycle.antt =====
-- The life of a loan, api/src/routes/loan.routes.ts: the application, its approval or rejection, and
-- the disbursement, split where its transaction starts. The business rules are the interface
-- `match_rules`, which the module Rules implements.
mod Tests
pub mod Segregation
pub mod Disbursement
pub mod Once
use nexus_efos.Common.{
  ℕ, ◌+◌, ◌-◌, ◌*◌, Bool, true, false, not, ◌&&◌, Option, none, some, List, [], ◌∷◌, ◌++◌, map, any,
  ltb, leb, ◌==◌, if◌then◌else◌,
}
use nexus_efos.Common.Int.{ℤ, pos, ◌-ℤ◌, ◌+ℤ◌, leb_ℤ}
use nexus_efos.Common.Rounding.{round2_ℤ}
use nexus_efos.Common.Table.{Table, get, set}
use nexus_efos.Common.Result.{
  Result, ok, settle, guard, require, ◌>>=◌, ◌>>◌, bad_request, forbidden, not_found, server_error,
}
use nexus_efos.Ledger.{JournalLine, is_balanced}
use nexus_efos.Ledger.Posting.{Books, is_postable, post_automatic}
use nexus_efos.Rules.{Rule, MatchedRule, TriggerPoint, Context, Value, execute_matched_rules}
use nexus_efos.Vault.{
  Vault, CashStore, CashHolderType, CashLedgerEntryType, CashLedgerEntry, is_open, is_none,
}
use nexus_efos.Vault.Entries.{journal_line}
use nexus_efos.Loan.Repayment.{LoanStatus}
use nexus_efos.Loan.Schedule.{ScheduleRow}
use nexus_efos.Loan.Schedule.Generate.{InterestMethod, generate_schedule}

pub record Loan : Type 0 where
  pub initiated_by : ℕ
  pub approved_by : Option ℕ
  pub customer_id : ℕ
  pub principal : ℕ
  pub term_months : ℕ
  pub interest_rate : ℕ
  pub interest_method : InterestMethod
  pub status : LoanStatus

pub record Customer : Type 0 where
  pub is_active : Bool
  pub fields : Context

-- A version of a product, with what the product says.
pub record ProductVersion : Type 0 where
  pub is_loan : Bool
  pub is_active : Bool
  pub min_loan_amount : Option ℕ
  pub max_loan_amount : Option ℕ
  pub min_tenure_months : Option ℕ
  pub max_tenure_months : Option ℕ
  pub interest_rate : ℕ
  pub interest_method : InterestMethod

abbrev pub fresh_loan : ℕ → ℕ → ℕ → ℕ → ProductVersion → Loan
fresh_loan user customer_id principal term_months version = record {
  initiated_by = user;
  approved_by = none;
  customer_id = customer_id;
  principal = principal;
  term_months = term_months;
  interest_rate = version.interest_rate;
  interest_method = version.interest_method;
  status = LoanStatus.pending;
}

-- A request BUSINESS_RULE_TRIGGERED for a loan.
pub record RuleApproval : Type 0 where
  pub loan_id : ℕ
  pub rule_id : ℕ
  pub is_pending : Bool

pub record LoanInstallment : Type 0 where
  pub loan_id : ℕ
  pub row : ScheduleRow
  pub total_due : ℤ

-- The rows of one institution. The mapped accounts are those of the purposes "Loan Receivable" and
-- "Cash/Bank (Disbursement)".
pub record LoanBook : Type 0 where
  pub loans : Table Loan
  pub customers : Table Customer
  pub product_versions : Table ProductVersion
  pub rules : List Rule
  pub rule_approvals : List RuleApproval
  pub installments : List LoanInstallment
  pub receivable_account : Option ℕ
  pub cash_account : Option ℕ
  pub cash : CashStore

abbrev pub is_approved : LoanStatus → Bool
is_approved LoanStatus.approved = true
is_approved _ = false

-- `min !== null && x < min` and `max !== null && x > max`
abbrev pub below : ℕ → Option ℕ → Bool
below x none = false
below x (some m) = ltb x m

abbrev pub above : ℕ → Option ℕ → Bool
above x none = false
above x (some m) = ltb m x

abbrev pub request_for : ℕ → ℕ → RuleApproval
request_for loan_id rule_id = record { loan_id = loan_id; rule_id = rule_id; is_pending = true }

-- `{ principal, termMonths, interestRate, customer }`, of which the fields 0, 1 and 2 are the loan's
-- and a field n + 3 is one of the customer's, undefined without a customer.
abbrev pub customer_field : Option Customer → Context
customer_field none n = none
customer_field (some c) n = c.fields n

abbrev pub rule_context : Loan → Option Customer → Context
rule_context loan customer n =
    if n == 0
    then some (Value.number (pos loan.principal))
    else (if n == 1
        then some (Value.number (pos (100 * loan.term_months)))
        else (if n == 2
            then some (Value.number (pos loan.interest_rate))
            else customer_field customer (n - 3)))

-- What the transaction of a disbursement needs from the checks.
pub record Plan : Type 0 where
  pub loan : Loan
  pub lines : List JournalLine
  pub schedule : List ScheduleRow

abbrev pub installment_of : ℕ → ScheduleRow → LoanInstallment
installment_of id row = record {
  loan_id = id;
  row = row;
  total_due = round2_ℤ (row.principal_due +ℤ row.interest_due) 1;
}

-- The unique constraint on the loan and the installment number.
abbrev pub is_same_number : LoanInstallment → LoanInstallment → Bool
is_same_number a b = a.loan_id == b.loan_id && a.row.installment_number == b.row.installment_number

-- `createMany`; `none` is the exception of a row that violates the constraint.
abbrev pub create_installments :
    List LoanInstallment → List LoanInstallment → Option (List LoanInstallment)
create_installments [] rows = some rows
create_installments (new ∷ news) rows =
    let rest = create_installments news (rows ++ (new ∷ [])) in
    if any (λ (row : LoanInstallment). is_same_number row new) rows then none else rest

-- The journal, with the checks that it can be posted.
unfoldable pub disbursement_lines : Loan → ℕ → LoanBook → Result (List JournalLine)
disbursement_lines loan now book = do
  receivable ← require book.receivable_account bad_request
  cash ← require book.cash_account bad_request
  guard (is_postable book.cash.books.periods now) bad_request
  receivable_account ← require (get receivable book.cash.books.accounts) server_error
  cash_account ← require (get cash book.cash.books.accounts) server_error
  let lines =
      journal_line receivable receivable_account loan.principal 0
      ∷ journal_line cash cash_account 0 loan.principal
      ∷ []
  guard (is_balanced lines) bad_request
  ok lines

-- The guarded decrement of the vault and its entry.
abbrev pub drawn : ℕ → Vault → ℕ → Books → CashStore → CashStore
drawn vault_id vault principal books cash =
    let balance = vault.balance -ℤ pos principal in
    let entry : CashLedgerEntry = record {
      holder_type = CashHolderType.vault_holder;
      holder_id = vault_id;
      type = CashLedgerEntryType.transfer_out;
      amount = principal;
      balance_after = balance;
    } in
    record cash {
      vaults = set vault_id (record vault { balance = balance }) cash.vaults;
      entries = cash.entries ++ entry ∷ [];
      books = books;
    }

-- The transaction of `/:id/disburse`.
unfoldable pub commit_disburse : ℕ → ℕ → ℕ → Plan → LoanBook → Result LoanBook
commit_disburse id vault_id now plan book = do
  vault ← require (get vault_id book.cash.vaults) bad_request
  guard (leb_ℤ (pos plan.loan.principal) vault.balance) bad_request
  books ← require (post_automatic now plan.lines book.cash.books) server_error
  loan ← require (get id book.loans) server_error
  installments ←
      require (create_installments (map (installment_of id) plan.schedule) book.installments)
        server_error
  ok (record book {
    cash = drawn vault_id vault plan.loan.principal books book.cash;
    loans = set id (record loan { status = LoanStatus.disbursed }) book.loans;
    installments = installments;
  })

-- A request, made by some user.
pub data Op : Type 0 where
  create_op : ℕ → ℕ → ℕ → ℕ → ℕ → ℕ → Op
  approve_op : ℕ → ℕ → Op
  reject_op : ℕ → Op
  disburse_op : ℕ → Option ℕ → Op

module _ (match_rules : List Rule → TriggerPoint → ℕ → Context → List MatchedRule) where
  abbrev pub matched_for : TriggerPoint → ℕ → Loan → LoanBook → List MatchedRule
  matched_for trigger now loan book =
      match_rules book.rules trigger now (rule_context loan (get loan.customer_id book.customers))

  abbrev pub is_blocked : TriggerPoint → ℕ → Loan → LoanBook → Bool
  is_blocked trigger now loan book = any (λ m. m.has_reject) (matched_for trigger now loan book)

  -- `executeMatchedRules` on a loan.
  abbrev pub requests_of_rules : TriggerPoint → ℕ → ℕ → Loan → LoanBook → List RuleApproval
  requests_of_rules trigger now id loan book =
      map (request_for id) (execute_matched_rules (matched_for trigger now loan book))

  -- `/`
  unfoldable pub create_loan : ℕ → ℕ → ℕ → ℕ → ℕ → ℕ → ℕ → LoanBook → Result LoanBook
  create_loan id user customer_id version_id principal term_months now book = do
    guard (ltb 0 principal && ltb 0 term_months) bad_request
    customer ← require (get customer_id book.customers) not_found
    guard customer.is_active bad_request
    version ← require (get version_id book.product_versions) not_found
    guard version.is_loan not_found
    guard version.is_active bad_request
    guard (not (below principal version.min_loan_amount)) bad_request
    guard (not (above principal version.max_loan_amount)) bad_request
    guard (not (below term_months version.min_tenure_months)) bad_request
    guard (not (above term_months version.max_tenure_months)) bad_request
    guard (is_none (get id book.loans)) server_error
    let loan = fresh_loan user customer_id principal term_months version
    let status =
        if is_blocked TriggerPoint.loan_initiation now loan book
        then LoanStatus.rejected
        else LoanStatus.pending
    ok (record book {
      loans = set id (record loan { status = status }) book.loans;
      rule_approvals =
          book.rule_approvals ++ requests_of_rules TriggerPoint.loan_initiation now id loan book;
    })

  -- `/:id/approve`
  unfoldable pub approve : ℕ → ℕ → ℕ → LoanBook → Result LoanBook
  approve id user now book = do
    loan ← require (get id book.loans) not_found
    guard (not (loan.initiated_by == user)) forbidden
    guard (not (is_blocked TriggerPoint.loan_approval now loan book)) bad_request
    ok (record book {
      loans =
          set id (record loan { status = LoanStatus.approved; approved_by = some user }) book.loans;
      rule_approvals =
          book.rule_approvals ++ requests_of_rules TriggerPoint.loan_approval now id loan book;
    })

  -- `/:id/reject`
  unfoldable pub reject : ℕ → LoanBook → Result LoanBook
  reject id book = do
    loan ← require (get id book.loans) not_found
    ok (record book { loans = set id (record loan { status = LoanStatus.rejected }) book.loans })

  -- The checks of `/:id/disburse`, which read the state as it is before the transaction.
  unfoldable pub check_disburse : ℕ → Option ℕ → ℕ → LoanBook → Result Plan
  check_disburse id vault_id now book = do
    vault_id' ← require vault_id bad_request
    loan ← require (get id book.loans) not_found
    guard (is_approved loan.status) bad_request
    vault ← require (get vault_id' book.cash.vaults) not_found
    guard (is_open vault.status) bad_request
    guard (not (any (λ (a : RuleApproval). a.loan_id == id && a.is_pending) book.rule_approvals))
        bad_request
    guard (not (is_blocked TriggerPoint.loan_disbursement now loan book)) bad_request
    lines ← disbursement_lines loan now book
    ok (record {
      loan = loan;
      lines = lines;
      schedule =
          generate_schedule loan.principal loan.interest_rate loan.term_months loan.interest_method;
    })

  -- `/:id/disburse`, run without interruption; the rules take effect after the transaction.
  unfoldable pub disburse : ℕ → Option ℕ → ℕ → LoanBook → Result LoanBook
  disburse id vault_id now book = do
    vault_id' ← require vault_id bad_request
    plan ← check_disburse id vault_id now book
    book' ← commit_disburse id vault_id' now plan book
    ok (record book' {
      rule_approvals =
          book'.rule_approvals
          ++ requests_of_rules TriggerPoint.loan_disbursement now id plan.loan book;
    })

  abbrev pub perform : ℕ → Op → LoanBook → Result LoanBook
  perform now (Op.create_op id user customer version principal term) =
      create_loan id user customer version principal term now
  perform now (Op.approve_op id user) = approve id user now
  perform now (Op.reject_op id) = reject id
  perform now (Op.disburse_op id vault_id) = disburse id vault_id now

  -- Each request stands with its time.
  abbrev pub run : List (ℕ × Op) → LoanBook → LoanBook
  run [] book = book
  run ((now, op) ∷ ops) book = run ops (settle book (perform now op book))
