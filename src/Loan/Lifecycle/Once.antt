-- ===== src/Loan/Lifecycle/Once.antt =====
-- A loan is paid out once: its installments are numbered from 1, and the numbers are unique.
use mathlib.Core.Option.{some-injective}
use nexus_efos.Common.{
  ℕ, zero, suc, ◌<◌, ◌≡◌, ◌≢◌, refl, sym, ap, ◌∙◌, subst, Bool, true, not, ◌&&◌, ◌||◌, Option, none,
  some, List, [], ◌∷◌, ◌++◌, map, any, ltb, ◌==◌, arith, Bool-cases, inl, inr, ==_iff,
}
use nexus_efos.Common.Int.{pos, leb_ℤ}
use nexus_efos.Common.Table.{Table, get, set, get-set, get-set_self}
use nexus_efos.Common.Result.{
  Error, ok, err, settle, settle-keeps, guard-eq-ok, require-eq-ok, >>=-eq-ok, ok-injective,
  Result-cases, bad_request, forbidden, not_found, server_error,
}
use nexus_efos.Ledger.Posting.{post_automatic}
use nexus_efos.Rules.{Rule, MatchedRule, TriggerPoint, Context}
use nexus_efos.Vault.{is_none}
use nexus_efos.Loan.Repayment.{LoanStatus}
use nexus_efos.Loan.Schedule.{ScheduleRow}
use nexus_efos.Loan.Schedule.Generate.{InterestMethod, generate_schedule}
use nexus_efos.Loan.Lifecycle.{
  Loan, LoanBook, LoanInstallment, installment_of, create_installments, below, above, is_blocked,
  create_loan, approve, reject, check_disburse, commit_disburse, disburse, Op, perform, run,
}
use nexus_efos.Loan.Lifecycle.Disbursement.{check_disburse_inv, create_installments_inv}

-- The loan has an installment with the number 1.
abbrev pub has_first : ℕ → List LoanInstallment → Bool
has_first id rows =
    any (λ (row : LoanInstallment). row.loan_id == id && row.row.installment_number == 1) rows

-- Every schedule of a month or more starts with the number 1.
generate_schedule-first :
    (id principal rate n : ℕ) (method : InterestMethod)
    → 0 < n
    → (row : ScheduleRow) × (rest : List ScheduleRow) × (generate_schedule principal rate n method
        ≡ row ∷ rest)
      × (row.installment_number ≡ 1)
unfolding generate_schedule
generate_schedule-first id principal rate zero method positive = absurd (omega arith)
generate_schedule-first id principal rate (suc n) InterestMethod.flat positive = (_, _, refl, refl)
generate_schedule-first id principal rate (suc n) InterestMethod.reducing_balance positive =
    elim (Bool-cases (rate == 0)) [
      | inl free ↦ rw free (_, _, refl, refl)
      | inr charged ↦ rw charged (_, _, refl, refl)
    ]

-- A second schedule of the loan cannot be written.
taken :
    (id principal rate n : ℕ) (method : InterestMethod) (rows : List LoanInstallment)
    → 0 < n
    → has_first id rows ≡ true
    → create_installments (map (installment_of id) (generate_schedule principal rate n method)) rows
      ≡ none
taken id principal rate n method rows positive first =
    let (row, rest, schedule, number) =
      generate_schedule-first id principal rate n method positive in
    rw (schedule, number, first) refl

any-append :
    (p : LoanInstallment → Bool) (xs ys : List LoanInstallment)
    → any p (xs ++ ys) ≡ (any p xs || any p ys)
any-append p [] ys = refl
any-append p (x ∷ xs) ys = ground (arith, any-append p xs ys)

-- Writing one makes it so, and writing any other leaves it so.
first_written :
    (id principal rate n : ℕ) (method : InterestMethod) (rows : List LoanInstallment)
    → 0 < n
    → has_first id (rows ++ map (installment_of id) (generate_schedule principal rate n method))
      ≡ true
first_written id principal rate n method rows positive =
    let (row, rest, schedule, number) =
      generate_schedule-first id principal rate n method positive in
    let p : LoanInstallment → Bool = λ r. r.loan_id == id && r.row.installment_number == 1 in
    any-append p rows _ ∙ rw (schedule, number, (==_iff id id).1 refl) (ground arith)

first_kept :
    (id : ℕ) (rows news : List LoanInstallment)
    → has_first id rows ≡ true
    → has_first id (rows ++ news) ≡ true
first_kept id rows news first =
    any-append (λ r. r.loan_id == id && r.row.installment_number == 1) rows news ∙ rw first refl

-- The loan has its installments, and if it is there, a term.
abbrev pub HasTerm : ℕ → Table Loan → Type 0
HasTerm id loans = (loan : Loan) → get id loans ≡ some loan → 0 < loan.term_months

abbrev IsStarted : ℕ → LoanBook → Type 0
IsStarted id book = (has_first id book.installments ≡ true) × HasTerm id book.loans

set-HasTerm :
    (id k : ℕ) (loan : Loan) (loans : Table Loan)
    → ((id == k) ≡ true → 0 < loan.term_months)
    → HasTerm id loans
    → HasTerm id (set k loan loans)
set-HasTerm id k loan loans term inv found known = elim (Bool-cases (id == k)) [
  | inl same ↦
      let e : some loan ≡ some found = rw same at (sym (get-set id k loan loans) ∙ known) in
      let worth : loan.term_months ≡ found.term_months =
        ap (λ (l : Loan). l.term_months) (some-injective _ _ e) in
      omega (arith, worth, term same)
  | inr other ↦ inv found (rw other at (sym (get-set id k loan loans) ∙ known))
]

disbursed-HasTerm :
    (id : ℕ) (l : Loan) (loans : Table Loan)
    → 0 < l.term_months
    → HasTerm id (set id (record l { status = LoanStatus.disbursed }) loans)
disbursed-HasTerm id l loans positive found known =
    let e = some-injective _ _ (sym (get-set_self id _ loans) ∙ known) in
    omega (arith, positive, ap (λ (l : Loan). l.term_months) e)

-- What a successful disbursement has written.
record IsWritten (id : ℕ) (book book' : LoanBook) : Type 0 where
  pub loan : Loan
  pub known : get id book.loans ≡ some loan
  pub loans : book'.loans ≡ set id (record loan { status = LoanStatus.disbursed }) book.loans
  pub rows :
      create_installments
        (map (installment_of id) (
          generate_schedule loan.principal loan.interest_rate loan.term_months
            loan.interest_method))
        book.installments
      ≡ some book'.installments

module _ (match_rules : List Rule → TriggerPoint → ℕ → Context → List MatchedRule) where
  create_loan-IsStarted :
      (k id user customer version principal term now : ℕ) (book book' : LoanBook)
      → IsStarted k book
      → create_loan match_rules id user customer version principal term now book ≡ ok book'
      → IsStarted k book'
  unfolding create_loan
  create_loan-IsStarted k id user customer version principal term now book book' (first, terms) h =
      let (positive, h1) = guard-eq-ok (ltb 0 principal && ltb 0 term) bad_request _ h in
      let (c, _, h2) = require-eq-ok (get customer book.customers) not_found _ h1 in
      let (_, h3) = guard-eq-ok c.is_active bad_request _ h2 in
      let (v, _, h4) = require-eq-ok (get version book.product_versions) not_found _ h3 in
      let (_, h5) = guard-eq-ok v.is_loan not_found _ h4 in
      let (_, h6) = guard-eq-ok v.is_active bad_request _ h5 in
      let (_, h7) = guard-eq-ok (not (below principal v.min_loan_amount)) bad_request _ h6 in
      let (_, h8) = guard-eq-ok (not (above principal v.max_loan_amount)) bad_request _ h7 in
      let (_, h9) = guard-eq-ok (not (below term v.min_tenure_months)) bad_request _ h8 in
      let (_, h10) = guard-eq-ok (not (above term v.max_tenure_months)) bad_request _ h9 in
      let (_, last) = guard-eq-ok (is_none (get id book.loans)) server_error _ h10 in
      let some_term : 0 < term = ground (arith, positive) in
      rw (← ok-injective last) (first, set-HasTerm k id _ book.loans (λ same. some_term) terms)

  approve-IsStarted :
      (k id user now : ℕ) (book book' : LoanBook)
      → IsStarted k book
      → approve match_rules id user now book ≡ ok book'
      → IsStarted k book'
  unfolding approve
  approve-IsStarted k id user now book book' (first, terms) h =
      let (loan, found, h1) = require-eq-ok (get id book.loans) not_found _ h in
      let (_, h2) = guard-eq-ok (not (loan.initiated_by == user)) forbidden _ h1 in
      let blocked = is_blocked match_rules TriggerPoint.loan_approval now loan book in
      let (_, last) = guard-eq-ok (not blocked) bad_request _ h2 in
      rw (← ok-injective last) (
        first,
        set-HasTerm k id _ book.loans (λ same. terms loan (rw ((==_iff k id).0 same) found)) terms,
      )

  reject-IsStarted :
      (k id : ℕ) (book book' : LoanBook)
      → IsStarted k book
      → reject match_rules id book ≡ ok book'
      → IsStarted k book'
  unfolding reject
  reject-IsStarted k id book book' (first, terms) h =
      let (loan, found, last) = require-eq-ok (get id book.loans) not_found _ h in
      rw (← ok-injective last) (
        first,
        set-HasTerm k id _ book.loans (λ same. terms loan (rw ((==_iff k id).0 same) found)) terms,
      )

  disburse_inv :
      (id vault now : ℕ) (book book' : LoanBook)
      → disburse match_rules id (some vault) now book ≡ ok book'
      → IsWritten id book book'
  unfolding disburse commit_disburse
  disburse_inv id vault now book book' h =
      let (plan, checked, h1) =
        >>=-eq-ok (check_disburse match_rules id (some vault) now book) _ h in
      let (mid, committed, last) = >>=-eq-ok (commit_disburse id vault now plan book) _ h1 in
      let (v, _, d1) = require-eq-ok (get vault book.cash.vaults) bad_request _ committed in
      let (_, d2) = guard-eq-ok (leb_ℤ (pos plan.loan.principal) v.balance) bad_request _ d1 in
      let (books, _, d3) =
        require-eq-ok (post_automatic now plan.lines book.cash.books) server_error _ d2 in
      let (loan, found, d4) = require-eq-ok (get id book.loans) server_error _ d3 in
      let added = create_installments (map (installment_of id) plan.schedule) book.installments in
      let (rows, created, d5) = require-eq-ok added server_error _ d4 in
      let (_, _, _, schedule) =
        check_disburse_inv match_rules id vault now loan plan book checked found in
      rw (← ok-injective last, ← ok-injective d5)
        (record {
          loan = loan;
          known = found;
          loans = refl;
          rows =
              ap (λ l. create_installments (map (installment_of id) l) book.installments)
                (sym schedule)
              ∙ created;
        })

  no_vault :
      (id now : ℕ) (book : LoanBook) → disburse match_rules id none now book ≡ err bad_request
  unfolding disburse
  no_vault id now book = refl

  disburse-IsStarted :
      (k id : ℕ) (vault_id : Option ℕ) (now : ℕ) (book book' : LoanBook)
      → IsStarted k book
      → disburse match_rules id vault_id now book ≡ ok book'
      → IsStarted k book'
  disburse-IsStarted k id none now book book' inv h =
      absurd (refused (sym (no_vault id now book) ∙ h))
    where
      refused : err bad_request ≢ ok book'
      refused e = cc
  disburse-IsStarted k id (some vault) now book book' (first, terms) h =
      let w = disburse_inv id vault now book book' h in
      (
        rw (create_installments_inv _ book.installments book'.installments w.rows)
            (first_kept k book.installments _ first),
        rw w.loans (
            set-HasTerm k id _ book.loans (λ same. terms w.loan (rw ((==_iff k id).0 same) w.known))
              terms),
      )

  perform-IsStarted :
      (k now : ℕ) (op : Op) (book book' : LoanBook)
      → IsStarted k book
      → perform match_rules now op book ≡ ok book'
      → IsStarted k book'
  perform-IsStarted k now (Op.create_op id user customer version principal term) book book' =
      create_loan-IsStarted k id user customer version principal term now book book'
  perform-IsStarted k now (Op.approve_op id user) book book' =
      approve-IsStarted k id user now book book'
  perform-IsStarted k now (Op.reject_op id) book book' = reject-IsStarted k id book book'
  perform-IsStarted k now (Op.disburse_op id vault_id) book book' =
      disburse-IsStarted k id vault_id now book book'

  run-IsStarted :
      (k : ℕ) (ops : List (ℕ × Op)) (book : LoanBook)
      → IsStarted k book
      → IsStarted k (run match_rules ops book)
  run-IsStarted k [] book inv = inv
  run-IsStarted k ((now, op) ∷ ops) book inv =
      run-IsStarted k ops (settle book (perform match_rules now op book)) (
        settle-keeps (IsStarted k) book (perform match_rules now op book) inv
          (λ book' h. perform-IsStarted k now op book book' inv h))

  -- A loan that has its installments is not paid out.
  started_refused :
      (id vault now : ℕ) (book : LoanBook)
      → IsStarted id book
      → (e : Error) × (disburse match_rules id (some vault) now book ≡ err e)
  started_refused id vault now book (first, terms) =
      elim (Result-cases (disburse match_rules id (some vault) now book)) [
        | inl refused ↦ refused
        | inr (book', done) ↦
            let w = disburse_inv id vault now book book' done in
            let conflict =
              taken id w.loan.principal w.loan.interest_rate w.loan.term_months
                w.loan.interest_method book.installments (terms w.loan w.known) first in
            absurd (none_some book'.installments (sym conflict ∙ w.rows))
      ]
    where
      none_some : (x : List LoanInstallment) → none ≢ some x
      none_some x p = cc

  -- If a loan of at least one month was disbursed, then whatever applications, approvals (of this
  -- loan too), rejections and disbursements follow, refused ones included, another disbursement of
  -- the loan, from any vault and at any time, fails.
  pub disbursed_once :
      (id vault vault' now now' : ℕ) (loan : Loan) (ops : List (ℕ × Op)) (book book' : LoanBook)
      → get id book.loans ≡ some loan
      → 0 < loan.term_months
      → disburse match_rules id (some vault) now book ≡ ok book'
      → (e : Error) × (disburse match_rules id (some vault') now' (run match_rules ops book')
          ≡ err e)
  disbursed_once id vault vault' now now' loan ops book book' known term h =
      let w = disburse_inv id vault now book book' h in
      let same : w.loan ≡ loan = some-injective _ _ (sym w.known ∙ known) in
      let some_term : 0 < w.loan.term_months =
        omega (arith, term, ap (λ (l : Loan). l.term_months) same) in
      let first : has_first id book'.installments ≡ true =
        rw (create_installments_inv _ book.installments book'.installments w.rows) (
          first_written id w.loan.principal w.loan.interest_rate w.loan.term_months
            w.loan.interest_method book.installments some_term) in
      let terms =
        subst (HasTerm id) (sym w.loans) (disbursed-HasTerm id w.loan book.loans some_term) in
      started_refused id vault' now' (run match_rules ops book')
        (run-IsStarted id ops book' (first, terms))
