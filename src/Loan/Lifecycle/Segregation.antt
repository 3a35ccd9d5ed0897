-- ===== src/Loan/Lifecycle/Segregation.antt =====
-- Who may approve a loan.
use nexus_efos.Common.{
  ℕ, ◌≡◌, ◌≢◌, ◌⊎◌, inl, inr, refl, sym, ◌∙◌, Bool, true, false, not, ◌&&◌, Option, some, List, [],
  ◌∷◌, map, if◌then◌else◌, ltb, ◌==◌, All, arith,
}
use mathlib.Core.Option.{some-injective}
use nexus_efos.Common.Int.{pos, leb_ℤ}
use nexus_efos.Common.Table.{get}
use nexus_efos.Common.Table.Sums.{All-get, All-set}
use nexus_efos.Common.Result.{
  ok, settle, settle-keeps, guard-eq-ok, require-eq-ok, >>=-eq-ok, ok-injective, bad_request,
  forbidden, not_found, server_error,
}
use nexus_efos.Ledger.Posting.{post_automatic}
use nexus_efos.Rules.{Rule, MatchedRule, TriggerPoint, Context}
use nexus_efos.Vault.{is_none}
use nexus_efos.Loan.Repayment.{LoanStatus}
use nexus_efos.Loan.Lifecycle.{
  Loan, LoanBook, installment_of, create_installments, is_approved, below, above, fresh_loan,
  is_blocked, create_loan, approve, reject, check_disburse, commit_disburse, disburse, Op, perform,
  run,
}

-- A loan that money may follow was approved by someone other than its initiator.
abbrev pub IsSegregated : Loan → Type 0
IsSegregated loan =
    (loan.status ≡ LoanStatus.pending)
    ⊎ ((loan.status ≡ LoanStatus.rejected)
        ⊎ ((user : ℕ) × (loan.approved_by ≡ some user) × (user ≢ loan.initiated_by)))

abbrev pub AllSegregated : LoanBook → Type 0
AllSegregated book = All (λ e. IsSegregated e.1) book.loans

abbrev initial : Bool → Loan → Loan
initial blocked loan = record loan {
  status = if blocked then LoanStatus.rejected else LoanStatus.pending;
}

initial-IsSegregated : (blocked : Bool) (loan : Loan) → IsSegregated (initial blocked loan)
initial-IsSegregated true loan = inr (inl refl)
initial-IsSegregated false loan = inl refl

-- What was approved keeps its approver when it is disbursed.
approved-IsSegregated :
    (loan : Loan)
    → is_approved loan.status ≡ true
    → IsSegregated loan
    → IsSegregated (record loan { status = LoanStatus.disbursed })
approved-IsSegregated loan h (inl waiting) = absurd (ground arith)
approved-IsSegregated loan h (inr (inl refused)) = absurd (ground arith)
approved-IsSegregated loan h (inr (inr known)) = inr (inr known)

module _ (match_rules : List Rule → TriggerPoint → ℕ → Context → List MatchedRule) where
  create_loan-keeps :
      (id user customer version principal term now : ℕ) (book book' : LoanBook)
      → AllSegregated book
      → create_loan match_rules id user customer version principal term now book ≡ ok book'
      → AllSegregated book'
  unfolding create_loan
  create_loan-keeps id user customer version principal term now book book' inv h =
      let (_, h1) = guard-eq-ok (ltb 0 principal && ltb 0 term) bad_request _ h in
      let (c, _, h2) = require-eq-ok (get customer book.customers) not_found _ h1 in
      let (_, h3) = guard-eq-ok c.is_active bad_request _ h2 in
      let (v, _, h4) = require-eq-ok (get version book.product_versions) not_found _ h3 in
      let (_, h5) = guard-eq-ok v.is_loan not_found _ h4 in
      let (_, h6) = guard-eq-ok v.is_active bad_request _ h5 in
      let (_, h7) = guard-eq-ok (not (below principal v.min_loan_amount)) bad_request _ h6 in
      let (_, h8) = guard-eq-ok (not (above principal v.max_loan_amount)) bad_request _ h7 in
      let (_, h9) = guard-eq-ok (not (below term v.min_tenure_months)) bad_request _ h8 in
      let (_, h10) = guard-eq-ok (not (above term v.max_tenure_months)) bad_request _ h9 in
      let (_, last) = guard-eq-ok (is_none (get id book.loans)) server_error _ h10 in
      let loan = fresh_loan user customer principal term v in
      let blocked = is_blocked match_rules TriggerPoint.loan_initiation now loan book in
      rw (← ok-injective last) (
        All-set IsSegregated id (initial blocked loan) book.loans
          (initial-IsSegregated blocked loan) inv)

  approve-keeps :
      (id user now : ℕ) (book book' : LoanBook)
      → AllSegregated book
      → approve match_rules id user now book ≡ ok book'
      → AllSegregated book'
  unfolding approve
  approve-keeps id user now book book' inv h =
      let (loan, found, h1) = require-eq-ok (get id book.loans) not_found _ h in
      let (other, h2) = guard-eq-ok (not (loan.initiated_by == user)) forbidden _ h1 in
      let (_, last) =
        guard-eq-ok (not (is_blocked match_rules TriggerPoint.loan_approval now loan book))
          bad_request _ h2 in
      rw (← ok-injective last) (
        All-set IsSegregated id
          (record loan { status = LoanStatus.approved; approved_by = some user }) book.loans
          (inr (inr (user, refl, differs user loan.initiated_by other))) inv)
    where
      differs : (a b : ℕ) → not (b == a) ≡ true → a ≢ b
      differs a b e same = ground arith

  reject-keeps :
      (id : ℕ) (book book' : LoanBook)
      → AllSegregated book
      → reject match_rules id book ≡ ok book'
      → AllSegregated book'
  unfolding reject
  reject-keeps id book book' inv h =
      let (loan, found, last) = require-eq-ok (get id book.loans) not_found _ h in
      rw (← ok-injective last) (
        All-set IsSegregated id (record loan { status = LoanStatus.rejected }) book.loans
          (inr (inl refl)) inv)

  disburse-keeps :
      (id : ℕ) (vault_id : Option ℕ) (now : ℕ) (book book' : LoanBook)
      → AllSegregated book
      → disburse match_rules id vault_id now book ≡ ok book'
      → AllSegregated book'
  unfolding disburse check_disburse commit_disburse
  disburse-keeps id vault_id now book book' inv h =
      let (vault, given, h1) = require-eq-ok vault_id bad_request _ h in
      let (plan, checked, h2) = >>=-eq-ok (check_disburse match_rules id vault_id now book) _ h1 in
      let (_, _, c1) = require-eq-ok vault_id bad_request _ checked in
      let (loan, found, c2) = require-eq-ok (get id book.loans) not_found _ c1 in
      let (approved, _) = guard-eq-ok (is_approved loan.status) bad_request _ c2 in
      let (mid, committed, last) = >>=-eq-ok (commit_disburse id vault now plan book) _ h2 in
      let (v, _, d1) = require-eq-ok (get vault book.cash.vaults) bad_request _ committed in
      let (_, d2) = guard-eq-ok (leb_ℤ (pos plan.loan.principal) v.balance) bad_request _ d1 in
      let (books, _, d3) =
        require-eq-ok (post_automatic now plan.lines book.cash.books) server_error _ d2 in
      let (loan', found', d4) = require-eq-ok (get id book.loans) server_error _ d3 in
      let added = create_installments (map (installment_of id) plan.schedule) book.installments in
      let (_, _, d5) = require-eq-ok added server_error _ d4 in
      let same : loan ≡ loan' = some-injective _ _ (sym found ∙ found') in
      let before = All-get IsSegregated id loan book.loans found inv in
      let after = approved-IsSegregated loan approved before in
      rw (← ok-injective last, ← ok-injective d5, ← same)
        (All-set IsSegregated id (record loan { status = LoanStatus.disbursed }) book.loans after
          inv)

  perform-keeps :
      (now : ℕ) (op : Op) (book book' : LoanBook)
      → AllSegregated book
      → perform match_rules now op book ≡ ok book'
      → AllSegregated book'
  perform-keeps now (Op.create_op id user customer version principal term) book book' =
      create_loan-keeps id user customer version principal term now book book'
  perform-keeps now (Op.approve_op id user) book book' = approve-keeps id user now book book'
  perform-keeps now (Op.reject_op id) book book' = reject-keeps id book book'
  perform-keeps now (Op.disburse_op id vault_id) book book' =
      disburse-keeps id vault_id now book book'

  -- From a book where it holds, an empty one for example, after any sequence of applications,
  -- approvals, rejections and disbursements, refused ones included, every loan that is neither
  -- pending nor rejected was approved by a user other than the one who applied for it.
  pub four_eyes :
      (ops : List (ℕ × Op)) (book : LoanBook)
      → AllSegregated book
      → AllSegregated (run match_rules ops book)
  four_eyes [] book inv = inv
  four_eyes ((now, op) ∷ ops) book inv =
      four_eyes ops (settle book (perform match_rules now op book)) (
        settle-keeps AllSegregated book (perform match_rules now op book) inv
          (λ book' h. perform-keeps now op book book' inv h))
