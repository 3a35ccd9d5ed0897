-- ===== src/Loan/Lifecycle/Disbursement.antt =====
-- What a disbursement pays.
use nexus_efos.Common.{
  ℕ, ◌≡◌, ◌≢◌, refl, sym, ap, ap₂, ◌∙◌, subst, true, not, ◌&&◌, none, some, List, [], ◌∷◌, ◌++◌,
  Bool-cases, inl, inr, map, any, ◌==◌, arith, sum_by_ℤ,
}
use mathlib.Core.List.{append-nil, append_assoc}
use mathlib.Core.Option.{some-injective}
use nexus_efos.Common.Int.{pos, ◌+ℤ◌, ◌-ℤ◌, ◌≤ℤ◌, leb_ℤ}
use nexus_efos.Common.Rounding.{round2_ℤ-one}
use nexus_efos.Common.Table.{get, get-set_self}
use nexus_efos.Common.Result.{
  ok, guard-eq-ok, require-eq-ok, >>=-eq-ok, ok-injective, bad_request, not_found, server_error,
}
use nexus_efos.Ledger.{Category, JournalLine, is_balanced}
use nexus_efos.Ledger.Posting.{is_postable, post_automatic}
use nexus_efos.Ledger.Posting.Effects.{balance_of, part_of, posting-part_of}
use nexus_efos.Ledger.Posting.Conservation.{category_of, category_of-get, post_automatic_inv}
use nexus_efos.Rules.{Rule, MatchedRule, TriggerPoint, Context}
use nexus_efos.Vault.Subledger.Postings.{entry_parts}
use nexus_efos.Vault.Entries.{EntryType, entry_lines}
use nexus_efos.Vault.{Vault, is_open}
use nexus_efos.Loan.Schedule.{ScheduleRow}
use nexus_efos.Loan.Schedule.Generate.{generate_schedule}
use nexus_efos.Loan.Repayment.{LoanStatus}
use nexus_efos.Loan.Lifecycle.{
  Loan, LoanBook, LoanInstallment, is_same_number, create_installments, Plan, RuleApproval,
  is_approved, is_blocked, disbursement_lines, installment_of, check_disburse, commit_disburse,
  disburse,
}

-- "Loan Receivable" is an asset and not the account that pays.
abbrev pub IsMapped : ℕ → ℕ → LoanBook → Type 0
IsMapped receivable cash book =
    (book.receivable_account ≡ some receivable)
    × (book.cash_account ≡ some cash)
    × (category_of receivable book.cash.books.accounts ≡ some Category.asset)
    × (receivable ≢ cash)

-- A row of the schedule as an installment of the loan: its principal and interest add up to its total.
abbrev pub asked_for : ℕ → ScheduleRow → LoanInstallment
asked_for id s = record { loan_id = id; row = s; total_due = s.principal_due +ℤ s.interest_due }

map-asked_for : (id : ℕ) (l : List ScheduleRow) → map (installment_of id) l ≡ map (asked_for id) l
map-asked_for id [] = refl
map-asked_for id (s ∷ l) =
    ap₂ (λ x xs. x ∷ xs)
      (ap (λ t. record { loan_id = id; row = s; total_due = t })
        (round2_ℤ-one (s.principal_due +ℤ s.interest_due)))
      (map-asked_for id l)

-- What `createMany` wrote is all the new rows, behind the old ones.
pub create_installments_inv :
    (news rows all : List LoanInstallment)
    → create_installments news rows ≡ some all
    → all ≡ rows ++ news
create_installments_inv [] rows all h = sym (some-injective _ _ h) ∙ sym (append-nil rows)
create_installments_inv (new ∷ news) rows all h =
    elim (Bool-cases (any (λ (row : LoanInstallment). is_same_number row new) rows)) [
      | inl taken ↦ absurd (none_some all (rw taken at h))
      | inr free ↦
          create_installments_inv news (rows ++ new ∷ []) all (rw free at h)
          ∙ append_assoc rows (new ∷ []) news
    ]
  where
    none_some : (x : List LoanInstallment) → none ≢ some x
    none_some x p = cc

-- A disbursement of the loan from the vault: what held before, and what the state is after.
pub record Disbursed (id vault_id receivable : ℕ) (loan : Loan) (book book' : LoanBook)
    : Type 0 where
  pub was_approved : is_approved loan.status ≡ true
  pub vault : Vault
  pub held : get vault_id book.cash.vaults ≡ some vault
  pub covered : pos loan.principal ≤ℤ vault.balance
  pub left :
      get vault_id book'.cash.vaults
      ≡ some (record vault { balance = vault.balance -ℤ pos loan.principal })
  pub now_disbursed : get id book'.loans ≡ some (record loan { status = LoanStatus.disbursed })
  pub ledger :
      balance_of receivable book'.cash.books.accounts
      ≡ balance_of receivable book.cash.books.accounts +ℤ pos loan.principal
  pub rows :
      book'.installments
      ≡ book.installments
        ++ map (asked_for id) (
            generate_schedule loan.principal loan.interest_rate loan.term_months
              loan.interest_method)

-- What the transaction did.
pub record IsPaid (id vault_id receivable : ℕ) (plan : Plan) (book book' : LoanBook) : Type 0 where
  pub vault : Vault
  pub held : get vault_id book.cash.vaults ≡ some vault
  pub covered : pos plan.loan.principal ≤ℤ vault.balance
  pub left :
      get vault_id book'.cash.vaults
      ≡ some (record vault { balance = vault.balance -ℤ pos plan.loan.principal })
  pub loan : Loan
  pub known : get id book.loans ≡ some loan
  pub now_disbursed : get id book'.loans ≡ some (record loan { status = LoanStatus.disbursed })
  pub ledger :
      balance_of receivable book'.cash.books.accounts
      ≡ balance_of receivable book.cash.books.accounts +ℤ sum_by_ℤ (part_of receivable) plan.lines
  pub rows : book'.installments ≡ book.installments ++ map (asked_for id) plan.schedule

pub commit-IsPaid :
    (id vault_id receivable now : ℕ) (plan : Plan) (book book' : LoanBook)
    → commit_disburse id vault_id now plan book ≡ ok book'
    → IsPaid id vault_id receivable plan book book'
unfolding commit_disburse
commit-IsPaid id vault_id receivable now plan book book' h =
    let (v, held, h1) = require-eq-ok (get vault_id book.cash.vaults) bad_request _ h in
    let (enough, h2) = guard-eq-ok (leb_ℤ (pos plan.loan.principal) v.balance) bad_request _ h1 in
    let (books, posted, h3) =
      require-eq-ok (post_automatic now plan.lines book.cash.books) server_error _ h2 in
    let (loan, found, h4) = require-eq-ok (get id book.loans) server_error _ h3 in
    let added = create_installments (map (installment_of id) plan.schedule) book.installments in
    let (rows, created, last) = require-eq-ok added server_error _ h4 in
    let e = ok-injective last in
    record {
      vault = v;
      held = held;
      covered = ground arith;
      left =
          ap (λ b. get vault_id b.cash.vaults) (sym e) ∙ get-set_self vault_id _ book.cash.vaults;
      loan = loan;
      known = found;
      now_disbursed = ap (λ b. get id b.loans) (sym e) ∙ get-set_self id _ book.loans;
      ledger =
          ap (λ b. balance_of receivable b.cash.books.accounts) (sym e)
          ∙ posting-part_of receivable plan.lines book.cash.books.accounts books.accounts
              (post_automatic_inv now plan.lines book.cash.books books posted).0;
      rows =
          ap (λ b. b.installments) (sym e)
          ∙ create_installments_inv (map (installment_of id) plan.schedule) book.installments rows
              created
          ∙ ap (λ l. book.installments ++ l) (map-asked_for id plan.schedule);
    }

-- The lines put the principal on the receivable.
disbursement_lines_inv :
    (receivable cash now : ℕ) (loan : Loan) (book : LoanBook) (lines : List JournalLine)
    → disbursement_lines loan now book ≡ ok lines
    → IsMapped receivable cash book
    → sum_by_ℤ (part_of receivable) lines ≡ pos loan.principal
unfolding disbursement_lines
disbursement_lines_inv receivable cash now loan book lines h (r, c, asset, differ) =
    let (receivable', r', h1) = require-eq-ok book.receivable_account bad_request _ h in
    let (cash', c', h2) = require-eq-ok book.cash_account bad_request _ h1 in
    let (_, h3) = guard-eq-ok (is_postable book.cash.books.periods now) bad_request _ h2 in
    let (g, gf, h4) = require-eq-ok (get receivable' book.cash.books.accounts) server_error _ h3 in
    let (g', _, h5) = require-eq-ok (get cash' book.cash.books.accounts) server_error _ h4 in
    let (_, last) = guard-eq-ok (is_balanced _) bad_request _ h5 in
    let same_receivable : receivable' ≡ receivable = some-injective _ _ (sym r' ∙ r) in
    let same_cash : cash' ≡ cash = some-injective _ _ (sym c' ∙ c) in
    let category =
      category_of-get receivable g Category.asset book.cash.books.accounts
        (ap (λ i. get i book.cash.books.accounts) (sym same_receivable) ∙ gf) asset in
    ap (sum_by_ℤ (part_of receivable)) (
      sym (ok-injective last)
      ∙ ap₂ (λ x y. entry_lines EntryType.receipt loan.principal (x, g) (y, g')) same_receivable
          same_cash)
    ∙ entry_parts EntryType.receipt receivable cash loan.principal g g' differ category

module _ (match_rules : List Rule → TriggerPoint → ℕ → Context → List MatchedRule) where
  -- The checks found the loan approved, and made the plan from it.
  pub check_disburse_inv :
      (id vault now : ℕ) (loan : Loan) (plan : Plan) (book : LoanBook)
      → check_disburse match_rules id (some vault) now book ≡ ok plan
      → get id book.loans ≡ some loan
      → (is_approved loan.status ≡ true)
        × (plan.loan ≡ loan)
        × (disbursement_lines loan now book ≡ ok plan.lines)
        × (plan.schedule
            ≡ generate_schedule loan.principal loan.interest_rate loan.term_months
                loan.interest_method)
  unfolding check_disburse
  check_disburse_inv id vault now loan plan book h known =
      let (loan', found, h1) = require-eq-ok (get id book.loans) not_found _ h in
      let (approved, h2) = guard-eq-ok (is_approved loan'.status) bad_request _ h1 in
      let (v, _, h3) = require-eq-ok (get vault book.cash.vaults) not_found _ h2 in
      let (_, h4) = guard-eq-ok (is_open v.status) bad_request _ h3 in
      let (_, h5) =
        guard-eq-ok
          (not (any (λ (a : RuleApproval). a.loan_id == id && a.is_pending) book.rule_approvals))
          bad_request _ h4 in
      let (_, h6) =
        guard-eq-ok (not (is_blocked match_rules TriggerPoint.loan_disbursement now loan' book))
          bad_request _ h5 in
      let (lines, posted, last) = >>=-eq-ok (disbursement_lines loan' now book) _ h6 in
      let e = ok-injective last in
      let same : loan' ≡ loan = some-injective _ _ (sym found ∙ known) in
      (
        ap (λ l. is_approved l.status) (sym same) ∙ approved,
        ap (λ p. p.loan) (sym e) ∙ same,
        ap (λ l. disbursement_lines l now book) (sym same) ∙ posted ∙ ap (λ p. ok p.lines) e,
        ap (λ p. p.schedule) (sym e)
            ∙ ap
                (λ (l : Loan).
                  generate_schedule l.principal l.interest_rate l.term_months l.interest_method)
                same,
      )

  -- If "Loan Receivable" is mapped to an asset other than the cash account, a disbursement that
  -- succeeds was of an APPROVED loan, and of a vault that had the principal; it takes exactly the
  -- principal from the vault, adds exactly the principal to the receivable, leaves the loan
  -- DISBURSED, and adds to the installments, behind those that are there, one row of the loan for each
  -- row of the schedule that `generateSchedule` gives for its terms, with the row's number, months,
  -- principal and interest, and the sum of the two.
  pub disburse_pays :
      (id vault receivable cash now : ℕ) (loan : Loan) (book book' : LoanBook)
      → get id book.loans ≡ some loan
      → IsMapped receivable cash book
      → disburse match_rules id (some vault) now book ≡ ok book'
      → Disbursed id vault receivable loan book book'
  unfolding disburse
  disburse_pays id vault receivable cash now loan book book' known mapped h =
      let (plan, checked, h1) =
        >>=-eq-ok (check_disburse match_rules id (some vault) now book) _ h in
      let (mid, committed, last) = >>=-eq-ok (commit_disburse id vault now plan book) _ h1 in
      let paid = commit-IsPaid id vault receivable now plan book mid committed in
      let (approved, same, posted, schedule) =
        check_disburse_inv id vault now loan plan book checked known in
      let parts = disbursement_lines_inv receivable cash now loan book plan.lines posted mapped in
      let own : paid.loan ≡ loan = some-injective _ _ (sym paid.known ∙ known) in
      rw (← ok-injective last) (record {
        was_approved = approved;
        vault = paid.vault;
        held = paid.held;
        covered = subst (λ (l : Loan). pos l.principal ≤ℤ paid.vault.balance) same paid.covered;
        left =
            paid.left
            ∙ ap
                (λ (l : Loan).
                  some (record paid.vault { balance = paid.vault.balance -ℤ pos l.principal }))
                same;
        now_disbursed =
            paid.now_disbursed
            ∙ ap (λ (l : Loan). some (record l { status = LoanStatus.disbursed })) own;
        ledger = paid.ledger ∙ ap (λ z. balance_of receivable book.cash.books.accounts +ℤ z) parts;
        rows = paid.rows ∙ ap (λ l. book.installments ++ map (asked_for id) l) schedule;
      })
