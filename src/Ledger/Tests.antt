-- ===== src/Ledger/Tests.antt =====
-- The ledger on concrete data: a loan is funded, disbursed and repaid with interest.
use nexus_efos.Common.{
  ℕ, ◌≡◌, ◌↔◌, ◌==◌, Bool, if◌then◌else◌, refl, true, false, inl, inr, some, List, [], ◌∷◌, sum_by,
  sum_by_ℤ, arith,
}
use nexus_efos.Common.Int.{ℤ, pos, negsuc, ◌+ℤ◌, ◌-ℤ◌}
use nexus_efos.Common.Rounding.{round2, round2_ℤ}
use nexus_efos.Common.Table.{get_or}
use nexus_efos.Ledger.{
  Category, JournalLine, Journal, JournalStatus, is_balanced, balance_effect,
  aggregate_balances_as_of, accounts_involved, posted_lines_up_to,
}
use nexus_efos.Ledger.Totals.{IsJoined}
use nexus_efos.Ledger.Reports.{balance_sheet, by_category}
use nexus_efos.Ledger.Reports.Columns.{ArePosted}
use nexus_efos.Ledger.Reports.Equation.{balance_sheet_gap}
use nexus_efos.Ledger.Posting.{GlAccount, increment, post_lines}
use nexus_efos.Ledger.Posting.Effects.{balance_of, posting-refines-aggregate}
use nexus_efos.Ledger.CashFlow.{
  Activity, CashFlowAccountMovement, build_cash_flow_statement, statement_reconciles,
}

abbrev chart : ℕ → Category
chart id =
    if id == 1
    then Category.asset
    else (if id == 2
        then Category.liability
        else (if id == 3 then Category.income else Category.expense))

abbrev line : ℕ → ℕ → ℕ → JournalLine
line id debit credit = record {
  account_id = id;
  category = chart id;
  debit = debit;
  credit = credit;
}

-- Savings of 100.00 come in, 2.50 of fees are earned, 1.20 is spent.
abbrev savings_in : List JournalLine
savings_in = line 1 10000 0 ∷ line 2 0 10000 ∷ []

abbrev fee_and_expense : List JournalLine
fee_and_expense = line 1 250 0 ∷ line 3 0 250 ∷ line 4 120 0 ∷ line 1 0 120 ∷ []

abbrev journals : List Journal
journals =
    (record { status = JournalStatus.posted; posting_date = 3; lines = savings_in })
    ∷ (record { status = JournalStatus.draft; posting_date = 4; lines = line 1 5 0 ∷ [] })
    ∷ (record { status = JournalStatus.posted; posting_date = 5; lines = fee_and_expense })
    ∷ []

abbrev account : ℕ → ℤ → ℕ × GlAccount
account id balance = (id, record { category = chart id; is_active = true; balance = balance })

abbrev accounts : List (ℕ × GlAccount)
accounts = account 1 (pos 0) ∷ account 2 (pos 0) ∷ account 3 (negsuc 4) ∷ account 4 (pos 0) ∷ []

abbrev accounts_after : List (ℕ × GlAccount)
accounts_after =
    account 1 (pos 130) ∷ account 2 (pos 0) ∷ account 3 (pos 245) ∷ account 4 (pos 120) ∷ []

posted : post_lines fee_and_expense accounts ≡ some accounts_after
unfolding post_lines increment ◌+ℤ◌ ◌-ℤ◌ balance_effect round2_ℤ round2
posted = refl

sheet :
    let s = balance_sheet (posted_lines_up_to 9 journals) in
    (s.total_assets ≡ pos 10130) × (s.total_equity ≡ pos 370)
unfolding balance_sheet by_category aggregate_balances_as_of accounts_involved balance_effect ◌+ℤ◌
    ◌-ℤ◌ sum_by_ℤ round2_ℤ round2
sheet = (refl, refl)

abbrev lines : List JournalLine
lines = posted_lines_up_to 9 journals

lines-IsJoined : IsJoined chart lines
lines-IsJoined = (refl, (refl, (refl, (refl, (refl, (refl, tt))))))

journals-ArePosted : ArePosted journals
unfolding is_balanced round2 sum_by
journals-ArePosted = ((λ p. refl), ((λ p. absurd (ground arith)), ((λ p. refl), tt)))

balance_sheet_gap_example :
    let s = balance_sheet lines in
    let expenses = sum_by_ℤ (λ a. a.1) (by_category lines Category.expense) in
    (s.total_assets +ℤ expenses +ℤ expenses ≡ s.total_liabilities +ℤ s.total_equity)
    × ((s.balanced ≡ true) ↔ (expenses ≡ pos 0))
balance_sheet_gap_example = balance_sheet_gap chart lines lines-IsJoined (unfold sum_by in refl)

posting-refines-aggregate_example :
    balance_of 1 accounts_after
    ≡ balance_of 1 accounts +ℤ get_or 1 (pos 0) (aggregate_balances_as_of fee_and_expense)
posting-refines-aggregate_example =
    posting-refines-aggregate 1 fee_and_expense accounts accounts_after posted

abbrev movement : ℕ → Category → Bool → ℕ → ℕ → CashFlowAccountMovement
movement id category is_liquid_asset opening closing = record {
  account_id = id;
  category = category;
  activity = Activity.untagged;
  is_liquid_asset = is_liquid_asset;
  opening_balance = pos opening;
  closing_balance = pos closing;
}

-- Cash falls by what the deposits fall, less the fee income.
abbrev movements : List CashFlowAccountMovement
movements =
    movement 1 Category.asset true 1000 700
    ∷ movement 2 Category.liability false 1000 600
    ∷ movement 3 Category.income false 0 100
    ∷ []

statement_reconciles_example :
    (let statement = build_cash_flow_statement movements in
      (statement.net_change ≡ statement.cash_closing -ℤ statement.cash_opening)
      × (statement.reconciles ≡ true))
statement_reconciles_example =
    statement_reconciles movements (inr refl, (inl refl, (inl refl, tt)))
      (unfold sum_by_ℤ ◌+ℤ◌ ◌-ℤ◌ in refl) (unfold sum_by_ℤ ◌+ℤ◌ ◌-ℤ◌ in refl)
