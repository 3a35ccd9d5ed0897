-- ===== src/Ledger/Reports/Equation.antt =====
-- The balance sheet and the income statement against the accounting equation.
use nexus_efos.Common.{
  ℕ, ◌≡◌, ◌↔◌, refl, sym, ap, ◌∙◌, Bool, true, List, [], ◌∷◌, filter, arith, if◌then◌else◌,
  Bool-cases, inl, inr, sum_by, sum_by_ℤ, sum_by_ℤ-nil, sum_by_ℤ-cons, sum_by_ℤ-map,
  sum_by_ℤ-filter, sum_by_ℤ-congr, sum_by_ℤ-add, sum_by_ℤ-pos, ◌||◌,
}
use nexus_efos.Common.Int.{
  ℤ, pos, ◌+ℤ◌, ◌-ℤ◌, pos_part, neg_part, zero-+ℤ, abs_lt_one_iff, int_laws,
}
use nexus_efos.Common.Rounding.{round2_ℤ-one}
use nexus_efos.Ledger.{Category, JournalLine, balance_effect, accounts_involved}
use nexus_efos.Ledger.Totals.{IsJoined, IsAdditive, weigh_line, sum-rows, sum-values}
use nexus_efos.Ledger.Reports.{
  same_category, by_category, is_income_or_expense, sum_of_values, balance_sheet, income_statement,
}

abbrev pub of_category : Category → Category → ℤ → ℤ
of_category k c v = if same_category c k then v else pos 0

of_category-IsAdditive : (k : Category) → IsAdditive (of_category k)
of_category-IsAdditive k = record { at_zero = vanish; at_sum = split }
  where
    vanish : (c : Category) → of_category k c (pos 0) ≡ pos 0
    vanish c = elim (Bool-cases (same_category c k)) [ inl e ↦ rw e refl | inr e ↦ rw e refl ]

    split :
        (c : Category) (a b : ℤ) → of_category k c (a +ℤ b) ≡ of_category k c a +ℤ of_category k c b
    split c a b = elim (Bool-cases (same_category c k)) [
      | inl e ↦ rw e refl
      | inr e ↦ rw e (sym (zero-+ℤ _))
    ]

-- What the lines of one category add up to.
abbrev pub movement : Category → List JournalLine → ℤ
movement k lines = sum_by_ℤ (weigh_line (of_category k)) lines

pub by_category-movement :
    (chart : ℕ → Category) (lines : List JournalLine) (k : Category)
    → IsJoined chart lines
    → sum_by_ℤ (λ a. a.1) (by_category lines k) ≡ movement k lines
unfolding by_category
by_category-movement chart lines k j =
    sum_by_ℤ-map (λ a. a.1) _ (filter (λ a. same_category a.1 k) (accounts_involved lines))
    ∙ sum_by_ℤ-filter _ (λ a. same_category a.1 k) (accounts_involved lines)
    ∙ sum-rows (of_category k) (of_category-IsAdditive k) chart lines j

-- One line moves debit-side categories against credit-side ones by its debit less its credit.
line_equation :
    (c : Category) (d r : ℕ)
    → let f = λ (k : Category). of_category k c (balance_effect c d r) in
      f Category.asset +ℤ f Category.expense +ℤ pos r
      ≡ f Category.liability +ℤ f Category.equity +ℤ f Category.income +ℤ pos d
unfolding balance_effect
line_equation Category.asset d r = rw round2_ℤ-one (omega int_laws)
line_equation Category.liability d r = rw round2_ℤ-one (omega int_laws)
line_equation Category.equity d r = rw round2_ℤ-one (omega int_laws)
line_equation Category.income d r = rw round2_ℤ-one (omega int_laws)
line_equation Category.expense d r = rw round2_ℤ-one (omega int_laws)

add_equations :
    (a x c l e i d a' x' c' l' e' i' d' : ℤ)
    → a +ℤ x +ℤ c ≡ l +ℤ e +ℤ i +ℤ d
    → a' +ℤ x' +ℤ c' ≡ l' +ℤ e' +ℤ i' +ℤ d'
    → (a +ℤ a') +ℤ (x +ℤ x') +ℤ (c +ℤ c') ≡ (l +ℤ l') +ℤ (e +ℤ e') +ℤ (i +ℤ i') +ℤ (d +ℤ d')
add_equations a x c l e i d a' x' c' l' e' i' d' h h' =
    omega (int_laws, ap pos_part h, ap neg_part h, ap pos_part h', ap neg_part h')

movements :
    (lines : List JournalLine)
    → movement Category.asset lines
        +ℤ movement Category.expense lines
        +ℤ sum_by_ℤ (λ l. pos l.credit) lines
      ≡ movement Category.liability lines
        +ℤ movement Category.equity lines
        +ℤ movement Category.income lines
        +ℤ sum_by_ℤ (λ l. pos l.debit) lines
movements [] = simp sum_by_ℤ-nil (omega int_laws)
movements (l ∷ lines) = simp sum_by_ℤ-cons (
    add_equations _ _ _ _ _ _ _ _ _ _ _ _ _ _ (line_equation l.category l.debit l.credit)
      (movements lines))

IsJoined-filter :
    (chart : ℕ → Category) (p : JournalLine → Bool) (lines : List JournalLine)
    → IsJoined chart lines
    → IsJoined chart (filter p lines)
IsJoined-filter chart p [] j = tt
IsJoined-filter chart p (l ∷ lines) (e, j) = ground (arith, IsJoined-filter chart p lines j)

effect : JournalLine → ℤ
effect l = balance_effect l.category l.debit l.credit

income_or_expense_split :
    (c : Category) (v : ℤ)
    → (if same_category c Category.income || same_category c Category.expense then v else pos 0)
      ≡ of_category Category.income c v +ℤ of_category Category.expense c v
income_or_expense_split Category.asset v = sym (zero-+ℤ _)
income_or_expense_split Category.liability v = sym (zero-+ℤ _)
income_or_expense_split Category.equity v = sym (zero-+ℤ _)
income_or_expense_split Category.income v = omega int_laws
income_or_expense_split Category.expense v = sym (zero-+ℤ _)

-- What the sheet calls net income adds the expenses to the income.
net_income-movement :
    (chart : ℕ → Category) (lines : List JournalLine)
    → IsJoined chart lines
    → sum_of_values (filter is_income_or_expense lines)
      ≡ movement Category.income lines +ℤ movement Category.expense lines
net_income-movement chart lines j =
    sum-values chart (filter is_income_or_expense lines)
      (IsJoined-filter chart is_income_or_expense lines j)
    ∙ sum_by_ℤ-filter (λ l. balance_effect l.category l.debit l.credit) is_income_or_expense lines
    ∙ sum_by_ℤ-congr _ _ lines
        (λ l. income_or_expense_split l.category (balance_effect l.category l.debit l.credit))
    ∙ sum_by_ℤ-add (weigh_line (of_category Category.income))
        (weigh_line (of_category Category.expense)) lines

pos_sums :
    (lines : List JournalLine)
    → sum_by (λ l. l.debit) lines ≡ sum_by (λ l. l.credit) lines
    → sum_by_ℤ (λ l. pos l.debit) lines ≡ sum_by_ℤ (λ l. pos l.credit) lines
pos_sums lines h =
    sym (sum_by_ℤ-pos (λ l. l.debit) lines) ∙ ap pos h ∙ sum_by_ℤ-pos (λ l. l.credit) lines

double_gap :
    (a l e i x c d : ℤ)
    → a +ℤ x +ℤ c ≡ l +ℤ e +ℤ i +ℤ d
    → d ≡ c
    → a +ℤ x +ℤ x ≡ l +ℤ (e +ℤ (i +ℤ x))
double_gap a l e i x c d h k =
    omega (int_laws, ap pos_part h, ap neg_part h, ap pos_part k, ap neg_part k)

no_gap_iff : (a r x : ℤ) → a +ℤ x +ℤ x ≡ r → (a ≡ r) ↔ (x ≡ pos 0)
no_gap_iff a r x h = (
  λ k. omega (int_laws, ap pos_part h, ap neg_part h, ap pos_part k, ap neg_part k),
  λ k. omega (int_laws, ap pos_part h, ap neg_part h, ap pos_part k, ap neg_part k),
)

sheet_gap :
    (chart : ℕ → Category) (lines : List JournalLine)
    → IsJoined chart lines
    → sum_by (λ l. l.debit) lines ≡ sum_by (λ l. l.credit) lines
    → let s = balance_sheet lines in
      let expenses = sum_by_ℤ (λ a. a.1) (by_category lines Category.expense) in
      s.total_assets +ℤ expenses +ℤ expenses ≡ s.total_liabilities +ℤ s.total_equity
unfolding balance_sheet
sheet_gap chart lines j h =
    let found = λ (k : Category). by_category-movement chart lines k j in
    rw
      (
        found Category.asset,
        found Category.expense,
        found Category.liability,
        found Category.equity,
        net_income-movement chart lines j,
      )
      (double_gap _ _ _ _ _ _ _ (movements lines) (pos_sums lines h))

-- When debits equal credits, the sheet's assets fall short of its liabilities and equity by twice
-- the expenses, which it adds to the net income instead of subtracting them; so the sheet says
-- "balanced" exactly when the total of the expense accounts is zero.
pub balance_sheet_gap :
    (chart : ℕ → Category) (lines : List JournalLine)
    → IsJoined chart lines
    → sum_by (λ l. l.debit) lines ≡ sum_by (λ l. l.credit) lines
    → let s = balance_sheet lines in
      let expenses = sum_by_ℤ (λ a. a.1) (by_category lines Category.expense) in
      (s.total_assets +ℤ expenses +ℤ expenses ≡ s.total_liabilities +ℤ s.total_equity)
      × ((s.balanced ≡ true) ↔ (expenses ≡ pos 0))
unfolding balance_sheet
balance_sheet_gap chart lines j h =
    let a = sum_by_ℤ (λ r. r.1) (by_category lines Category.asset) in
    let right = (balance_sheet lines).total_liabilities +ℤ (balance_sheet lines).total_equity in
    let gap = sheet_gap chart lines j h in
    let near = abs_lt_one_iff a right in
    let none = no_gap_iff a right _ gap in (gap, (λ b. none.0 (near.0 b), λ e. near.1 (none.1 e)))

net_line :
    (c : Category) (d r : ℕ)
    → (same_category c Category.income || same_category c Category.expense) ≡ true
    → of_category Category.income c (balance_effect c d r)
        -ℤ of_category Category.expense c (balance_effect c d r)
      ≡ pos r -ℤ pos d
unfolding balance_effect
net_line Category.asset d r h = cc
net_line Category.liability d r h = cc
net_line Category.equity d r h = cc
net_line Category.income d r h = rw round2_ℤ-one (omega int_laws)
net_line Category.expense d r h = rw round2_ℤ-one (omega int_laws)

add_differences :
    (a x y a' x' y' : ℤ) → a -ℤ x ≡ y → a' -ℤ x' ≡ y' → (a +ℤ a') -ℤ (x +ℤ x') ≡ y +ℤ y'
add_differences a x y a' x' y' h h' =
    omega (int_laws, ap pos_part h, ap neg_part h, ap pos_part h', ap neg_part h')

net_lines :
    (lines : List JournalLine)
    → let ie = filter is_income_or_expense lines in
      movement Category.income ie -ℤ movement Category.expense ie
      ≡ sum_by_ℤ (λ l. pos l.credit -ℤ pos l.debit) ie
net_lines [] = simp sum_by_ℤ-nil (omega int_laws)
net_lines (l ∷ lines) = elim (Bool-cases (is_income_or_expense l)) [
  | inl kept ↦ rw kept (
      simp sum_by_ℤ-cons
        (add_differences _ _ _ _ _ _ (net_line l.category l.debit l.credit kept) (net_lines lines)))
  | inr dropped ↦ rw dropped (net_lines lines)
]

-- The income statement's net income is what the income and expense lines credit, less what they
-- debit.
pub income_statement_net :
    (chart : ℕ → Category) (lines : List JournalLine)
    → IsJoined chart lines
    → (income_statement lines).net_income
      ≡ sum_by_ℤ (λ l. pos l.credit -ℤ pos l.debit) (filter is_income_or_expense lines)
unfolding income_statement
income_statement_net chart lines j =
    let ie = filter is_income_or_expense lines in
    let found = λ (k : Category).
      by_category-movement chart ie k (IsJoined-filter chart is_income_or_expense lines j) in
    rw (found Category.income, found Category.expense) (net_lines lines)
