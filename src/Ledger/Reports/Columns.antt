-- ===== src/Ledger/Reports/Columns.antt =====
-- The two columns of the trial balance.
use nexus_efos.Common.{
  ℕ, ◌+◌, ◌<◌, ◌≡◌, ◌↔◌, refl, sym, ap, ◌∙◌, true, List, [], ◌∷◌, map, arith, ◌&&◌, leb, &&_iff,
  if◌then◌else◌, Bool-cases, inl, inr, All, sum_by, sum_by-nil, sum_by-append, sum_by-difference,
  sum_by_ℤ-map, sum_by_ℤ-congr,
}
use nexus_efos.Common.Int.{ℤ, pos, ◌+ℤ◌, ◌-ℤ◌, pos_part, neg_part, abs_lt_one_iff, int_laws}
use nexus_efos.Common.Rounding.{round2_ℤ-one, round2-one}
use nexus_efos.Common.Table.{Table, get_or}
use nexus_efos.Ledger.{
  Category, JournalLine, is_debit_normal, balance_effect, is_balanced, aggregate_balances_as_of,
  accounts_involved, Journal, is_posted, posted_lines_up_to,
}
use nexus_efos.Ledger.Totals.{IsJoined, IsAdditive, weigh_line, weigh_row, sum-rows}
use nexus_efos.Ledger.Reports.{trial_row, trial_balance}

-- A balance counted on the debit side.
abbrev pub signed : Category → ℤ → ℤ
signed c v = if is_debit_normal c then v else pos 0 -ℤ v

pub signed-IsAdditive : IsAdditive signed
signed-IsAdditive = record { at_zero = signed_zero; at_sum = signed_sum }
  where
    signed_zero : (c : Category) → signed c (pos 0) ≡ pos 0
    signed_zero c = elim (Bool-cases (is_debit_normal c)) [
      | inl e ↦ rw e refl
      | inr e ↦ rw e (omega int_laws)
    ]

    signed_sum : (c : Category) (a b : ℤ) → signed c (a +ℤ b) ≡ signed c a +ℤ signed c b
    signed_sum c a b = elim (Bool-cases (is_debit_normal c)) [
      | inl e ↦ rw e refl
      | inr e ↦ rw e (omega int_laws)
    ]

-- On the debit side every line counts for its debit less its credit, whatever its category.
pub signed-effect : (c : Category) (d r : ℕ) → signed c (balance_effect c d r) ≡ pos d -ℤ pos r
unfolding balance_effect
signed-effect c d r = elim (Bool-cases (is_debit_normal c)) [
  | inl e ↦ rw e (round2_ℤ-one _)
  | inr e ↦ rw (e, round2_ℤ-one) (omega int_laws)
]

parts_difference : (v : ℤ) → pos (pos_part v) -ℤ pos (neg_part v) ≡ v
parts_difference v = omega int_laws

parts_difference_flipped : (v : ℤ) → pos (neg_part v) -ℤ pos (pos_part v) ≡ pos 0 -ℤ v
parts_difference_flipped v = omega int_laws

trial_row-signed :
    (balances : Table ℤ) (a : ℕ × Category)
    → pos (trial_row balances a).debit -ℤ pos (trial_row balances a).credit
      ≡ weigh_row signed balances a
unfolding trial_row
trial_row-signed balances (id, category) = elim (Bool-cases (is_debit_normal category)) [
  | inl e ↦ rw e (parts_difference (get_or id (pos 0) balances))
  | inr e ↦ rw e (parts_difference_flipped (get_or id (pos 0) balances))
]

columns :
    (chart : ℕ → Category) (lines : List JournalLine)
    → IsJoined chart lines
    → let t = trial_balance lines in
      pos t.total_debit -ℤ pos t.total_credit
      ≡ pos (sum_by (λ l. l.debit) lines) -ℤ pos (sum_by (λ l. l.credit) lines)
unfolding trial_balance
columns chart lines j =
    let balances = aggregate_balances_as_of lines in
    sum_by-difference (λ r. r.debit) (λ r. r.credit)
      (map (trial_row balances) (accounts_involved lines))
    ∙ sum_by_ℤ-map _ (trial_row balances) (accounts_involved lines)
    ∙ sum_by_ℤ-congr _ (weigh_row signed balances) (accounts_involved lines)
        (trial_row-signed balances)
    ∙ sum-rows signed signed-IsAdditive chart lines j
    ∙ sum_by_ℤ-congr (weigh_line signed) (λ l. pos l.debit -ℤ pos l.credit) lines
        (λ l. signed-effect l.category l.debit l.credit)
    ∙ sym (sum_by-difference (λ l. l.debit) (λ l. l.credit) lines)

difference_eq : (a b c d : ℕ) → pos a -ℤ pos b ≡ pos c -ℤ pos d → a + d ≡ b + c
difference_eq a b c d h = omega (int_laws, ap pos_part h, ap neg_part h)

-- Whatever lines are posted, the gap between the report's two columns is the gap between the posted
-- debits and credits, and the report says "balanced" exactly when these are equal.
pub trial_balance_gap :
    (chart : ℕ → Category) (lines : List JournalLine)
    → IsJoined chart lines
    → let t = trial_balance lines in
      let debits = sum_by (λ l. l.debit) lines in
      let credits = sum_by (λ l. l.credit) lines in
      (t.total_debit + credits ≡ t.total_credit + debits)
      × ((t.balanced ≡ true) ↔ (debits ≡ credits))
unfolding trial_balance
trial_balance_gap chart lines j =
    let gap = difference_eq _ _ _ _ (columns chart lines j) in
    let near =
      abs_lt_one_iff (pos (trial_balance lines).total_debit)
        (pos (trial_balance lines).total_credit) in
    (gap, (λ h. omega (arith, ap pos_part (near.0 h)), λ h. near.1 (ap pos (omega arith))))

-- A journal that `isBalanced` accepts has equal debits and credits, and they are positive.
pub is_balanced_lem :
    (lines : List JournalLine)
    → is_balanced lines ≡ true
    → (sum_by (λ l. l.debit) lines ≡ sum_by (λ l. l.credit) lines)
      × (0 < sum_by (λ l. l.debit) lines)
unfolding is_balanced
is_balanced_lem lines = rw (round2-one, round2-one) (λ h. ground arith)

-- Every journal that is posted passed `isBalanced`.
abbrev pub ArePosted : List Journal → Type 0
ArePosted = All (λ j. is_posted j.status ≡ true → is_balanced j.lines ≡ true)

posted-equal :
    (as_of : ℕ) (journals : List Journal)
    → ArePosted journals
    → let lines = posted_lines_up_to as_of journals in
      sum_by (λ l. l.debit) lines ≡ sum_by (λ l. l.credit) lines
posted-equal as_of [] h = simp sum_by-nil
posted-equal as_of (j ∷ journals) (hj, h) =
    let rest = posted-equal as_of journals h in
    elim (Bool-cases (is_posted j.status && leb j.posting_date as_of)) [
      | inl e ↦
          let own = is_balanced_lem j.lines (hj ((&&_iff _ _).0 e).0) in
          rw e (rw (sum_by-append, sum_by-append) (omega arith))
      | inr e ↦ rw e rest
    ]

-- If every posted journal passed `isBalanced`, the two columns of the trial balance agree at every
-- date, and the report says so.
pub trial_balance_balanced :
    (chart : ℕ → Category) (as_of : ℕ) (journals : List Journal)
    → ArePosted journals
    → IsJoined chart (posted_lines_up_to as_of journals)
    → let t = trial_balance (posted_lines_up_to as_of journals) in
      (t.total_debit ≡ t.total_credit) × (t.balanced ≡ true)
trial_balance_balanced chart as_of journals h j =
    let (gap, iff) = trial_balance_gap chart (posted_lines_up_to as_of journals) j in
    let equal = posted-equal as_of journals h in (omega arith, iff.1 equal)
