-- ===== src/Ledger/Posting/Effects.antt =====
-- What posting does to the balances.
use nexus_efos.Common.{
  ℕ, ◌≡◌, refl, sym, ap, ◌∙◌, none, some, List, [], ◌∷◌, arith, ◌==◌, if◌then◌else◌, Bool-cases,
  Option-cases, inl, inr, sum_by_ℤ, sum_by_ℤ-nil, sum_by_ℤ-cons, ==_iff,
}
use nexus_efos.Common.Int.{ℤ, pos, ◌+ℤ◌, zero-+ℤ, +ℤ-zero, +ℤ_assoc}
use nexus_efos.Common.Rounding.{round2_ℤ-one}
use nexus_efos.Common.Table.{Table, get, get_or, set, get_or-set}
use nexus_efos.Ledger.{
  JournalLine, balance_effect, aggregate_line, aggregate_from, aggregate_balances_as_of,
}
use nexus_efos.Ledger.Posting.{GlAccount, increment, post_lines}

abbrev pub balance_of : ℕ → Table GlAccount → ℤ
balance_of id accounts = elim (get id accounts) [ none ↦ pos 0 | some a ↦ a.balance ]

-- What a line does to the balance of one account.
abbrev pub part_of : ℕ → JournalLine → ℤ
part_of id l = if id == l.account_id then balance_effect l.category l.debit l.credit else pos 0

-- One line moves the aggregated balance of an account by its part.
get_or-aggregate_line :
    (id : ℕ) (t : Table ℤ) (l : JournalLine)
    → get_or id (pos 0) (aggregate_line t l) ≡ get_or id (pos 0) t +ℤ part_of id l
get_or-aggregate_line id t l =
    get_or-set id l.account_id _ (pos 0) t
    ∙ rw round2_ℤ-one (elim (Bool-cases (id == l.account_id)) [
      | inl e ↦ rw e (rw ((==_iff _ _).0 e) refl)
      | inr e ↦ rw e (sym (+ℤ-zero _))
    ])

get_or-aggregate_from :
    (id : ℕ) (t : Table ℤ) (lines : List JournalLine)
    → get_or id (pos 0) (aggregate_from t lines)
      ≡ get_or id (pos 0) t +ℤ sum_by_ℤ (part_of id) lines
get_or-aggregate_from id t [] = rw sum_by_ℤ-nil (sym (+ℤ-zero _))
get_or-aggregate_from id t (l ∷ lines) =
    get_or-aggregate_from id (aggregate_line t l) lines
    ∙ rw (sum_by_ℤ-cons, get_or-aggregate_line id t l) (+ℤ_assoc _ _ _)

-- A successful increment found the account.
pub increment_inv :
    (k : ℕ) (delta : ℤ) (accounts accounts' : Table GlAccount)
    → increment k delta accounts ≡ some accounts'
    → (a : GlAccount) × (get k accounts ≡ some a)
      × (accounts' ≡ set k (record a { balance = a.balance +ℤ delta }) accounts)
unfolding increment
increment_inv k delta accounts accounts' h = elim (Option-cases (get k accounts)) [
  | inl e ↦ cc
  | inr (a, e) ↦ (a, e, ground arith)
]

balance_of-set :
    (id k : ℕ) (a : GlAccount) (accounts : Table GlAccount)
    → balance_of id (set k a accounts) ≡ (if id == k then a.balance else balance_of id accounts)
balance_of-set id k a [] = ground arith
balance_of-set id k a ((j, b) ∷ accounts) = ground (arith, balance_of-set id k a accounts)

balance_of-get :
    (k : ℕ) (a : GlAccount) (accounts : Table GlAccount)
    → get k accounts ≡ some a
    → balance_of k accounts ≡ a.balance
balance_of-get k a accounts e = ground arith

pub post_lines-nil :
    (accounts accounts' : Table GlAccount)
    → post_lines [] accounts ≡ some accounts'
    → accounts ≡ accounts'
unfolding post_lines
post_lines-nil accounts accounts' h = cc

balance_of-increment :
    (id k : ℕ) (delta : ℤ) (accounts accounts' : Table GlAccount)
    → increment k delta accounts ≡ some accounts'
    → balance_of id accounts' ≡ balance_of id accounts +ℤ (if id == k then delta else pos 0)
balance_of-increment id k delta accounts accounts' h =
    let (a, found, e) = increment_inv k delta accounts accounts' h in
    rw e (
      balance_of-set id k (record a { balance = a.balance +ℤ delta }) accounts
      ∙ elim (Bool-cases (id == k)) [
        | inl same ↦
            rw (same, (==_iff _ _).0 same)
              (ap (λ z. z +ℤ delta) (sym (balance_of-get k a accounts found)))
        | inr other ↦ rw other (sym (+ℤ-zero _))
      ])

pub post_lines_inv :
    (l : JournalLine) (lines : List JournalLine) (accounts accounts' : Table GlAccount)
    → post_lines (l ∷ lines) accounts ≡ some accounts'
    → (mid : Table GlAccount) × (increment l.account_id
          (balance_effect l.category l.debit l.credit)
          accounts
        ≡ some mid)
      × (post_lines lines mid ≡ some accounts')
unfolding post_lines
post_lines_inv l lines accounts accounts' h =
    elim (Option-cases
      (increment l.account_id (balance_effect l.category l.debit l.credit) accounts)) [
        | inl e ↦ cc
        | inr (mid, e) ↦ (mid, e, ground arith)
      ]

pub posting-part_of :
    (id : ℕ) (lines : List JournalLine) (accounts accounts' : Table GlAccount)
    → post_lines lines accounts ≡ some accounts'
    → balance_of id accounts' ≡ balance_of id accounts +ℤ sum_by_ℤ (part_of id) lines
posting-part_of id [] accounts accounts' h =
    rw (← post_lines-nil accounts accounts' h, sum_by_ℤ-nil) (sym (+ℤ-zero _))
posting-part_of id (l ∷ lines) accounts accounts' h =
    let (mid, first, rest) = post_lines_inv l lines accounts accounts' h in
    posting-part_of id lines mid accounts' rest
    ∙ rw (sum_by_ℤ-cons, balance_of-increment id l.account_id _ accounts mid first) (+ℤ_assoc _ _ _)

-- The running balance that the handlers maintain is the balance that the reports aggregate: posting
-- lines moves every account by exactly what `aggregateBalancesAsOf` says of these lines.
pub posting-refines-aggregate :
    (id : ℕ) (lines : List JournalLine) (accounts accounts' : Table GlAccount)
    → post_lines lines accounts ≡ some accounts'
    → balance_of id accounts'
      ≡ balance_of id accounts +ℤ get_or id (pos 0) (aggregate_balances_as_of lines)
unfolding aggregate_balances_as_of
posting-refines-aggregate id lines accounts accounts' h =
    posting-part_of id lines accounts accounts' h
    ∙ ap (λ z. balance_of id accounts +ℤ z) (sym (get_or-aggregate_from id [] lines ∙ zero-+ℤ _))
