-- ===== src/Ledger/Posting/Conservation.antt =====
-- The total of all balances under posting.
use nexus_efos.Common.{
  ℕ, ◌≡◌, refl, sym, ap, ◌∙◌, Option, none, some, List, [], ◌∷◌, ◌++◌, arith, ◌==◌, Bool-cases,
  Option-cases, inl, inr, All, All-map, true, sum_by_ℤ, sum_by_ℤ-nil, sum_by_ℤ-cons,
  sum_by-difference,
}
use nexus_efos.Common.Int.{ℤ, pos, ◌+ℤ◌, ◌-ℤ◌, +ℤ-zero, +ℤ_assoc, int_laws}
use mathlib.Core.Option.{some-injective}
use nexus_efos.Common.Table.{Table, get, set}
use nexus_efos.Ledger.{Category, JournalLine, JournalStatus, balance_effect, is_balanced}
use nexus_efos.Ledger.Reports.Columns.{signed, signed-IsAdditive, signed-effect, is_balanced_lem}
use nexus_efos.Ledger.Posting.{Books, GlAccount, increment, post_automatic, post_lines}
use nexus_efos.Ledger.Posting.Effects.{increment_inv, post_lines_inv}
use nexus_efos.Ledger.Posting.Effects as Effects

abbrev pub category_of : ℕ → Table GlAccount → Option Category
category_of id accounts = elim (get id accounts) [ none ↦ none | some a ↦ some a.category ]

-- Every line was joined with an account that exists.
abbrev pub AreKnown : Table GlAccount → List JournalLine → Type 0
AreKnown accounts = All (λ l. category_of l.account_id accounts ≡ some l.category)

abbrev pub side : ℕ × GlAccount → ℤ
side e = signed e.1.category e.1.balance

-- All balances, counted on the debit side.
abbrev pub ledger_total : Table GlAccount → ℤ
ledger_total = sum_by_ℤ side

pub category_of-get :
    (id : ℕ) (a : GlAccount) (c : Category) (t : Table GlAccount)
    → get id t ≡ some a
    → category_of id t ≡ some c
    → a.category ≡ c
category_of-get id a c t found h = ground arith

pub category_of-set :
    (id k : ℕ) (a b : GlAccount) (accounts : Table GlAccount)
    → get k accounts ≡ some a
    → b.category ≡ a.category
    → category_of id (set k b accounts) ≡ category_of id accounts
category_of-set id k a b [] e h = cc
category_of-set id k a b ((j, c) ∷ accounts) e h = ground (arith, category_of-set id k a b accounts)

shuffle : (x d t : ℤ) → x +ℤ d +ℤ t ≡ x +ℤ t +ℤ d
shuffle x d t = omega int_laws

ledger_total-set :
    (k : ℕ) (a : GlAccount) (delta : ℤ) (accounts : Table GlAccount)
    → get k accounts ≡ some a
    → ledger_total (set k (record a { balance = a.balance +ℤ delta }) accounts)
      ≡ ledger_total accounts +ℤ signed a.category delta
ledger_total-set k a delta [] e = cc
ledger_total-set k a delta ((j, c) ∷ accounts) e = elim (Bool-cases (k == j)) [
  | inl same ↦
      let here : c ≡ a = some-injective _ _ (rw same at e) in
      rw same (
        sum_by_ℤ-cons side (j, record a { balance = a.balance +ℤ delta }) accounts
        ∙ rw (signed-IsAdditive.at_sum a.category a.balance delta) (
            shuffle _ _ _
            ∙ ap (λ z. z +ℤ signed a.category delta)
                (ap (λ (c' : GlAccount). signed c'.category c'.balance +ℤ ledger_total accounts)
                    (sym here)
                  ∙ sym (sum_by_ℤ-cons side (j, c) accounts))))
  | inr other ↦ rw other (
      sum_by_ℤ-cons side (j, c) _
      ∙ rw (ledger_total-set k a delta accounts (rw other at e)) (
          sym (+ℤ_assoc _ _ _)
          ∙ ap (λ z. z +ℤ signed a.category delta) (sym (sum_by_ℤ-cons side (j, c) accounts))))
]

-- A known account is found, with the line's category.
known_account :
    (k : ℕ) (c : Category) (accounts : Table GlAccount)
    → category_of k accounts ≡ some c
    → (a : GlAccount) × (get k accounts ≡ some a) × (a.category ≡ c)
known_account k c accounts h = elim (Option-cases (get k accounts)) [
  | inl e ↦ ground arith
  | inr (a, e) ↦ (a, e, ground arith)
]

increment_lem :
    (k : ℕ) (delta : ℤ) (a : GlAccount) (accounts : Table GlAccount)
    → get k accounts ≡ some a
    → increment k delta accounts ≡ some (set k (record a { balance = a.balance +ℤ delta }) accounts)
unfolding increment
increment_lem k delta a accounts e = ground arith

post_lines-nil : (accounts : Table GlAccount) → post_lines [] accounts ≡ some accounts
unfolding post_lines
post_lines-nil accounts = refl

post_lines-cons :
    (l : JournalLine) (lines : List JournalLine) (accounts mid : Table GlAccount)
    → increment l.account_id (balance_effect l.category l.debit l.credit) accounts ≡ some mid
    → post_lines (l ∷ lines) accounts ≡ post_lines lines mid
unfolding post_lines
post_lines-cons l lines accounts mid e = ground arith

-- Posting lines of known accounts succeeds, and moves the total of the books by the debits less the
-- credits.
post_lines-moves :
    (lines : List JournalLine) (accounts : Table GlAccount)
    → AreKnown accounts lines
    → (accounts' : Table GlAccount) × (post_lines lines accounts ≡ some accounts')
      × (ledger_total accounts'
          ≡ ledger_total accounts +ℤ sum_by_ℤ (λ l. pos l.debit -ℤ pos l.credit) lines)
post_lines-moves [] accounts h =
    (accounts, post_lines-nil accounts, rw sum_by_ℤ-nil (sym (+ℤ-zero _)))
post_lines-moves (l ∷ lines) accounts (known, h) =
    let k = l.account_id in
    let delta = balance_effect l.category l.debit l.credit in
    let (a, found, same) = known_account k l.category accounts known in
    let mid = set k (record a { balance = a.balance +ℤ delta }) accounts in
    let still : AreKnown mid lines =
      All-map _ _ lines
        (λ x p.
          category_of-set x.account_id k a (record a { balance = a.balance +ℤ delta }) accounts
            found refl
          ∙ p)
        h in
    let (accounts', posted, moved) = post_lines-moves lines mid still in
    (
      accounts',
      post_lines-cons l lines accounts mid (increment_lem k delta a accounts found) ∙ posted,
      moved
          ∙ rw (ledger_total-set k a delta accounts found, same, signed-effect, sum_by_ℤ-cons)
              (+ℤ_assoc _ _ _),
    )

-- Posting a journal that `isBalanced` accepted to known accounts succeeds, and leaves the total of
-- all balances, counted on the debit side, unchanged.
pub post_lines-keeps-ledger_total :
    (lines : List JournalLine) (accounts : Table GlAccount)
    → AreKnown accounts lines
    → is_balanced lines ≡ true
    → (accounts' : Table GlAccount) × (post_lines lines accounts ≡ some accounts')
      × (ledger_total accounts' ≡ ledger_total accounts)
post_lines-keeps-ledger_total lines accounts known h =
    let (accounts', posted, moved) = post_lines-moves lines accounts known in
    let (equal, _) = is_balanced_lem lines h in
    (
      accounts',
      posted,
      moved ∙ rw (← sum_by-difference (λ l. l.debit) (λ l. l.credit) lines, equal) (omega int_laws),
    )

-- A posted journal is in the books, and its lines are applied.
pub post_automatic_inv :
    (date : ℕ) (lines : List JournalLine) (books books' : Books)
    → post_automatic date lines books ≡ some books'
    → (post_lines lines books.accounts ≡ some books'.accounts)
      × (books'.journals
          ≡ books.journals
            ++ (record { status = JournalStatus.posted; posting_date = date; lines = lines }) ∷ [])
      × (books'.periods ≡ books.periods)
unfolding post_automatic
post_automatic_inv date lines books books' h =
    elim (Option-cases (post_lines lines books.accounts)) [
      | inl e ↦ cc
      | inr (a, e) ↦ (ground arith, ground arith, ground arith)
    ]

pub category_of-post_lines :
    (id : ℕ) (lines : List JournalLine) (t t' : Table GlAccount)
    → post_lines lines t ≡ some t'
    → category_of id t' ≡ category_of id t
category_of-post_lines id [] t t' h = ap (category_of id) (sym (Effects.post_lines-nil t t' h))
category_of-post_lines id (l ∷ lines) t t' h =
    let (mid, first, rest) = post_lines_inv l lines t t' h in
    let (a, found, e) = increment_inv l.account_id _ t mid first in
    category_of-post_lines id lines mid t' rest
    ∙ ap (category_of id) e
    ∙ category_of-set id l.account_id a _ t found refl
