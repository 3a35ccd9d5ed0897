-- ===== src/Ledger/Totals.antt =====
-- What a total over the accounts of a report adds up to, line by line.
use nexus_efos.Common.{
  ℕ, ◌≡◌, refl, sym, ap, ◌∙◌, List, [], ◌∷◌, arith, sum_by_ℤ, sum_by_ℤ-nil, sum_by_ℤ-cons,
}
use nexus_efos.Common.Int.{ℤ, pos, ◌+ℤ◌, int_laws, zero-+ℤ, +ℤ-zero, +ℤ_assoc}
use nexus_efos.Common.Rounding.{round2_ℤ, round2_ℤ-one}
use nexus_efos.Common.Table.{Table, get_or, set, IsFresh, IsNodup, IsNodup-set}
use nexus_efos.Ledger.{
  Category, JournalLine, balance_effect, aggregate_line, aggregate_from, aggregate_balances_as_of,
  involve, accounts_involved,
}

-- The lines were joined with one chart of accounts: the category is the account's.
abbrev pub IsJoined : (ℕ → Category) → List JournalLine → Type 0
IsJoined chart [] = Unit
IsJoined chart (l ∷ lines) = (l.category ≡ chart l.account_id) × IsJoined chart lines

-- The two maps of a report list the same accounts in the same order.
abbrev Aligned : (ℕ → Category) → Table Category → Table ℤ → Type 0
Aligned chart [] [] = Unit
Aligned chart ((k, c) ∷ a) ((j, v) ∷ b) = (k ≡ j) × (c ≡ chart k) × Aligned chart a b
Aligned chart _ _ = ⊥

Aligned-set :
    (chart : ℕ → Category) (k : ℕ) (c : Category) (x : ℤ) (a : Table Category) (b : Table ℤ)
    → Aligned chart a b
    → c ≡ chart k
    → Aligned chart (set k c a) (set k x b)
Aligned-set chart k c x [] [] h e = (refl, e, tt)
Aligned-set chart k c x [] (b ∷ bs) h e = absurd h
Aligned-set chart k c x (a ∷ rest) [] h e = absurd h
Aligned-set chart k c x ((i, c') ∷ a) ((j, v) ∷ b) h e =
    ground (arith, Aligned-set chart k c x a b h.2 e)

-- A weight that is additive on balances: the figure that a report draws from each account.
pub record IsAdditive (w : Category → ℤ → ℤ) : Type 0 where
  pub at_zero : (c : Category) → w c (pos 0) ≡ pos 0
  pub at_sum : (c : Category) (a b : ℤ) → w c (a +ℤ b) ≡ w c a +ℤ w c b

abbrev pub weigh_line : (Category → ℤ → ℤ) → JournalLine → ℤ
weigh_line w l = w l.category (balance_effect l.category l.debit l.credit)

-- The figure of one row of a report: the account's category weighs its aggregated balance.
abbrev pub weigh_row : (Category → ℤ → ℤ) → Table ℤ → ℕ × Category → ℤ
weigh_row w balances row = w row.1 (get_or row.0 (pos 0) balances)

cancel : (t' o t x : ℤ) → t' +ℤ o ≡ t +ℤ (o +ℤ x) → t' ≡ t +ℤ x
cancel t' o t x h = grind int_laws

module _ (w : Category → ℤ → ℤ) (additive : IsAdditive w) (chart : ℕ → Category) where
  open additive use {at_zero, at_sum}

  total : Table ℤ → ℤ
  total [] = pos 0
  total ((k, v) ∷ t) = w (chart k) v +ℤ total t

  total-set :
      (k : ℕ) (x : ℤ) (t : Table ℤ)
      → total (set k x t) +ℤ w (chart k) (get_or k (pos 0) t) ≡ total t +ℤ w (chart k) x
  unfolding total
  total-set k x [] = rw (at_zero (chart k)) (omega int_laws)
  total-set k x ((j, v) ∷ t) = grind (int_laws, total-set k x t)

  -- Aggregating one more line adds that line's weight to the total.
  total-aggregate_line :
      (t : Table ℤ) (l : JournalLine)
      → l.category ≡ chart l.account_id
      → total (aggregate_line t l) ≡ total t +ℤ weigh_line w l
  total-aggregate_line t l e =
      let k = l.account_id in
      let old = get_or k (pos 0) t in
      let effect = balance_effect l.category l.debit l.credit in
      let weighed : w (chart k) (round2_ℤ (old +ℤ effect) 1)
          ≡ w (chart k) old +ℤ w l.category effect =
        rw (round2_ℤ-one, e) (at_sum (chart k) old _) in
      cancel _ (w (chart k) old) _ _
        (total-set k (round2_ℤ (old +ℤ effect) 1) t ∙ ap (λ z. total t +ℤ z) weighed)

  total-aggregate_from :
      (t : Table ℤ) (lines : List JournalLine)
      → IsJoined chart lines
      → total (aggregate_from t lines) ≡ total t +ℤ sum_by_ℤ (weigh_line w) lines
  total-aggregate_from t [] h = rw sum_by_ℤ-nil (sym (+ℤ-zero _))
  total-aggregate_from t (l ∷ lines) (e, h) =
      total-aggregate_from (aggregate_line t l) lines h
      ∙ rw (sum_by_ℤ-cons, total-aggregate_line t l e) (+ℤ_assoc _ _ _)

  -- Every entry of the suffix `b` is found under its key in `balances`.
  abbrev Finds : Table ℤ → Table ℤ → Type 0
  Finds balances [] = Unit
  Finds balances ((k, v) ∷ b) = (get_or k (pos 0) balances ≡ v) × Finds balances b

  Finds-cons :
      (k : ℕ) (v : ℤ) (balances b : Table ℤ)
      → IsFresh k b
      → Finds balances b
      → Finds ((k, v) ∷ balances) b
  Finds-cons k v balances [] f h = tt
  Finds-cons k v balances ((j, u) ∷ b) (ne, f) (e, h) =
      ground (arith, Finds-cons k v balances b f h)

  Finds-self : (b : Table ℤ) → IsNodup b → Finds b b
  Finds-self [] n = tt
  Finds-self ((k, v) ∷ b) (f, n) = (ground arith, Finds-cons k v b b f (Finds-self b n))

  rows-total :
      (balances : Table ℤ) (a : Table Category) (b : Table ℤ)
      → Aligned chart a b
      → Finds balances b
      → sum_by_ℤ (weigh_row w balances) a ≡ total b
  unfolding total
  rows-total balances [] [] h f = sum_by_ℤ-nil _
  rows-total balances [] (b ∷ bs) h f = absurd h
  rows-total balances (a ∷ rest) [] h f = absurd h
  rows-total balances ((k, c) ∷ a) ((j, v) ∷ b) (e, ec, h) (found, f) =
      sum_by_ℤ-cons _ (k, c) a ∙ rw (rows-total balances a b h f, ec, e, found)

  Aligned-involve :
      (a : Table Category) (b : Table ℤ) (lines : List JournalLine)
      → IsJoined chart lines
      → Aligned chart a b
      → Aligned chart (involve a lines) (aggregate_from b lines)
  Aligned-involve a b [] j h = h
  Aligned-involve a b (l ∷ lines) (e, j) h =
      Aligned-involve (set l.account_id l.category a) (aggregate_line b l) lines j
        (Aligned-set chart l.account_id l.category _ a b h e)

  IsNodup-aggregate :
      (b : Table ℤ) (lines : List JournalLine) → IsNodup b → IsNodup (aggregate_from b lines)
  IsNodup-aggregate b [] n = n
  IsNodup-aggregate b (l ∷ lines) n =
      IsNodup-aggregate (aggregate_line b l) lines (IsNodup-set l.account_id _ b n)

  -- A report's total over the accounts involved is the sum over the posted lines.
  pub sum-rows :
      (lines : List JournalLine)
      → IsJoined chart lines
      → sum_by_ℤ (weigh_row w (aggregate_balances_as_of lines)) (accounts_involved lines)
        ≡ sum_by_ℤ (weigh_line w) lines
  unfolding aggregate_balances_as_of accounts_involved total
  sum-rows lines j =
      let b = aggregate_from [] lines in
      rows-total b _ b (Aligned-involve [] [] lines j tt)
        (Finds-self b (IsNodup-aggregate [] lines tt))
      ∙ total-aggregate_from [] lines j
      ∙ zero-+ℤ _

-- The plain sum of the aggregated balances is the sum of the effects of the lines.
abbrev plain : Category → ℤ → ℤ
plain c v = v

plain-IsAdditive : IsAdditive plain
plain-IsAdditive = record { at_zero = λ c. refl; at_sum = λ c a b. refl }

plain-total :
    (chart : ℕ → Category) (t : Table ℤ)
    → total plain plain-IsAdditive chart t ≡ sum_by_ℤ (λ e. e.1) t
unfolding total
plain-total chart [] = sym (sum_by_ℤ-nil _)
plain-total chart ((k, v) ∷ t) =
    ap (λ z. v +ℤ z) (plain-total chart t) ∙ sym (sum_by_ℤ-cons (λ e. e.1) (k, v) t)

pub sum-values :
    (chart : ℕ → Category) (lines : List JournalLine)
    → IsJoined chart lines
    → sum_by_ℤ (λ e. e.1) (aggregate_balances_as_of lines)
      ≡ sum_by_ℤ (λ l. balance_effect l.category l.debit l.credit) lines
unfolding aggregate_balances_as_of
sum-values chart lines j =
    sym (plain-total chart (aggregate_from [] lines))
    ∙ total-aggregate_from plain plain-IsAdditive chart [] lines j
    ∙ rw (plain-total chart [], sum_by_ℤ-nil) (zero-+ℤ _)
