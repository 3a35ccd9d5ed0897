-- ===== src/Savings/Subledger/Movements.antt =====
-- What deposits and withdrawals do to the accounts and to the ledger's liability.
use nexus_efos.Common.{
  ℕ, ◌≡◌, ◌≢◌, sym, ap, ◌∙◌, true, false, not, some, List, [], ◌∷◌, arith, ◌==◌, All-map, ltb,
  sum_by_ℤ, sum_by_ℤ-cons, sum_by_ℤ-nil,
}
use mathlib.Core.Option.{some-injective}
use nexus_efos.Common.Int.{ℤ, pos, ◌+ℤ◌, ◌-ℤ◌, int_laws}
use nexus_efos.Common.Rounding.{round2_ℤ-one}
use nexus_efos.Common.Table.{Table, get, set}
use nexus_efos.Common.Table.Sums.{sum_by_ℤ-set}
use nexus_efos.Common.Result.{ok, guard-eq-ok, require-eq-ok, >>=-eq-ok}
use nexus_efos.Ledger.{Category, JournalLine, balance_effect, is_balanced}
use nexus_efos.Ledger.Posting.{Books, GlAccount, post_lines, is_postable}
use nexus_efos.Ledger.Posting.Effects.{balance_of, part_of, posting-part_of}
use nexus_efos.Ledger.Posting.Conservation.{
  category_of, category_of-get, category_of-post_lines, post_automatic_inv,
}
use nexus_efos.Savings.{
  SavingsAccount, Bank, Direction, TransactionType, check_restriction, check_movement,
  check_deposit, check_withdraw, deposit, withdraw, shift, record_movement,
}
use nexus_efos.Savings.Overdraft.{commit_deposit_inv, commit_withdraw_inv}
use nexus_efos.Savings.Subledger.{savings_total, fees_total, IsMapped, has_row, AreLinked, Keeps}

abbrev line : ℕ → Category → ℕ → ℕ → JournalLine
line id c dr cr = record { account_id = id; category = c; debit = dr; credit = cr }

-- The checks found the two mapped accounts.
check_movement_inv :
    (d : Direction) (id amount today cash deposits : ℕ) (bank : Bank)
    (m : (ℕ × GlAccount) × (ℕ × GlAccount))
    → check_movement d id amount today bank ≡ ok m
    → IsMapped cash deposits bank
    → (m.0.0 ≡ cash)
      × (m.0.1.category ≡ Category.asset)
      × (m.1.0 ≡ deposits)
      × (m.1.1.category ≡ Category.liability)
unfolding check_movement
check_movement_inv d id amount today cash deposits bank m h (c, dep, asset, liability) =
    let (_, r1) = guard-eq-ok (ltb 0 amount) _ _ h in
    let (a, _, r2) = require-eq-ok (get id bank.accounts) _ _ r1 in
    let (_, r3) = guard-eq-ok (not (check_restriction id d bank.restrictions)) _ _ r2 in
    let (cash', c', r4) = require-eq-ok bank.cash_account _ _ r3 in
    let (dep', d', r5) = require-eq-ok bank.deposits_account _ _ r4 in
    let (_, r6) = guard-eq-ok (is_postable bank.books.periods today) _ _ r5 in
    let (g, fg, r7) = require-eq-ok (get cash' bank.books.accounts) _ _ r6 in
    let (g', fg', r8) = require-eq-ok (get dep' bank.books.accounts) _ _ r7 in
    let same_cash : cash' ≡ cash = some-injective _ _ (sym c' ∙ c) in
    let same_dep : dep' ≡ deposits = some-injective _ _ (sym d' ∙ dep) in
    let e : ((cash', g), (dep', g')) ≡ m = cc in
    let in_accounts = λ (i : ℕ). get i bank.books.accounts in
    (
      ap (λ x. x.0.0) (sym e) ∙ same_cash,
      ap (λ x. x.0.1.category) (sym e)
          ∙ category_of-get cash g _ bank.books.accounts (ap in_accounts (sym same_cash) ∙ fg)
              asset,
      ap (λ x. x.1.0) (sym e) ∙ same_dep,
      ap (λ x. x.1.1.category) (sym e)
          ∙ category_of-get deposits g' _ bank.books.accounts (ap in_accounts (sym same_dep) ∙ fg')
              liability,
    )

check_deposit_inv :
    (id amount today cash deposits : ℕ) (bank : Bank) (lines : List JournalLine)
    → check_deposit id amount today bank ≡ ok lines
    → IsMapped cash deposits bank
    → lines ≡ line cash Category.asset amount 0 ∷ line deposits Category.liability 0 amount ∷ []
unfolding check_deposit
check_deposit_inv id amount today cash deposits bank lines h mapped =
    let (m, found, rest) = >>=-eq-ok (check_movement Direction.credit id amount today bank) _ h in
    let (e, a, e', l) = check_movement_inv _ id amount today cash deposits bank m found mapped in
    let (_, last) = guard-eq-ok (is_balanced _) _ _ rest in cc

check_withdraw_inv :
    (id amount today cash deposits : ℕ) (bank : Bank) (lines : List JournalLine)
    → check_withdraw id amount today bank ≡ ok lines
    → IsMapped cash deposits bank
    → lines ≡ line deposits Category.liability amount 0 ∷ line cash Category.asset 0 amount ∷ []
unfolding check_withdraw
check_withdraw_inv id amount today cash deposits bank lines h mapped =
    let (m, found, rest) = >>=-eq-ok (check_movement Direction.debit id amount today bank) _ h in
    let (e, a, e', l) = check_movement_inv _ id amount today cash deposits bank m found mapped in
    let (_, last) = guard-eq-ok (is_balanced _) _ _ rest in cc

differs : (a b : ℕ) → a ≢ b → (a == b) ≡ false
differs a b h = ground arith

same : (a : ℕ) → (a == a) ≡ true
same a = ground arith

-- The liability takes the credit of a deposit and the debit of a withdrawal.
deposit_parts :
    (cash deposits amount : ℕ)
    → deposits ≢ cash
    → sum_by_ℤ
        (part_of deposits)
        (line cash Category.asset amount 0 ∷ line deposits Category.liability 0 amount ∷ [])
      ≡ pos amount
unfolding balance_effect
deposit_parts cash deposits amount h =
    rw (sum_by_ℤ-cons, sum_by_ℤ-cons, sum_by_ℤ-nil, differs deposits cash h, same deposits)
      (rw round2_ℤ-one (omega int_laws))

withdraw_parts :
    (cash deposits amount : ℕ)
    → deposits ≢ cash
    → sum_by_ℤ
        (part_of deposits)
        (line deposits Category.liability amount 0 ∷ line cash Category.asset 0 amount ∷ [])
      ≡ pos 0 -ℤ pos amount
unfolding balance_effect
withdraw_parts cash deposits amount h =
    rw (sum_by_ℤ-cons, sum_by_ℤ-cons, sum_by_ℤ-nil, differs deposits cash h, same deposits)
      (rw round2_ℤ-one (omega int_laws))

mapped-differ : (cash deposits : ℕ) (bank : Bank) → IsMapped cash deposits bank → deposits ≢ cash
mapped-differ cash deposits bank (c, d, asset, liability) e = asset_liability (
    some-injective _ _
      (sym asset ∙ ap (λ i. category_of i bank.books.accounts) (sym e) ∙ liability))
  where
    asset_liability : Category.asset ≢ Category.liability
    asset_liability p = cc

pub has_row-set :
    (j id : ℕ) (b : SavingsAccount) (t : Table SavingsAccount)
    → has_row j t ≡ true
    → has_row j (set id b t) ≡ true
has_row-set j id b [] h = cc
has_row-set j id b ((i, a) ∷ t) h = ground (arith, has_row-set j id b t)

pub AreLinked-set :
    (id : ℕ) (b : SavingsAccount) (bank : Bank)
    → AreLinked bank
    → AreLinked (record bank { accounts = set id b bank.accounts })
AreLinked-set id b bank h =
    All-map _ _ bank.charges (λ x p. has_row-set x.1.account_id id b bank.accounts p) h

balanced_gap :
    (l s f l' s' d b : ℤ) → l' ≡ l +ℤ d → s' +ℤ b ≡ s +ℤ (b +ℤ d) → l' -ℤ (s' +ℤ f) ≡ l -ℤ (s +ℤ f)
balanced_gap l s f l' s' d b e e' = grind int_laws

-- What moves an account and the liability by the same amount keeps the gap.
movement-Keeps :
    (type : TransactionType) (id cash deposits today : ℕ) (recorded delta : ℤ) (a : SavingsAccount)
    (lines : List JournalLine) (books : Books) (bank : Bank)
    → get id bank.accounts ≡ some a
    → post_lines lines bank.books.accounts ≡ some books.accounts
    → sum_by_ℤ (part_of deposits) lines ≡ delta
    → IsMapped cash deposits bank
    → AreLinked bank
    → Keeps cash deposits bank (record_movement type id recorded (shift delta a) books bank)
movement-Keeps type id cash deposits today recorded delta a lines books bank found posted parts
      (c, d, asset, liability) linked =
    record {
      mapped = (
        c,
        d,
        category_of-post_lines cash lines bank.books.accounts books.accounts posted ∙ asset,
        category_of-post_lines deposits lines bank.books.accounts books.accounts posted ∙ liability,
      );
      linked = AreLinked-set id (shift delta a) bank linked;
      same_gap =
          balanced_gap (balance_of deposits bank.books.accounts) (savings_total bank.accounts)
            (fees_total bank.charges) _ _ delta a.balance
            (posting-part_of deposits lines bank.books.accounts books.accounts posted
              ∙ ap (λ z. balance_of deposits bank.books.accounts +ℤ z) parts)
            (sum_by_ℤ-set (λ (x : SavingsAccount). x.balance) id a (shift delta a) bank.accounts
              found);
    }

pub deposit-Keeps :
    (id amount today cash deposits : ℕ) (bank bank' : Bank)
    → deposit id amount today bank ≡ ok bank'
    → IsMapped cash deposits bank
    → AreLinked bank
    → Keeps cash deposits bank bank'
unfolding deposit
deposit-Keeps id amount today cash deposits bank bank' h mapped linked =
    let (lines, checked, done) = >>=-eq-ok (check_deposit id amount today bank) _ h in
    let (a, found, books, posted, e) = commit_deposit_inv id amount today lines bank bank' done in
    let exact = check_deposit_inv id amount today cash deposits bank lines checked mapped in
    rw e (
      movement-Keeps TransactionType.deposited id cash deposits today (pos amount) (pos amount) a
        lines books bank found (post_automatic_inv today lines bank.books books posted).0
        (ap (sum_by_ℤ (part_of deposits)) exact
          ∙ deposit_parts cash deposits amount (mapped-differ cash deposits bank mapped))
        mapped linked)

pub withdraw-Keeps :
    (id amount today cash deposits : ℕ) (bank bank' : Bank)
    → withdraw id amount today bank ≡ ok bank'
    → IsMapped cash deposits bank
    → AreLinked bank
    → Keeps cash deposits bank bank'
unfolding withdraw
withdraw-Keeps id amount today cash deposits bank bank' h mapped linked =
    let (lines, checked, done) = >>=-eq-ok (check_withdraw id amount today bank) _ h in
    let (a, found, enough, books, posted, e) =
      commit_withdraw_inv id amount today lines bank bank' done in
    let exact = check_withdraw_inv id amount today cash deposits bank lines checked mapped in
    rw e (
      movement-Keeps TransactionType.withdrawn id cash deposits today (pos amount)
        (pos 0 -ℤ pos amount) a lines books bank found
        (post_automatic_inv today lines bank.books books posted).0
        (ap (sum_by_ℤ (part_of deposits)) exact
          ∙ withdraw_parts cash deposits amount (mapped-differ cash deposits bank mapped))
        mapped linked)
