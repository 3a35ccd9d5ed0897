-- ===== src/Savings/Subledger/Charges.antt =====
-- Closing, reactivating, fees and waivers: no journal is posted.
use nexus_efos.Common.{
  ℕ, ◌≡◌, refl, sym, ap, ◌∙◌, true, none, some, [], ◌∷◌, arith, ◌==◌, Option-cases, inl, inr,
  sum_by_ℤ-cons,
}
use nexus_efos.Common.Int.{ℤ, pos, ◌+ℤ◌, ◌-ℤ◌, abs, int_laws}
use nexus_efos.Common.Table.{Table, get, set}
use nexus_efos.Common.Table.Sums.{sum_by_ℤ-set, All-get, All-set}
use nexus_efos.Common.Result.{ok, guard-eq-ok, require-eq-ok, ok-injective}
use nexus_efos.Ledger.Posting.Effects.{balance_of}
use nexus_efos.Savings.{
  SavingsAccount, AccountStatus, FeeCharge, ChargeStatus, Bank, TransactionType, close, reactivate,
  record_movement,
}
use nexus_efos.Savings.Fees.{
  fee_amount, with_balance, get_active, charge_fee, waive_fee, reverse_fee, is_applied,
}
use nexus_efos.Savings.Subledger.{
  savings_total, fees_total, unwaived, IsMapped, has_row, AreLinked, Keeps,
}
use nexus_efos.Savings.Subledger.Movements.{AreLinked-set, has_row-set}

has_row-get :
    (id : ℕ) (a : SavingsAccount) (t : Table SavingsAccount)
    → get id t ≡ some a
    → has_row id t ≡ true
has_row-get id a [] h = cc
has_row-get id a ((j, b) ∷ t) h = ground (arith, has_row-get id a t)

get-has_row :
    (id : ℕ) (t : Table SavingsAccount)
    → has_row id t ≡ true
    → (a : SavingsAccount) × (get id t ≡ some a)
get-has_row id t h = elim (Option-cases (get id t)) [
  | inl e ↦ absurd (missing t h e)
  | inr found ↦ found
]
  where
    missing : (t : Table SavingsAccount) → has_row id t ≡ true → get id t ≡ none → ⊥
    missing [] h e = cc
    missing ((j, b) ∷ t) h e = ground (arith, missing t)

-- A row of the accounts and the charges change so that their two totals make up for each other.
offset_gap :
    (l s f s' f' x y u v : ℤ)
    → s' +ℤ x ≡ s +ℤ y
    → f' +ℤ u ≡ f +ℤ v
    → x +ℤ u ≡ y +ℤ v
    → l -ℤ (s' +ℤ f') ≡ l -ℤ (s +ℤ f)
offset_gap l s f s' f' x y u v e g h = grind int_laws

status-Keeps :
    (id cash deposits : ℕ) (a b : SavingsAccount) (bank : Bank)
    → get id bank.accounts ≡ some a
    → b.balance ≡ a.balance
    → IsMapped cash deposits bank
    → AreLinked bank
    → Keeps cash deposits bank (record bank { accounts = set id b bank.accounts })
status-Keeps id cash deposits a b bank found e mapped linked = record {
  mapped = mapped;
  linked = AreLinked-set id b bank linked;
  same_gap =
      offset_gap (balance_of deposits bank.books.accounts) (savings_total bank.accounts)
        (fees_total bank.charges) _ _ a.balance b.balance (pos 0) (pos 0)
        (sum_by_ℤ-set (λ (x : SavingsAccount). x.balance) id a b bank.accounts found) refl
        (ap (λ z. z +ℤ pos 0) (sym e));
}

pub close-Keeps :
    (id cash deposits : ℕ) (bank bank' : Bank)
    → close id bank ≡ ok bank'
    → IsMapped cash deposits bank
    → AreLinked bank
    → Keeps cash deposits bank bank'
unfolding close
close-Keeps id cash deposits bank bank' h mapped linked =
    let (a, found, rest) = require-eq-ok (get id bank.accounts) _ _ h in
    let (_, last) = guard-eq-ok (abs a.balance == 0) _ _ rest in
    let e : bank' ≡ record bank {
      accounts = set id (record a { status = AccountStatus.closed }) bank.accounts;
    } =
      cc in
    rw e (
      status-Keeps id cash deposits a (record a { status = AccountStatus.closed }) bank found refl
        mapped linked)

pub reactivate-Keeps :
    (id cash deposits : ℕ) (bank bank' : Bank)
    → reactivate id bank ≡ ok bank'
    → IsMapped cash deposits bank
    → AreLinked bank
    → Keeps cash deposits bank bank'
unfolding reactivate
reactivate-Keeps id cash deposits bank bank' h mapped linked =
    let (a, found, rest) = require-eq-ok (get id bank.accounts) _ _ h in
    let e : bank' ≡ record bank {
      accounts = set id (record a { status = AccountStatus.active }) bank.accounts;
    } =
      cc in
    rw e (
      status-Keeps id cash deposits a (record a { status = AccountStatus.active }) bank found refl
        mapped linked)

charge_offset : (b m : ℤ) → b +ℤ pos 0 ≡ (b -ℤ m) +ℤ m
charge_offset b m = omega int_laws

at_end : (t : ℤ) (m : ℤ) → m +ℤ t +ℤ pos 0 ≡ t +ℤ m
at_end t m = omega int_laws

pub charge_fee-Keeps :
    (charge_id id fee_type_id cash deposits : ℕ) (bank bank' : Bank)
    → charge_fee charge_id id fee_type_id bank ≡ ok bank'
    → IsMapped cash deposits bank
    → AreLinked bank
    → Keeps cash deposits bank bank'
unfolding charge_fee
charge_fee-Keeps charge_id id fee_type_id cash deposits bank bank' h mapped linked =
    let (a, found, rest) = require-eq-ok (get id bank.accounts) _ _ h in
    let (t, active, last) = require-eq-ok (get_active fee_type_id bank.fee_types) _ _ rest in
    let amount = fee_amount t a.balance in
    let updated = with_balance (a.balance -ℤ amount) a in
    let moved = record_movement TransactionType.fee id amount updated bank.books bank in
    let charge : FeeCharge = record {
      account_id = id;
      amount = amount;
      status = ChargeStatus.applied;
    } in
    let e : bank' ≡ record moved { charges = (charge_id, charge) ∷ bank.charges } =
      sym (ok-injective last) in
    let linked' = AreLinked-set id updated bank linked in
    rw e (record {
      mapped = mapped;
      linked =
          (has_row-set id id updated bank.accounts (has_row-get id a bank.accounts found), linked');
      same_gap =
          offset_gap (balance_of deposits bank.books.accounts) (savings_total bank.accounts)
            (fees_total bank.charges) _ _ a.balance updated.balance (pos 0) amount
            (sum_by_ℤ-set (λ (x : SavingsAccount). x.balance) id a updated bank.accounts found)
            (ap (λ z. z +ℤ pos 0) (sum_by_ℤ-cons _ (charge_id, charge) bank.charges) ∙ at_end _ _)
            (charge_offset a.balance amount);
    })

give_back : (b m : ℤ) → b +ℤ m ≡ (b +ℤ m) +ℤ pos 0
give_back b m = omega int_laws

unwaived-applied : (c : FeeCharge) → is_applied c.status ≡ true → unwaived c ≡ c.amount
unwaived-applied c h = rw h refl

-- Where the account is found, waiving gives the charge back to it.
reverse_fee_lem :
    (c : FeeCharge) (a : SavingsAccount) (bank : Bank)
    → get c.account_id bank.accounts ≡ some a
    → reverse_fee c bank
      ≡ record_movement TransactionType.fee_reversal c.account_id c.amount
          (with_balance (a.balance +ℤ c.amount) a)
          bank.books
          bank
unfolding reverse_fee
reverse_fee_lem c a bank found = rw (reverse_fee, found) refl

pub waive_fee-Keeps :
    (charge_id cash deposits : ℕ) (bank bank' : Bank)
    → waive_fee charge_id bank ≡ ok bank'
    → IsMapped cash deposits bank
    → AreLinked bank
    → Keeps cash deposits bank bank'
unfolding waive_fee
waive_fee-Keeps charge_id cash deposits bank bank' h mapped linked =
    let (c, found, rest) = require-eq-ok (get charge_id bank.charges) _ _ h in
    let (still_applied, last) = guard-eq-ok (is_applied c.status) _ _ rest in
    let has =
      All-get (λ (x : FeeCharge). has_row x.account_id bank.accounts ≡ true) charge_id c
        bank.charges found linked in
    let (a, owner) = get-has_row c.account_id bank.accounts has in
    let updated = with_balance (a.balance +ℤ c.amount) a in
    let waived = record c { status = ChargeStatus.waived } in
    let e : bank' ≡ record (reverse_fee c bank) { charges = set charge_id waived bank.charges } =
      sym (ok-injective last) in
    let linked' = AreLinked-set c.account_id updated bank linked in
    rw (e, reverse_fee_lem c a bank owner)
      (record {
        mapped = mapped;
        linked =
            All-set
              (λ (x : FeeCharge).
                has_row x.account_id (set c.account_id updated bank.accounts) ≡ true)
              charge_id waived bank.charges
              (has_row-set c.account_id c.account_id updated bank.accounts has) linked';
        same_gap =
            offset_gap (balance_of deposits bank.books.accounts) (savings_total bank.accounts)
              (fees_total bank.charges) _ _ a.balance updated.balance c.amount (pos 0)
              (sum_by_ℤ-set (λ (x : SavingsAccount). x.balance) c.account_id a updated bank.accounts
                owner)
              (ap (λ z. fees_total (set charge_id waived bank.charges) +ℤ z)
                  (sym (unwaived-applied c still_applied))
                ∙ sum_by_ℤ-set unwaived charge_id c waived bank.charges found)
              (give_back a.balance c.amount);
      })
