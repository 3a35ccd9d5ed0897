-- ===== src/Savings/Tests.antt =====
-- Savings accounts on concrete data.
use nexus_efos.Common.{ℕ, ◌≡◌, refl, true, some, sum_by, List, [], ◌∷◌, arith}
use nexus_efos.Common.Int.{ℤ, pos, negsuc, ◌+ℤ◌, ◌-ℤ◌}
use nexus_efos.Common.Rounding.{round2, round2_ℤ}
use nexus_efos.Common.Result.{err, bad_request}
use nexus_efos.Ledger.{Category, JournalLine, is_balanced, balance_effect}
use nexus_efos.Ledger.Posting.{
  GlAccount, PeriodStatus, increment, post_lines, is_postable, post_automatic,
}
use nexus_efos.Savings.{
  AccountStatus, SavingsAccount, RestrictionType, RestrictionStatus, Bank, check_restriction,
  check_movement, check_withdraw, commit_withdraw, withdraw,
}
use nexus_efos.Savings.Fees.{charge_fee, fee_amount}
use nexus_efos.Savings.Overdraft.{
  AreSound, Reach, withdraw_step, here, next, balance_of, history, never_overdrawn,
}
use nexus_efos.Savings.Subledger.{Op, after, run, Keeps}
use nexus_efos.Savings.Subledger.Run.{run-Keeps}

abbrev account : ℤ → SavingsAccount
account b = record { balance = b; ledger_balance = b; status = AccountStatus.active }

abbrev gl : Category → ℤ → GlAccount
gl c b = record { category = c; is_active = true; balance = b }

abbrev bank : Bank
bank = record {
  accounts = (7, account (pos 500)) ∷ (8, account (pos 0)) ∷ [];
  restrictions =
      (record {
        account_id = 8;
        type = RestrictionType.debit_restriction;
        status = RestrictionStatus.active;
      })
      ∷ (record {
        account_id = 7;
        type = RestrictionType.court_order;
        status = RestrictionStatus.active;
      })
      ∷ [];
  fee_types = (1, record { is_fixed = true; amount = 600; is_active = true }) ∷ [];
  charges = [];
  transactions = [];
  cash_account = some 1;
  deposits_account = some 2;
  books = record {
    accounts = (1, gl Category.asset (pos 500)) ∷ (2, gl Category.liability (pos 500)) ∷ [];
    periods = (1, record { start_date = 1; end_date = 31; status = PeriodStatus.open_period }) ∷ [];
    journals = [];
  };
}

abbrev ops : List (ℕ × Op)
ops =
    (5, Op.deposit_op 8 250)
    ∷ (5, Op.withdraw_op 8 100)
    ∷ (6, Op.withdraw_op 7 450)
    ∷ (6, Op.withdraw_op 7 100)
    ∷ (7, Op.charge_op 3 7 1)
    ∷ (8, Op.close_op 7)
    ∷ (9, Op.waive_op 3)
    ∷ []

run-Keeps_example : Keeps 1 2 bank (run ops bank)
run-Keeps_example = run-Keeps 1 2 ops bank (refl, refl, refl, refl) tt

-- A fee may take more than the account holds.
fee_overdraws :
    balance_of 7 (run ((5, Op.withdraw_op 7 450) ∷ (5, Op.charge_op 3 7 1) ∷ []) bank).accounts
    ≡ negsuc 549
unfolding withdraw check_withdraw check_movement commit_withdraw check_restriction is_postable
    is_balanced post_automatic post_lines increment balance_effect charge_fee fee_amount round2
    round2_ℤ ◌+ℤ◌ ◌-ℤ◌ sum_by
fee_overdraws = refl

abbrev lines : ℕ → List JournalLine
lines amount =
    (record { account_id = 2; category = Category.liability; debit = amount; credit = 0 })
    ∷ (record { account_id = 1; category = Category.asset; debit = 0; credit = amount })
    ∷ []

-- Two withdrawals of 3.00 from 5.00 have passed their checks, and the first one commits.
abbrev bank_after : Bank
bank_after = after (commit_withdraw 7 300 (lines 300) 5 bank) bank

raced : Reach bank bank_after
unfolding check_withdraw check_movement commit_withdraw check_restriction is_postable is_balanced
    post_automatic post_lines increment balance_effect round2 round2_ℤ ◌+ℤ◌ ◌-ℤ◌ sum_by
raced = next here (withdraw_step 7 300 5 bank bank_after (lines 300) refl refl)

-- The second one is refused.
second_refused : commit_withdraw 7 300 (lines 300) 5 bank_after ≡ err bad_request
unfolding commit_withdraw post_automatic post_lines increment balance_effect round2 round2_ℤ ◌+ℤ◌
    ◌-ℤ◌
second_refused = refl

never_overdrawn_example :
    AreSound bank_after.accounts
    × ((j : ℕ)
        → balance_of j bank_after.accounts +ℤ history j bank.transactions
          ≡ balance_of j bank.accounts +ℤ history j bank_after.transactions)
never_overdrawn_example = never_overdrawn ((ground arith, refl), ((ground arith, refl), tt)) raced
