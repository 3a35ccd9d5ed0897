-- ===== src/Savings/Fees.antt =====
-- Fees and their waiver: `/:id/fee-charges` and `/fee-charges/:chargeId/waive` of
-- api/src/routes/savings.routes.ts. Both write the balance that they computed from what they read;
-- no journal is posted.
use nexus_efos.Common.{ℕ, suc, ◌*◌, Bool, true, false, Option, none, some, ◌∷◌, if◌then◌else◌}
use nexus_efos.Common.Int.{ℤ, pos, negsuc, ◌+ℤ◌, ◌-ℤ◌}
use nexus_efos.Common.Rounding.{round2_ℤ}
use nexus_efos.Common.Table.{Table, get, set}
use nexus_efos.Common.Result.{Result, ok, guard, require, ◌>>=◌, ◌>>◌, bad_request, not_found}
use nexus_efos.Savings.{
  SavingsAccount, FeeType, FeeCharge, ChargeStatus, Bank, TransactionType, record_movement,
}

abbrev pub times_ℤ : ℤ → ℕ → ℤ
times_ℤ (pos a) n = pos (a * n)
times_ℤ (negsuc a) n = pos 0 -ℤ pos (suc a * n)

-- A fixed amount, or a percentage of the balance, which may be negative.
unfoldable pub fee_amount : FeeType → ℤ → ℤ
fee_amount t balance =
    if t.is_fixed then pos t.amount else round2_ℤ (times_ℤ balance t.amount) 10000

abbrev pub with_balance : ℤ → SavingsAccount → SavingsAccount
with_balance b a = record a { balance = b; ledger_balance = b }

-- `findFirst({ where: { id, active: true } })`
abbrev pub get_active : ℕ → Table FeeType → Option FeeType
get_active id types = elim (get id types) [
  | none ↦ none
  | some t ↦ if t.is_active then some t else none
]

-- `charge_id` is the id of the new row.
unfoldable pub charge_fee : ℕ → ℕ → ℕ → Bank → Result Bank
charge_fee charge_id id fee_type_id bank = do
  account ← require (get id bank.accounts) not_found
  fee_type ← require (get_active fee_type_id bank.fee_types) not_found
  let amount = fee_amount fee_type account.balance
  let new_balance = account.balance -ℤ amount
  let moved =
      record_movement TransactionType.fee id amount (with_balance new_balance account) bank.books
        bank
  ok (record moved {
    charges =
        (charge_id, record { account_id = id; amount = amount; status = ChargeStatus.applied })
        ∷ bank.charges;
  })

abbrev pub is_applied : ChargeStatus → Bool
is_applied ChargeStatus.applied = true
is_applied _ = false

-- The reversal on the account, where the account is found.
unfoldable pub reverse_fee : FeeCharge → Bank → Bank
reverse_fee charge bank = elim (get charge.account_id bank.accounts) [
  | none ↦ bank
  | some account ↦
      record_movement TransactionType.fee_reversal charge.account_id charge.amount
        (with_balance (account.balance +ℤ charge.amount) account) bank.books bank
]

unfoldable pub waive_fee : ℕ → Bank → Result Bank
waive_fee charge_id bank = do
  charge ← require (get charge_id bank.charges) not_found
  guard (is_applied charge.status) bad_request
  let reversed = reverse_fee charge bank
  ok (record reversed {
    charges = set charge_id (record charge { status = ChargeStatus.waived }) bank.charges;
  })
