-- ===== src/Savings/Subledger/Run.antt =====
-- Any sequence of operations.
use nexus_efos.Common.{ℕ, ◌≡◌, refl, ◌∙◌, List, [], ◌∷◌}
use nexus_efos.Common.Result.{Result, ok, err}
use nexus_efos.Savings.{Bank}
use nexus_efos.Savings.Subledger.{Op, perform, after, run, IsMapped, AreLinked, Keeps}
use nexus_efos.Savings.Subledger.Movements.{deposit-Keeps, withdraw-Keeps}
use nexus_efos.Savings.Subledger.Charges.{
  close-Keeps, reactivate-Keeps, charge_fee-Keeps, waive_fee-Keeps,
}

perform-Keeps :
    (today cash deposits : ℕ) (op : Op) (bank bank' : Bank)
    → perform today op bank ≡ ok bank'
    → IsMapped cash deposits bank
    → AreLinked bank
    → Keeps cash deposits bank bank'
perform-Keeps today cash deposits (Op.deposit_op id amount) bank bank' =
    deposit-Keeps id amount today cash deposits bank bank'
perform-Keeps today cash deposits (Op.withdraw_op id amount) bank bank' =
    withdraw-Keeps id amount today cash deposits bank bank'
perform-Keeps today cash deposits (Op.close_op id) bank bank' =
    close-Keeps id cash deposits bank bank'
perform-Keeps today cash deposits (Op.reactivate_op id) bank bank' =
    reactivate-Keeps id cash deposits bank bank'
perform-Keeps today cash deposits (Op.charge_op c id t) bank bank' =
    charge_fee-Keeps c id t cash deposits bank bank'
perform-Keeps today cash deposits (Op.waive_op c) bank bank' =
    waive_fee-Keeps c cash deposits bank bank'

after-Keeps :
    (cash deposits : ℕ) (bank : Bank) (r : Result Bank)
    → ((bank' : Bank) → r ≡ ok bank' → Keeps cash deposits bank bank')
    → IsMapped cash deposits bank
    → AreLinked bank
    → Keeps cash deposits bank (after r bank)
after-Keeps cash deposits bank (err status) h mapped linked = record {
  mapped = mapped;
  linked = linked;
  same_gap = refl;
}
after-Keeps cash deposits bank (ok bank') h mapped linked = h bank' refl

-- With an asset and a liability mapped, and every charge on an account, any sequence of deposits,
-- withdrawals, closings, reactivations, fees and waivers, each on a day of its own, refused ones
-- included, leaves the mapping and the charges so, and keeps the difference between the ledger's
-- liability and the sum of all account balances and unwaived fees: the ledger exceeds what the
-- customers hold by the fees that were taken from them.
pub run-Keeps :
    (cash deposits : ℕ) (ops : List (ℕ × Op)) (bank : Bank)
    → IsMapped cash deposits bank
    → AreLinked bank
    → Keeps cash deposits bank (run ops bank)
run-Keeps cash deposits [] bank mapped linked = record {
  mapped = mapped;
  linked = linked;
  same_gap = refl;
}
run-Keeps cash deposits ((today, op) ∷ ops) bank mapped linked =
    let k =
      after-Keeps cash deposits bank (perform today op bank)
        (λ bank' e. perform-Keeps today cash deposits op bank bank' e mapped linked) mapped
        linked in
    let rest = run-Keeps cash deposits ops (after (perform today op bank) bank) k.mapped k.linked in
    record { mapped = rest.mapped; linked = rest.linked; same_gap = rest.same_gap ∙ k.same_gap }
