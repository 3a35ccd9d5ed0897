-- ===== src/Cheques/Tests.antt =====
-- An outward cheque that was cleared and is then stopped.
use nexus_efos.Common.{◌≡◌, refl, none, some, [], ◌∷◌}
use nexus_efos.Common.Table.{get}
use nexus_efos.Cheques.{
  Cheque, ChequeDirection, ChequeStatus, record_cheque, submit_clearing, clear,
}
use nexus_efos.Cheques.Settled.{
  record_op, submit_op, clear_op, stop_op, perform, run, KeptRow, settled_cheque_stays,
}

abbrev cheque : Cheque
cheque = record {
  direction = ChequeDirection.outward;
  amount = 5000;
  status = ChequeStatus.cleared;
  confirmed_by = none;
  bounce_reason = none;
}

cleared_cheque :
    run (record_op 1 ChequeDirection.outward 5000 none (some 3) ∷ submit_op 1 ∷ clear_op 1 ∷ []) []
    ≡ (1, cheque) ∷ []
unfolding run perform record_cheque submit_clearing clear
cleared_cheque = refl

settled_cheque_stays_example :
    KeptRow cheque (get 1 (run (stop_op 1 ∷ submit_op 1 ∷ []) ((1, cheque) ∷ [])))
settled_cheque_stays_example =
    settled_cheque_stays 1 cheque (stop_op 1 ∷ submit_op 1 ∷ []) ((1, cheque) ∷ []) refl refl
