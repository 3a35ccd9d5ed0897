-- ===== src/Cheques.antt =====
-- Cheques, api/src/routes/cheque.routes.ts. A number stands for a name or a reason that was given.
mod Tests
pub mod Settled
use nexus_efos.Common.{
  ℕ, Bool, true, false, not, ◌&&◌, ◌||◌, Option, none, some, List, [], ◌∷◌, ltb, if◌then◌else◌,
}
use nexus_efos.Common.Table.{Table, get, set}
use nexus_efos.Common.Result.{
  Result, ok, settle, guard, require, ◌>>=◌, ◌>>◌, bad_request, not_found, server_error,
}

pub data ChequeDirection : Type 0 where
  inward outward : ChequeDirection

pub data ChequeStatus : Type 0 where
  received issued pending_clearing cleared bounced stopped cancelled : ChequeStatus

pub record Cheque : Type 0 where
  pub direction : ChequeDirection
  pub amount : ℕ
  pub status : ChequeStatus
  pub confirmed_by : Option ℕ
  pub bounce_reason : Option ℕ

abbrev pub is_given : Option ℕ → Bool
is_given none = false
is_given (some name) = true

abbrev pub is_absent : Option Cheque → Bool
is_absent none = true
is_absent (some cheque) = false

abbrev pub is_named : ChequeDirection → Option ℕ → Option ℕ → Bool
is_named ChequeDirection.inward payer_name payee_name = is_given payer_name
is_named ChequeDirection.outward payer_name payee_name = is_given payee_name

abbrev pub first_status : ChequeDirection → ChequeStatus
first_status ChequeDirection.inward = ChequeStatus.received
first_status ChequeDirection.outward = ChequeStatus.issued

abbrev pub is_new : ChequeStatus → Bool
is_new ChequeStatus.received = true
is_new ChequeStatus.issued = true
is_new _ = false

abbrev pub is_pending_clearing : ChequeStatus → Bool
is_pending_clearing ChequeStatus.pending_clearing = true
is_pending_clearing _ = false

abbrev pub is_settled : ChequeStatus → Bool
is_settled ChequeStatus.cleared = true
is_settled ChequeStatus.bounced = true
is_settled _ = false

abbrev pub is_outward : ChequeDirection → Bool
is_outward ChequeDirection.inward = false
is_outward ChequeDirection.outward = true

-- `/`
unfoldable pub record_cheque :
    ℕ → ChequeDirection → ℕ → Option ℕ → Option ℕ → Table Cheque → Result (Table Cheque)
record_cheque id direction amount payer_name payee_name cheques = do
  guard (ltb 0 amount) bad_request
  guard (is_named direction payer_name payee_name) bad_request
  guard (is_absent (get id cheques)) server_error
  ok (
      set id
        (record {
          direction = direction;
          amount = amount;
          status = first_status direction;
          confirmed_by = none;
          bounce_reason = none;
        })
        cheques)

-- `/:id/confirm`
unfoldable pub confirm : ℕ → ℕ → Table Cheque → Result (Table Cheque)
confirm id user cheques = do
  cheque ← require (get id cheques) not_found
  ok (set id (record cheque { confirmed_by = some user }) cheques)

-- `/:id/submit-clearing`
unfoldable pub submit_clearing : ℕ → Table Cheque → Result (Table Cheque)
submit_clearing id cheques = do
  cheque ← require (get id cheques) not_found
  guard (is_new cheque.status) bad_request
  ok (set id (record cheque { status = ChequeStatus.pending_clearing }) cheques)

-- `/:id/clear`
unfoldable pub clear : ℕ → Table Cheque → Result (Table Cheque)
clear id cheques = do
  cheque ← require (get id cheques) not_found
  guard (is_pending_clearing cheque.status) bad_request
  ok (set id (record cheque { status = ChequeStatus.cleared }) cheques)

-- `/:id/bounce`
unfoldable pub bounce : ℕ → Option ℕ → Table Cheque → Result (Table Cheque)
bounce id reason cheques = do
  guard (is_given reason) bad_request
  cheque ← require (get id cheques) not_found
  guard (is_pending_clearing cheque.status) bad_request
  ok (set id (record cheque { status = ChequeStatus.bounced; bounce_reason = reason }) cheques)

-- `/:id/stop`
unfoldable pub stop : ℕ → Table Cheque → Result (Table Cheque)
stop id cheques = do
  cheque ← require (get id cheques) not_found
  guard (is_outward cheque.direction) bad_request
  guard (not (is_settled cheque.status)) bad_request
  ok (set id (record cheque { status = ChequeStatus.stopped }) cheques)

-- `/:id/cancel`
unfoldable pub cancel : ℕ → Table Cheque → Result (Table Cheque)
cancel id cheques = do
  cheque ← require (get id cheques) not_found
  guard (is_new cheque.status) bad_request
  ok (set id (record cheque { status = ChequeStatus.cancelled }) cheques)
