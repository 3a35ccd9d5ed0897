-- ===== src/Auth/Login.antt =====
-- The two steps of signing in: `/login`, `/login/mfa`, `/mfa/setup-required` and
-- `/mfa/verify-required` of api/src/routes/auth.routes.ts.
use nexus_efos.Common.{
  ℕ, Bool, true, false, ◌&&◌, Option, none, some, List, [], ◌∷◌, length, leb, ◌==◌, if◌then◌else◌,
}
use nexus_efos.Common.Table.{Table, get, set}
use nexus_efos.Auth.{
  Text, Environment, User, UserMfa, AuthDb, Answer, LoginResult, Draw, is_after, is_some, is_active,
  is_device_trusted, user_has_role_requiring_mfa, record_login_attempt, register_failed_password,
  complete_login,
}
use nexus_efos.Auth.Secrets.{is_totp_code, match_and_consume_backup_code}
use nexus_efos.Auth.Enrolment.{
  EnrolmentDraw, begin_enrolment, check_totp, after_totp, enrolled_user, enrol,
}

-- An empty fingerprint counts as none.
pub record LoginRequest : Type 0 where
  pub institution_id : Option ℕ
  pub email : ℕ
  pub password : Text
  pub fingerprint : Option ℕ
  pub trust_device : Bool

abbrev pub is_of : Option ℕ → ℕ → Bool
is_of none institution = true
is_of (some i) institution = institution == i

abbrev pub find_user : Option ℕ → ℕ → Table User → Option ℕ
find_user institution email [] = none
find_user institution email ((id, user) ∷ users) =
    let rest = find_user institution email users in
    if user.email == email && is_of institution user.institution_id then some id else rest

module _ (env : Environment) (now : ℕ) (draw : Draw) where
  abbrev pub first_factor : LoginRequest → ℕ → User → AuthDb → AuthDb × Answer
  first_factor request user_id user db =
      let finish =
        complete_login env now draw user_id user request.fingerprint request.trust_device false
          db in
      if is_device_trusted now user_id request.fingerprint db
      then finish
      else (if user.mfa_enabled
          then (db, Answer.mfa_required user_id)
          else (if user_has_role_requiring_mfa now user_id db
              then (db, Answer.mfa_setup_required user_id)
              else finish))

  abbrev pub login_user : LoginRequest → ℕ → Option User → AuthDb → AuthDb × Answer
  login_user request user_id none db = (db, Answer.refused 401)
  login_user request user_id (some user) db =
      if is_after now user.locked_until
      then (record_login_attempt user_id LoginResult.locked_out db, Answer.refused 423)
      else (if env.compare_hash request.password user.password_hash
          then (if is_active user.status
              then first_factor request user_id user db
              else (db, Answer.refused 403))
          else (register_failed_password now user_id user db, Answer.refused 401))

  abbrev pub login_found : LoginRequest → Option ℕ → AuthDb → AuthDb × Answer
  login_found request none db = (db, Answer.refused 401)
  login_found request (some user_id) db = login_user request user_id (get user_id db.users) db

  unfoldable pub login : LoginRequest → AuthDb → AuthDb × Answer
  login request db =
      login_found request (find_user request.institution_id request.email db.users) db

pub record MfaRequest : Type 0 where
  pub pending_token : ℕ
  pub code : Text
  pub fingerprint : Option ℕ
  pub trust_device : Bool

-- A code that is right comes with the backup codes that remain, if it was one of these.
pub data CodeCheck : Type 0 where
  exception wrong : CodeCheck
  right : Option (List ℕ) → CodeCheck

abbrev pub of_totp : Option Bool → CodeCheck
of_totp none = CodeCheck.exception
of_totp (some false) = CodeCheck.wrong
of_totp (some true) = CodeCheck.right none

abbrev pub of_backup : Option (List ℕ) → CodeCheck
of_backup none = CodeCheck.wrong
of_backup (some remaining) = CodeCheck.right (some remaining)

unfoldable pub check_code : Environment → ℕ → Text → UserMfa → CodeCheck
check_code env now code mfa =
    if is_totp_code code
    then of_totp (check_totp env now code mfa)
    else of_backup (match_and_consume_backup_code env code mfa.backup_codes_hashed)

abbrev pub with_remaining : ℕ → Option (List ℕ) → UserMfa → AuthDb → AuthDb
with_remaining user_id none mfa db = db
with_remaining user_id (some remaining) mfa db = record db {
  mfas = set user_id (record mfa { backup_codes_hashed = remaining }) db.mfas;
}

module _ (env : Environment) (now : ℕ) (draw : Draw) where
  abbrev pub second_factor : CodeCheck → MfaRequest → ℕ → User → UserMfa → AuthDb → AuthDb × Answer
  second_factor CodeCheck.exception request user_id user mfa db = (db, Answer.refused 500)
  second_factor CodeCheck.wrong request user_id user mfa db = (
    record_login_attempt user_id LoginResult.failed_mfa
        (register_failed_password now user_id user db),
    Answer.refused 401,
  )
  second_factor (CodeCheck.right remaining) request user_id user mfa db =
      complete_login env now draw user_id user request.fingerprint request.trust_device true
        (with_remaining user_id remaining mfa db)

  abbrev pub mfa_rows : MfaRequest → ℕ → Option User → Option UserMfa → AuthDb → AuthDb × Answer
  mfa_rows request user_id none row db = (db, Answer.refused 400)
  mfa_rows request user_id (some user) none db = (db, Answer.refused 400)
  mfa_rows request user_id (some user) (some mfa) db =
      if is_some mfa.verified_at
      then (if is_after now user.locked_until
          then (db, Answer.refused 423)
          else second_factor (check_code env now request.code mfa) request user_id user mfa db)
      else (db, Answer.refused 400)

  abbrev pub mfa_pending : MfaRequest → Option ℕ → AuthDb → AuthDb × Answer
  mfa_pending request none db = (db, Answer.refused 401)
  mfa_pending request (some user_id) db =
      mfa_rows request user_id (get user_id db.users) (get user_id db.mfas) db

  unfoldable pub login_mfa : MfaRequest → AuthDb → AuthDb × Answer
  login_mfa request db =
      if leb 6 (length request.code)
      then mfa_pending request (env.pending_user now request.pending_token) db
      else (db, Answer.refused 400)

  -- The request of `/mfa/verify-required` has no `trust_device`, and the code ignores it here.
  abbrev pub required_rows :
      List (ℕ × Text) → MfaRequest → ℕ → Option User → Option UserMfa → AuthDb → AuthDb × Answer
  required_rows codes request user_id none row db = (db, Answer.refused 400)
  required_rows codes request user_id (some user) none db = (db, Answer.refused 400)
  required_rows codes request user_id (some user) (some mfa) db =
      if is_some mfa.verified_at
      then (db, Answer.refused 409)
      else after_totp (check_totp env now request.code mfa) db (
          complete_login env now draw user_id (enrolled_user user) request.fingerprint false true
            (enrol env now codes user_id user mfa db))

  abbrev pub required_pending : List (ℕ × Text) → MfaRequest → Option ℕ → AuthDb → AuthDb × Answer
  required_pending codes request none db = (db, Answer.refused 401)
  required_pending codes request (some user_id) db =
      required_rows codes request user_id (get user_id db.users) (get user_id db.mfas) db

  unfoldable pub verify_required : List (ℕ × Text) → MfaRequest → AuthDb → AuthDb × Answer
  verify_required codes request db =
      if length request.code == 6
      then required_pending codes request (env.pending_user now request.pending_token) db
      else (db, Answer.refused 400)

abbrev pub setup_pending : Environment → EnrolmentDraw → Option ℕ → AuthDb → AuthDb × Answer
setup_pending env draw none db = (db, Answer.refused 401)
setup_pending env draw (some user_id) db =
    begin_enrolment env draw user_id (get user_id db.users) db

unfoldable pub setup_required : Environment → ℕ → EnrolmentDraw → ℕ → AuthDb → AuthDb × Answer
setup_required env now draw pending_token db =
    setup_pending env draw (env.pending_user now pending_token) db
