-- ===== src/Auth/Factors/Outcomes.antt =====
-- What each handler of signing in does to the devices, and when it opens a session.
use nexus_efos.Common.{
  ℕ, ◌≡◌, ◌≢◌, ◌⊎◌, refl, sym, ap, ◌∙◌, Bool, true, false, ◌||◌, Option, none, some, List, [], ◌∷◌,
  any, leb, length, ◌==◌, if◌then◌else◌, Bool-cases, Option-cases, inl, inr,
}
use nexus_efos.Common.Table.{get}
use nexus_efos.Auth.{
  Text, Environment, User, UserMfa, UserDevice, AuthDb, Answer, is_session, Draw, is_some, is_after,
  is_active, see_device, put_device, must_change, complete_login, is_device_trusted,
  user_has_role_requiring_mfa,
}
use nexus_efos.Auth.Secrets.{is_totp_code, normal_code, consume, match_and_consume_backup_code}
use nexus_efos.Auth.Enrolment.{
  EnrolmentDraw, check_totp, after_totp, is_enrolled, begin_enrolment, verify_row, disable_row,
  revoke_row, mfa_setup, mfa_verify, mfa_disable, revoke_device, enrol, enrolled_user,
}
use nexus_efos.Auth.Login.{
  LoginRequest, MfaRequest, CodeCheck, of_totp, of_backup, check_code, with_remaining, first_factor,
  login_user, login_found, login, find_user, mfa_rows, mfa_pending, login_mfa, required_rows,
  required_pending, verify_required, setup_pending, setup_required,
}
use nexus_efos.Auth.Factors.{
  Request, sign_in, sign_in_mfa, set_up_required, confirm_required, set_up, confirm, disable,
  revoke, others, handle, fingerprint_of, is_yes, is_right, is_right_for, proof_of, proved_user,
}

-- Why a session may be opened: the second factor was proved, or it was skipped.
abbrev pub IsAllowed : ℕ → ℕ → Option ℕ → AuthDb → Option ℕ → Bool → Type 0
IsAllowed now user_id fingerprint db proved true = proved ≡ some user_id
IsAllowed now user_id fingerprint db proved false =
    (is_device_trusted now user_id fingerprint db ≡ true)
    ⊎ (user_has_role_requiring_mfa now user_id db ≡ false)

abbrev pub Opens : ℕ → Option ℕ → AuthDb → Option ℕ → AuthDb × Answer → Type 0
Opens now fingerprint db proved out =
    (user_id : ℕ) × (b : Bool) × (trust : Bool) × (verified : Bool) × (out.0.devices
      ≡ see_device now user_id fingerprint trust verified db.devices)
    × (out.1 ≡ Answer.session user_id b)
    × IsAllowed now user_id fingerprint db proved verified

abbrev pub Outcome : ℕ → Option ℕ → AuthDb → Option ℕ → AuthDb × Answer → Type 0
Outcome now fingerprint db proved out =
    ((out.0.devices ≡ db.devices) × (is_session out.1 ≡ false))
    ⊎ Opens now fingerprint db proved out

module _ (env : Environment) (now : ℕ) (draw : Draw) where
  -- `db'` is what the handler made of `db` before.
  complete_login-Outcome :
      (user_id : ℕ) (user : User) (fingerprint : Option ℕ) (trust verified : Bool) (db db' : AuthDb)
      (proved : Option ℕ)
      → db'.devices ≡ db.devices
      → IsAllowed now user_id fingerprint db proved verified
      → Outcome now fingerprint db proved
          (complete_login env now draw user_id user fingerprint trust verified db')
  unfolding complete_login
  complete_login-Outcome user_id user fingerprint trust verified db db' proved same allowed =
      elim (Bool-cases (is_some (get draw.token_hash db'.tokens))) [
        | inl taken ↦ rw taken (inl (same, refl))
        | inr free ↦ rw free (
            inr (
              user_id,
              must_change now user,
              trust,
              verified,
              ap (see_device now user_id fingerprint trust verified) same,
              refl,
              allowed,
            ))
      ]

  first_factor-Outcome :
      (request : LoginRequest) (user_id : ℕ) (user : User) (db : AuthDb)
      → Outcome now request.fingerprint db none (first_factor env now draw request user_id user db)
  first_factor-Outcome request user_id user db =
      elim (Bool-cases (is_device_trusted now user_id request.fingerprint db)) [
        | inl trusted ↦ rw trusted (completed (inl trusted))
        | inr unknown ↦ elim (Bool-cases user.mfa_enabled) [
          | inl enabled ↦ simp (unknown, enabled) (inl (refl, refl))
          | inr not_enabled ↦ elim (Bool-cases (user_has_role_requiring_mfa now user_id db)) [
            | inl required ↦ simp (unknown, not_enabled, required) (inl (refl, refl))
            | inr free ↦ simp (unknown, not_enabled, free) (completed (inr free))
          ]
        ]
      ]
    where
      completed :
          IsAllowed now user_id request.fingerprint db none false
          → Outcome now request.fingerprint db none (
              complete_login env now draw user_id user request.fingerprint request.trust_device
                false db)
      completed allowed =
          complete_login-Outcome user_id user request.fingerprint request.trust_device false db db
            none refl allowed

  login_user-Outcome :
      (request : LoginRequest) (user_id : ℕ) (o : Option User) (db : AuthDb)
      → Outcome now request.fingerprint db none (login_user env now draw request user_id o db)
  login_user-Outcome request user_id none db = inl (refl, refl)
  login_user-Outcome request user_id (some user) db =
      elim (Bool-cases (is_after now user.locked_until)) [
        | inl locked ↦ rw locked (inl (refl, refl))
        | inr free ↦ elim (Bool-cases (env.compare_hash request.password user.password_hash)) [
          | inr wrong ↦ rw (free, wrong) (inl (refl, refl))
          | inl known ↦ elim (Bool-cases (is_active user.status)) [
            | inl active ↦ rw (free, known, active) (first_factor-Outcome request user_id user db)
            | inr inactive ↦ rw (free, known, inactive) (inl (refl, refl))
          ]
        ]
      ]

  login_found-Outcome :
      (request : LoginRequest) (o : Option ℕ) (db : AuthDb)
      → Outcome now request.fingerprint db none (login_found env now draw request o db)
  login_found-Outcome request none db = inl (refl, refl)
  login_found-Outcome request (some user_id) db =
      login_user-Outcome request user_id (get user_id db.users) db

  pub login-Outcome :
      (request : LoginRequest) (db : AuthDb)
      → Outcome now request.fingerprint db none (login env now draw request db)
  unfolding login
  login-Outcome request db =
      login_found-Outcome request (find_user request.institution_id request.email db.users) db

consumed-any :
    (matches : ℕ → Bool) (codes remaining : List ℕ)
    → consume matches codes ≡ some remaining
    → any matches codes ≡ true
consumed-any matches [] remaining h = cc
consumed-any matches (c ∷ codes) remaining h = elim (Bool-cases (matches c)) [
  | inl same ↦ rw same refl
  | inr other ↦ elim (Option-cases (consume matches codes)) [
    | inl absent ↦ absurd (none_some _ (sym (simp (other, absent)) ∙ h))
    | inr (rest, found) ↦ rw (other, consumed-any matches codes rest found)
  ]
]
  where
    none_some : (r : List ℕ) → none ≢ some r
    none_some r p = cc

-- What `check_code` accepts is right for the factor.
module _ (env : Environment) (now : ℕ) (code : Text) (mfa : UserMfa) where
  totp_right :
      (o : Option Bool) (remaining : Option (List ℕ))
      → of_totp o ≡ CodeCheck.right remaining
      → is_yes o ≡ true
  totp_right none remaining h = cc
  totp_right (some true) remaining h = refl
  totp_right (some false) remaining h = cc

  backup_right :
      (o : Option (List ℕ)) (remaining : Option (List ℕ))
      → consume (env.compare_hash (normal_code code)) mfa.backup_codes_hashed ≡ o
      → of_backup o ≡ CodeCheck.right remaining
      → any (λ h. env.compare_hash (normal_code code) h) mfa.backup_codes_hashed ≡ true
  backup_right none remaining e h = cc
  backup_right (some rest) remaining e h = consumed-any _ mfa.backup_codes_hashed rest e

  check_code_right :
      (remaining : Option (List ℕ))
      → check_code env now code mfa ≡ CodeCheck.right remaining
      → is_right env now code mfa ≡ true
  unfolding check_code match_and_consume_backup_code
  check_code_right remaining h = elim (Bool-cases (is_totp_code code)) [
    | inl six ↦ rw (totp_right (check_totp env now code mfa) remaining (rw six at h)) refl
    | inr other ↦
        or_true (is_yes (check_totp env now code mfa)) _
          (backup_right _ remaining refl (rw other at h))
  ]
    where
      or_true : (a b : Bool) → b ≡ true → (a || b) ≡ true
      or_true true b h = refl
      or_true false b h = h

CodeCheck-cases :
    (c : CodeCheck)
    → ((c ≡ CodeCheck.exception) ⊎ (c ≡ CodeCheck.wrong))
      ⊎ ((remaining : Option (List ℕ)) × (c ≡ CodeCheck.right remaining))
CodeCheck-cases CodeCheck.exception = inl (inl refl)
CodeCheck-cases CodeCheck.wrong = inl (inr refl)
CodeCheck-cases (CodeCheck.right remaining) = inr (remaining, refl)

module _ (env : Environment) (now : ℕ) (draw : Draw) where
  with_remaining-devices :
      (user_id : ℕ) (o : Option (List ℕ)) (mfa : UserMfa) (db : AuthDb)
      → (with_remaining user_id o mfa db).devices ≡ db.devices
  with_remaining-devices user_id none mfa db = refl
  with_remaining-devices user_id (some remaining) mfa db = refl

  mfa_rows-Outcome :
      (request : MfaRequest) (user_id : ℕ) (o : Option User) (m : Option UserMfa) (db : AuthDb)
      → Outcome now request.fingerprint db
          (if is_right_for env now request.code m then some user_id else none)
          (mfa_rows env now draw request user_id o m db)
  mfa_rows-Outcome request user_id none m db = inl (refl, refl)
  mfa_rows-Outcome request user_id (some user) none db = inl (refl, refl)
  mfa_rows-Outcome request user_id (some user) (some mfa) db =
      elim (Bool-cases (is_some mfa.verified_at)) [
        | inr unverified ↦ rw unverified (inl (refl, refl))
        | inl verified ↦ elim (Bool-cases (is_after now user.locked_until)) [
          | inl locked ↦ rw (verified, locked) (inl (refl, refl))
          | inr free ↦ elim (CodeCheck-cases (check_code env now request.code mfa)) [
            | inl (inl failed) ↦ rw (verified, free, failed) (inl (refl, refl))
            | inl (inr wrong) ↦ rw (verified, free, wrong) (inl (refl, refl))
            | inr (remaining, right) ↦
                rw (verified, free, right)
                  (complete_login-Outcome env now draw user_id user request.fingerprint
                    request.trust_device true db (with_remaining user_id remaining mfa db) _
                    (with_remaining-devices user_id remaining mfa db)
                    (rw (check_code_right env now request.code mfa remaining right) refl))
          ]
        ]
      ]

  mfa_pending-Outcome :
      (request : MfaRequest) (o : Option ℕ) (db : AuthDb)
      → Outcome now request.fingerprint db
          (proof_of env now request.code db o)
          (mfa_pending env now draw request o db)
  mfa_pending-Outcome request none db = inl (refl, refl)
  mfa_pending-Outcome request (some user_id) db =
      mfa_rows-Outcome request user_id (get user_id db.users) (get user_id db.mfas) db

  pub login_mfa-Outcome :
      (request : MfaRequest) (db : AuthDb)
      → Outcome now request.fingerprint db
          (proof_of env now request.code db (env.pending_user now request.pending_token))
          (login_mfa env now draw request db)
  unfolding login_mfa
  login_mfa-Outcome request db = elim (Bool-cases (leb 6 (length request.code))) [
    | inl long ↦
        rw long (mfa_pending-Outcome request (env.pending_user now request.pending_token) db)
    | inr short ↦ rw short (inl (refl, refl))
  ]

  totp_proves :
      (code : Text) (mfa : UserMfa)
      → check_totp env now code mfa ≡ some true
      → is_right env now code mfa ≡ true
  totp_proves code mfa h = rw h refl

  required_rows-Outcome :
      (codes : List (ℕ × Text)) (request : MfaRequest) (user_id : ℕ) (o : Option User)
      (m : Option UserMfa) (db : AuthDb)
      → Outcome now request.fingerprint db
          (if is_right_for env now request.code m then some user_id else none)
          (required_rows env now draw codes request user_id o m db)
  required_rows-Outcome codes request user_id none m db = inl (refl, refl)
  required_rows-Outcome codes request user_id (some user) none db = inl (refl, refl)
  required_rows-Outcome codes request user_id (some user) (some mfa) db =
      elim (Bool-cases (is_some mfa.verified_at)) [
        | inl verified ↦ rw verified (inl (refl, refl))
        | inr unverified ↦ rw unverified (after_check (check_totp env now request.code mfa) refl)
      ]
    where
      after_check :
          (o : Option Bool)
          → check_totp env now request.code mfa ≡ o
          → Outcome now request.fingerprint db
              (if is_right env now request.code mfa then some user_id else none)
              (after_totp o db (
                complete_login env now draw user_id
                  (enrolled_user user)
                  request.fingerprint
                  false
                  true
                  (enrol env now codes user_id user mfa db)))
      after_check none e = inl (refl, refl)
      after_check (some false) e = inl (refl, refl)
      after_check (some true) e =
          complete_login-Outcome env now draw user_id (enrolled_user user) request.fingerprint false
            true db (enrol env now codes user_id user mfa db) _ refl
            (rw (totp_proves request.code mfa e) refl)

  required_pending-Outcome :
      (codes : List (ℕ × Text)) (request : MfaRequest) (o : Option ℕ) (db : AuthDb)
      → Outcome now request.fingerprint db
          (proof_of env now request.code db o)
          (required_pending env now draw codes request o db)
  required_pending-Outcome codes request none db = inl (refl, refl)
  required_pending-Outcome codes request (some user_id) db =
      required_rows-Outcome codes request user_id (get user_id db.users) (get user_id db.mfas) db

  pub verify_required-Outcome :
      (codes : List (ℕ × Text)) (request : MfaRequest) (db : AuthDb)
      → Outcome now request.fingerprint db
          (proof_of env now request.code db (env.pending_user now request.pending_token))
          (verify_required env now draw codes request db)
  unfolding verify_required
  verify_required-Outcome codes request db = elim (Bool-cases (length request.code == 6)) [
    | inl six ↦
        rw six
          (required_pending-Outcome codes request (env.pending_user now request.pending_token) db)
    | inr other ↦ rw other (inl (refl, refl))
  ]

-- The requests that open no session.
abbrev pub Forgets : AuthDb → AuthDb × Answer → Type 0
Forgets db out =
    (user_id : ℕ) × (fingerprint : ℕ) × (out.0.devices
      ≡ put_device user_id fingerprint none db.devices)
    × (is_session out.1 ≡ false)

abbrev IsQuiet : AuthDb → AuthDb × Answer → Type 0
IsQuiet db out = (out.0.devices ≡ db.devices) × (is_session out.1 ≡ false)

begin_enrolment-IsQuiet :
    (env : Environment) (draw : EnrolmentDraw) (user_id : ℕ) (o : Option User) (db : AuthDb)
    → IsQuiet db (begin_enrolment env draw user_id o db)
begin_enrolment-IsQuiet env draw user_id none db = (refl, refl)
begin_enrolment-IsQuiet env draw user_id (some user) db =
    elim (Bool-cases (is_enrolled (get user_id db.mfas))) [
      | inl enrolled ↦ rw enrolled (refl, refl)
      | inr free ↦ rw free (refl, refl)
    ]

setup_pending-IsQuiet :
    (env : Environment) (draw : EnrolmentDraw) (o : Option ℕ) (db : AuthDb)
    → IsQuiet db (setup_pending env draw o db)
setup_pending-IsQuiet env draw none db = (refl, refl)
setup_pending-IsQuiet env draw (some user_id) db =
    begin_enrolment-IsQuiet env draw user_id (get user_id db.users) db

after_totp-IsQuiet :
    (o : Option Bool) (db : AuthDb) (passed : AuthDb × Answer)
    → IsQuiet db passed
    → IsQuiet db (after_totp o db passed)
after_totp-IsQuiet none db passed h = (refl, refl)
after_totp-IsQuiet (some false) db passed h = (refl, refl)
after_totp-IsQuiet (some true) db passed h = h

verify_row-IsQuiet :
    (env : Environment) (now : ℕ) (codes : List (ℕ × Text)) (code : Text) (user_id : ℕ)
    (o : Option User) (m : Option UserMfa) (db : AuthDb)
    → IsQuiet db (verify_row env now codes code user_id o m db)
verify_row-IsQuiet env now codes code user_id none m db = (refl, refl)
verify_row-IsQuiet env now codes code user_id (some user) none db = (refl, refl)
verify_row-IsQuiet env now codes code user_id (some user) (some mfa) db =
    elim (Bool-cases (is_some mfa.verified_at)) [
      | inl verified ↦ rw verified (refl, refl)
      | inr unverified ↦ rw unverified (
          after_totp-IsQuiet (check_totp env now code mfa) db
            (enrol env now codes user_id user mfa db, Answer.done) (refl, refl))
    ]

disable_row-IsQuiet :
    (env : Environment) (password : Text) (user_id : ℕ) (o : Option User) (db : AuthDb)
    → IsQuiet db (disable_row env password user_id o db)
disable_row-IsQuiet env password user_id none db = (refl, refl)
disable_row-IsQuiet env password user_id (some user) db =
    elim (Bool-cases (env.compare_hash password user.password_hash)) [
      | inl known ↦ rw known (refl, refl)
      | inr wrong ↦ rw wrong (refl, refl)
    ]

revoke_row-cases :
    (now user_id fingerprint : ℕ) (o : Option UserDevice) (db : AuthDb)
    → Outcome now none db none (revoke_row user_id fingerprint o db)
      ⊎ Forgets db (revoke_row user_id fingerprint o db)
revoke_row-cases now user_id fingerprint none db = inl (inl (refl, refl))
revoke_row-cases now user_id fingerprint (some device) db = inr (user_id, fingerprint, refl, refl)

-- Every request, in one of these ways.
pub handle-Outcome :
    (env : Environment) (now : ℕ) (r : Request) (db : AuthDb)
    → Outcome now (fingerprint_of r) db (proved_user env now r db) (handle env now r db)
      ⊎ Forgets db (handle env now r db)
unfolding handle mfa_setup mfa_verify mfa_disable revoke_device setup_required
handle-Outcome env now (sign_in draw request) db = inl (login-Outcome env now draw request db)
handle-Outcome env now (sign_in_mfa draw request) db =
    inl (login_mfa-Outcome env now draw request db)
handle-Outcome env now (set_up_required draw token) db =
    inl (inl (setup_pending-IsQuiet env draw (env.pending_user now token) db))
handle-Outcome env now (confirm_required draw codes request) db =
    inl (verify_required-Outcome env now draw codes request db)
handle-Outcome env now (set_up draw user_id) db =
    inl (inl (begin_enrolment-IsQuiet env draw user_id (get user_id db.users) db))
handle-Outcome env now (confirm codes code user_id) db = elim (Bool-cases (length code == 6)) [
  | inl six ↦ rw six (
      inl (
        inl (
          verify_row-IsQuiet env now codes code user_id (get user_id db.users) (get user_id db.mfas)
            db)))
  | inr other ↦ rw other (inl (inl (refl, refl)))
]
handle-Outcome env now (disable password user_id) db =
    inl (inl (disable_row-IsQuiet env password user_id (get user_id db.users) db))
handle-Outcome env now (revoke user_id fingerprint) db =
    revoke_row-cases now user_id fingerprint (db.devices user_id fingerprint) db
handle-Outcome env now (others users mfas roles tokens) db = inl (inl (refl, refl))
