-- ===== src/Auth/Enrolment.antt =====
-- Enrolment in the second factor, and devices: `/mfa/setup`, `/mfa/verify`, `/mfa/disable` and
-- `/devices/:id` of api/src/routes/auth.routes.ts.
use nexus_efos.Common.{
  ℕ, Bool, true, false, Option, none, some, List, [], ◌∷◌, map, length, ◌==◌, if◌then◌else◌,
}
use nexus_efos.Common.Table.{Table, get, set}
use nexus_efos.Auth.{
  Text, Environment, User, UserMfa, UserDevice, AuthDb, Answer, is_some, put_device,
}
use nexus_efos.Auth.Secrets.{encrypt_secret, decrypt_secret}

-- The random values of an enrolment: the secret and the vector that encrypts it.
pub record EnrolmentDraw : Type 0 where
  pub secret : Text
  pub iv : Text

abbrev pub is_enrolled : Option UserMfa → Bool
is_enrolled none = false
is_enrolled (some mfa) = is_some mfa.verified_at

-- `userMfa.upsert`
abbrev pub begun_mfa : Environment → EnrolmentDraw → UserMfa
begun_mfa env draw = record {
  secret_encrypted = encrypt_secret env draw.iv draw.secret;
  backup_codes_hashed = [];
  verified_at = none;
}

abbrev pub begin_enrolment :
    Environment → EnrolmentDraw → ℕ → Option User → AuthDb → AuthDb × Answer
begin_enrolment env draw user_id none db = (db, Answer.refused 404)
begin_enrolment env draw user_id (some user) db =
    if is_enrolled (get user_id db.mfas)
    then (db, Answer.refused 409)
    else (record db { mfas = set user_id (begun_mfa env draw) db.mfas }, Answer.done)

unfoldable pub mfa_setup : Environment → EnrolmentDraw → ℕ → AuthDb → AuthDb × Answer
mfa_setup env draw user_id db = begin_enrolment env draw user_id (get user_id db.users) db

-- A six-digit code against a secret; `none` is an exception.
abbrev pub totp_valid : Environment → ℕ → Text → Option Text → Option Bool
totp_valid env now code none = none
totp_valid env now code (some secret) = some (env.verify_totp now code secret)

abbrev pub check_totp : Environment → ℕ → Text → UserMfa → Option Bool
check_totp env now code mfa = totp_valid env now code (decrypt_secret env mfa.secret_encrypted)

-- `hashBackupCodes`, each code with its salt.
abbrev pub hash_backup_codes : Environment → List (ℕ × Text) → List ℕ
hash_backup_codes env codes = map (λ (c : ℕ × Text). env.hash_password c.0 c.1) codes

abbrev pub enrolled_mfa : Environment → ℕ → List (ℕ × Text) → UserMfa → UserMfa
enrolled_mfa env now codes mfa = record mfa {
  verified_at = some now;
  backup_codes_hashed = hash_backup_codes env codes;
}

abbrev pub enrolled_user : User → User
enrolled_user user = record user { mfa_enabled = true }

abbrev pub enrol : Environment → ℕ → List (ℕ × Text) → ℕ → User → UserMfa → AuthDb → AuthDb
enrol env now codes user_id user mfa db = record db {
  mfas = set user_id (enrolled_mfa env now codes mfa) db.mfas;
  users = set user_id (enrolled_user user) db.users;
}

abbrev pub after_totp : Option Bool → AuthDb → AuthDb × Answer → AuthDb × Answer
after_totp none db passed = (db, Answer.refused 500)
after_totp (some false) db passed = (db, Answer.refused 401)
after_totp (some true) db passed = passed

abbrev pub verify_row :
    Environment
    → ℕ
    → List (ℕ × Text)
    → Text
    → ℕ
    → Option User
    → Option UserMfa
    → AuthDb
    → AuthDb × Answer
verify_row env now codes code user_id none row db = (db, Answer.refused 400)
verify_row env now codes code user_id (some user) none db = (db, Answer.refused 400)
verify_row env now codes code user_id (some user) (some mfa) db =
    if is_some mfa.verified_at
    then (db, Answer.refused 409)
    else after_totp (check_totp env now code mfa) db
        (enrol env now codes user_id user mfa db, Answer.done)

unfoldable pub mfa_verify : Environment → ℕ → List (ℕ × Text) → Text → ℕ → AuthDb → AuthDb × Answer
mfa_verify env now codes code user_id db =
    if length code == 6
    then verify_row env now codes code user_id (get user_id db.users) (get user_id db.mfas) db
    else (db, Answer.refused 400)

-- `userMfa.deleteMany`
abbrev pub remove {ℓ} : {V : Type ℓ} → ℕ → Table V → Table V
remove k [] = []
remove k ((j, v) ∷ t) = let rest = remove k t in if j == k then rest else (j, v) ∷ rest

abbrev pub disable_row : Environment → Text → ℕ → Option User → AuthDb → AuthDb × Answer
disable_row env password user_id none db = (db, Answer.refused 404)
disable_row env password user_id (some user) db =
    if env.compare_hash password user.password_hash
    then (
      record db {
        mfas = remove user_id db.mfas;
        users = set user_id (record user { mfa_enabled = false }) db.users;
      },
      Answer.done,
    )
    else (db, Answer.refused 401)

unfoldable pub mfa_disable : Environment → Text → ℕ → AuthDb → AuthDb × Answer
mfa_disable env password user_id db = disable_row env password user_id (get user_id db.users) db

abbrev pub revoke_row : ℕ → ℕ → Option UserDevice → AuthDb → AuthDb × Answer
revoke_row user_id fingerprint none db = (db, Answer.refused 404)
revoke_row user_id fingerprint (some device) db =
    (record db { devices = put_device user_id fingerprint none db.devices }, Answer.done)

-- A user's device is named by its fingerprint, which is unique for the user.
unfoldable pub revoke_device : ℕ → ℕ → AuthDb → AuthDb × Answer
revoke_device user_id fingerprint db =
    revoke_row user_id fingerprint (db.devices user_id fingerprint) db
