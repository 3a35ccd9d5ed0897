-- ===== src/Auth.antt =====
-- Signing in: the users, their second factors, devices and refresh tokens of api/src/lib/security.ts,
-- api/src/lib/jwt.ts and api/src/routes/auth.routes.ts. A handler is a function to the new state and
-- the answer, as several of them write before they refuse. bcrypt, TOTP, AES, JWT and the random
-- values are parameters.
mod Tests
pub mod Secrets
pub mod Login
pub mod Enrolment
pub mod Sessions
pub mod Passwords
pub mod Factors
pub mod Lockout
use nexus_efos.Common.{
  ℕ, ◌+◌, ◌*◌, Bool, true, false, ◌&&◌, not, Option, none, some, List, [], ◌∷◌, any, length, ltb,
  leb, ◌==◌, if◌then◌else◌,
}
use nexus_efos.Common.Table.{Table, get, set}

-- A text by its UTF-16 code units, or a buffer by its bytes. A time is in milliseconds.
abbrev pub Text : Type 0
Text = List ℕ

-- What the code takes from bcrypt, otplib, node:crypto and jsonwebtoken, with the secrets configured.
pub record Environment : Type 0 where
  pub compare_hash : Text → ℕ → Bool
  pub hash_password : ℕ → Text → ℕ
  pub verify_totp : ℕ → Text → Text → Bool
  pub pending_user : ℕ → ℕ → Option ℕ
  pub seal : Text → Text → Text × Text
  pub unseal : Text → Text → Text → Option Text
  pub to_utf8 : Text → Text
  pub from_utf8 : Text → Text
  pub to_hex : Text → Text
  pub from_hex : Text → Text
  pub refresh_ttl_days : ℕ

pub data UserStatus : Type 0 where
  invited active suspended deactivated : UserStatus

pub record User : Type 0 where
  pub institution_id : ℕ
  pub email : ℕ
  pub password_hash : ℕ
  pub status : UserStatus
  pub mfa_enabled : Bool
  pub failed_login_count : ℕ
  pub locked_until : Option ℕ
  pub password_expires_at : Option ℕ
  pub must_change_password : Bool
  pub invite_token : Option ℕ
  pub invite_token_expires_at : Option ℕ

pub record UserMfa : Type 0 where
  pub secret_encrypted : Text
  pub backup_codes_hashed : List ℕ
  pub verified_at : Option ℕ

pub record UserDevice : Type 0 where
  pub trusted : Bool
  pub trusted_until : Option ℕ
  pub mfa_verified_at : Option ℕ

-- A row of user_role, with `requireMfa` of its role.
pub record UserRole : Type 0 where
  pub user_id : ℕ
  pub expires_at : Option ℕ
  pub require_mfa : Bool

-- The rows are keyed by their unique token hash, also in `replaced_by`.
pub record RefreshToken : Type 0 where
  pub user_id : ℕ
  pub family_id : ℕ
  pub expires_at : ℕ
  pub revoked_at : Option ℕ
  pub replaced_by : Option ℕ

pub data LoginResult : Type 0 where
  success failed_password failed_mfa locked_out : LoginResult

-- The devices by user and fingerprint; the password histories by user, newest first.
pub record AuthDb : Type 0 where
  pub users : Table User
  pub mfas : Table UserMfa
  pub devices : ℕ → ℕ → Option UserDevice
  pub user_roles : List UserRole
  pub tokens : Table RefreshToken
  pub password_history : ℕ → List ℕ
  pub login_history : List (ℕ × LoginResult)

pub data Answer : Type 0 where
  refused : ℕ → Answer
  mfa_required mfa_setup_required : ℕ → Answer
  session : ℕ → Bool → Answer
  done : Answer

abbrev pub is_session : Answer → Bool
is_session (Answer.session user_id b) = true
is_session _ = false

abbrev pub password_min_length : ℕ
password_min_length = 12

abbrev pub password_max_length : ℕ
password_max_length = 128

abbrev pub password_history_depth : ℕ
password_history_depth = 5

abbrev pub failed_attempt_threshold : ℕ
failed_attempt_threshold = 5

abbrev pub day : ℕ
day = 24 * 60 * 60 * 1000

abbrev pub password_expiry_date : ℕ → ℕ
password_expiry_date from = from + 90 * day

abbrev pub lockout_duration : ℕ
lockout_duration = 30 * 60 * 1000

abbrev pub lockout_expiry_date : ℕ → ℕ
lockout_expiry_date from = from + lockout_duration

abbrev pub device_trust_expiry_date : ℕ → ℕ
device_trust_expiry_date from = from + 30 * day

-- `t && t > now` and `t && t < now`
abbrev pub is_after : ℕ → Option ℕ → Bool
is_after now none = false
is_after now (some t) = ltb now t

abbrev pub is_before : ℕ → Option ℕ → Bool
is_before now none = false
is_before now (some t) = ltb t now

abbrev pub is_some {ℓ} : {A : Type ℓ} → Option A → Bool
is_some none = false
is_some (some a) = true

abbrev pub is_active : UserStatus → Bool
is_active UserStatus.active = true
is_active _ = false

abbrev pub is_current : ℕ → Option ℕ → Bool
is_current now none = true
is_current now (some t) = ltb now t

abbrev pub user_has_role_requiring_mfa : ℕ → ℕ → AuthDb → Bool
user_has_role_requiring_mfa now user_id db =
    any (λ (r : UserRole). r.user_id == user_id && is_current now r.expires_at && r.require_mfa)
      db.user_roles

abbrev pub trusts : ℕ → Bool → UserDevice → Bool
trusts now required device =
    device.trusted
    && is_after now device.trusted_until
    && not (required && not (is_some device.mfa_verified_at))

abbrev pub trusts_row : ℕ → Bool → Option UserDevice → Bool
trusts_row now required none = false
trusts_row now required (some device) = trusts now required device

abbrev pub is_device_trusted : ℕ → ℕ → Option ℕ → AuthDb → Bool
is_device_trusted now user_id none db = false
is_device_trusted now user_id (some fingerprint) db =
    trusts_row now (user_has_role_requiring_mfa now user_id db) (db.devices user_id fingerprint)

abbrev pub record_login_attempt : ℕ → LoginResult → AuthDb → AuthDb
record_login_attempt user_id result db = record db {
  login_history = (user_id, result) ∷ db.login_history;
}

abbrev pub will_lock : User → Bool
will_lock user = leb failed_attempt_threshold (user.failed_login_count + 1)

abbrev pub failed_user : ℕ → User → User
failed_user now user = record user {
  failed_login_count = if will_lock user then 0 else user.failed_login_count + 1;
  locked_until = if will_lock user then some (lockout_expiry_date now) else user.locked_until;
}

abbrev pub register_failed_password : ℕ → ℕ → User → AuthDb → AuthDb
register_failed_password now user_id user db =
    record_login_attempt user_id
      (if will_lock user then LoginResult.locked_out else LoginResult.failed_password)
      (record db { users = set user_id (failed_user now user) db.users })

abbrev pub validate_password_length : Text → Bool
validate_password_length password =
    leb password_min_length (length password) && leb (length password) password_max_length

-- The random values of a new refresh token.
pub record Draw : Type 0 where
  pub token_hash : ℕ
  pub family_id : ℕ

-- The row that `userDevice.upsert` leaves.
abbrev pub fresh_device : UserDevice
fresh_device = record { trusted = false; trusted_until = none; mfa_verified_at = none }

abbrev pub device_or_fresh : Option UserDevice → UserDevice
device_or_fresh none = fresh_device
device_or_fresh (some device) = device

abbrev pub seen_device : ℕ → Bool → Bool → UserDevice → UserDevice
seen_device now trust_device mfa_was_verified device = record {
  trusted = if trust_device then true else device.trusted;
  trusted_until =
      if trust_device then some (device_trust_expiry_date now) else device.trusted_until;
  mfa_verified_at = if mfa_was_verified then some now else device.mfa_verified_at;
}

abbrev pub put_device :
    ℕ → ℕ → Option UserDevice → (ℕ → ℕ → Option UserDevice) → ℕ → ℕ → Option UserDevice
put_device user_id fingerprint device devices u f =
    if u == user_id && f == fingerprint then device else devices u f

abbrev pub see_device :
    ℕ → ℕ → Option ℕ → Bool → Bool → (ℕ → ℕ → Option UserDevice) → ℕ → ℕ → Option UserDevice
see_device now user_id none trust_device mfa_was_verified devices = devices
see_device now user_id (some fingerprint) trust_device mfa_was_verified devices =
    put_device user_id fingerprint
      (some (
        seen_device now trust_device mfa_was_verified
          (device_or_fresh (devices user_id fingerprint))))
      devices

abbrev pub fresh_token : Environment → ℕ → ℕ → Draw → RefreshToken
fresh_token env now user_id draw = record {
  user_id = user_id;
  family_id = draw.family_id;
  expires_at = now + env.refresh_ttl_days * day;
  revoked_at = none;
  replaced_by = none;
}

abbrev pub logged_in_user : User → User
logged_in_user user = record user { failed_login_count = 0; locked_until = none }

abbrev pub must_change : ℕ → User → Bool
must_change now user =
    if user.must_change_password then true else is_before now user.password_expires_at

-- `completeSuccessfulLogin`. A token hash that exists already is an exception at the first write.
unfoldable pub complete_login :
    Environment → ℕ → Draw → ℕ → User → Option ℕ → Bool → Bool → AuthDb → AuthDb × Answer
complete_login env now draw user_id user fingerprint trust_device mfa_was_verified db =
    if is_some (get draw.token_hash db.tokens) then (db, Answer.refused 500) else (
      record_login_attempt user_id LoginResult.success (record db {
        tokens = set draw.token_hash (fresh_token env now user_id draw) db.tokens;
        users = set user_id (logged_in_user user) db.users;
        devices = see_device now user_id fingerprint trust_device mfa_was_verified db.devices;
      }),
      Answer.session user_id (must_change now user),
    )
