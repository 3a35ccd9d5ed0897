-- ===== src/Auth/Factors.antt =====
-- The second factor: every request that can open a session or change the devices, among other changes.
pub mod Outcomes
pub mod Enforced
use nexus_efos.Common.{
  ℕ, Bool, true, false, ◌&&◌, ◌||◌, Option, none, some, List, [], ◌∷◌, any, ◌==◌, if◌then◌else◌,
}
use nexus_efos.Common.Table.{Table, get}
use nexus_efos.Auth.{Text, Environment, User, UserMfa, UserRole, RefreshToken, AuthDb, Answer, Draw}
use nexus_efos.Auth.Secrets.{normal_code}
use nexus_efos.Auth.Enrolment.{
  EnrolmentDraw, check_totp, mfa_setup, mfa_verify, mfa_disable, revoke_device,
}
use nexus_efos.Auth.Login.{
  LoginRequest, MfaRequest, login, login_mfa, setup_required, verify_required,
}

-- `others` is whatever else happens to the users, factors, roles and tokens.
pub data Request : Type 0 where
  sign_in : Draw → LoginRequest → Request
  sign_in_mfa : Draw → MfaRequest → Request
  set_up_required : EnrolmentDraw → ℕ → Request
  confirm_required : Draw → List (ℕ × Text) → MfaRequest → Request
  set_up : EnrolmentDraw → ℕ → Request
  confirm : List (ℕ × Text) → Text → ℕ → Request
  disable : Text → ℕ → Request
  revoke : ℕ → ℕ → Request
  others : Table User → Table UserMfa → List UserRole → Table RefreshToken → Request

unfoldable pub handle : Environment → ℕ → Request → AuthDb → AuthDb × Answer
handle env now (sign_in draw request) db = login env now draw request db
handle env now (sign_in_mfa draw request) db = login_mfa env now draw request db
handle env now (set_up_required draw token) db = setup_required env now draw token db
handle env now (confirm_required draw codes request) db =
    verify_required env now draw codes request db
handle env now (set_up draw user_id) db = mfa_setup env draw user_id db
handle env now (confirm codes code user_id) db = mfa_verify env now codes code user_id db
handle env now (disable password user_id) db = mfa_disable env password user_id db
handle env now (revoke user_id fingerprint) db = revoke_device user_id fingerprint db
handle env now (others users mfas roles tokens) db =
    (record db { users = users; mfas = mfas; user_roles = roles; tokens = tokens }, Answer.done)

abbrev pub fingerprint_of : Request → Option ℕ
fingerprint_of (sign_in draw request) = request.fingerprint
fingerprint_of (sign_in_mfa draw request) = request.fingerprint
fingerprint_of (confirm_required draw codes request) = request.fingerprint
fingerprint_of _ = none

-- A code is right for a factor if its secret yields it or one of the backup codes is it.
abbrev pub is_yes : Option Bool → Bool
is_yes none = false
is_yes (some b) = b

abbrev pub is_right : Environment → ℕ → Text → UserMfa → Bool
is_right env now code mfa =
    is_yes (check_totp env now code mfa)
    || any (λ h. env.compare_hash (normal_code code) h) mfa.backup_codes_hashed

abbrev pub is_right_for : Environment → ℕ → Text → Option UserMfa → Bool
is_right_for env now code none = false
is_right_for env now code (some mfa) = is_right env now code mfa

abbrev pub proof_of : Environment → ℕ → Text → AuthDb → Option ℕ → Option ℕ
proof_of env now code db none = none
proof_of env now code db (some user_id) =
    if is_right_for env now code (get user_id db.mfas) then some user_id else none

-- The user whose second factor the request proves.
abbrev pub proved_user : Environment → ℕ → Request → AuthDb → Option ℕ
proved_user env now (sign_in_mfa draw request) db =
    proof_of env now request.code db (env.pending_user now request.pending_token)
proved_user env now (confirm_required draw codes request) db =
    proof_of env now request.code db (env.pending_user now request.pending_token)
proved_user env now _ db = none

-- The users and fingerprints of the requests that proved a second factor.
abbrev pub note_proof : Option ℕ → Option ℕ → List (ℕ × ℕ) → List (ℕ × ℕ)
note_proof none fingerprint proofs = proofs
note_proof (some user_id) none proofs = proofs
note_proof (some user_id) (some fingerprint) proofs = (user_id, fingerprint) ∷ proofs

abbrev pub was_proved : ℕ → ℕ → List (ℕ × ℕ) → Bool
was_proved user_id fingerprint proofs =
    any (λ (p : ℕ × ℕ). p.0 == user_id && p.1 == fingerprint) proofs

unfoldable pub run :
    Environment → List (ℕ × Request) → AuthDb × List (ℕ × ℕ) → AuthDb × List (ℕ × ℕ)
run env [] (db, proofs) = (db, proofs)
run env ((now, r) ∷ requests) (db, proofs) =
    run env requests
      ((handle env now r db).0, note_proof (proved_user env now r db) (fingerprint_of r) proofs)
