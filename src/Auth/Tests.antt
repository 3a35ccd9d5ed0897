-- ===== src/Auth/Tests.antt =====
-- One user at work: the second factor on a trusted device, a stolen refresh token, guessing, changes
-- of the password, and an encrypted secret.
use nexus_efos.Common.{
  ℕ, zero, suc, ◌+◌, ◌*◌, ◌-◌, ◌≤◌, ◌≡◌, ◌≢◌, ◌⊎◌, refl, ap, ap₂, ◌∙◌, true, false, none, some,
  List, [], ◌∷◌, map, ◌==◌, if◌then◌else◌, arith, All, count, ==_iff,
}
use nexus_efos.Auth.{
  Text, Environment, User, UserStatus, UserMfa, UserRole, RefreshToken, AuthDb, Draw,
  failed_attempt_threshold, complete_login,
}
use nexus_efos.Auth.Secrets.{
  IsSound, AreBytes, is_empty, encrypt_secret, decrypt_secret, decrypt-encrypt, colon,
}
use nexus_efos.Auth.Login.{LoginRequest, MfaRequest, login, login_mfa, check_code}
use nexus_efos.Auth.Passwords.{PasswordChange, change_password, is_password_reused}
use nexus_efos.Auth.Passwords.History.{changes, no_quick_return}
use nexus_efos.Auth.Sessions.{refresh}
use nexus_efos.Auth.Sessions.Rotation.{
  Event, signed_in, refreshed, history, families, live_count, live_tokens_bounded,
}
use nexus_efos.Auth.Sessions.Reuse.{reuse_ends_family}
use nexus_efos.Auth.Factors.{
  Request, sign_in, sign_in_mfa, handle, fingerprint_of, proved_user, was_proved, run,
}
use nexus_efos.Auth.Factors.Enforced.{second_factor_required}
use nexus_efos.Auth.Lockout.{Guess, of_password, attempt, tests, five_guesses}

abbrev encode : Text → ℕ
encode [] = 0
encode (c ∷ t) = c + 1 + 1000 * encode t

abbrev env : Environment
env = record {
  compare_hash = λ p h. encode p == h;
  hash_password = λ salt p. encode p;
  verify_totp = λ now code secret. encode code == encode secret;
  pending_user = λ now token. some token;
  seal = λ iv t. (t, 1 ∷ []);
  unseal = λ iv tag t. some t;
  to_utf8 = λ t. t;
  from_utf8 = λ t. t;
  to_hex = map (λ c. c + 59);
  from_hex = map (λ c. c - 59);
  refresh_ttl_days = 30;
}

abbrev six_digits : Text
six_digits = 49 ∷ 49 ∷ 49 ∷ 49 ∷ 49 ∷ 49 ∷ []

abbrev password : ℕ → Text
password n = n ∷ 2 ∷ 3 ∷ 4 ∷ 5 ∷ 6 ∷ 7 ∷ 8 ∷ 9 ∷ 10 ∷ 11 ∷ 12 ∷ []

abbrev user : User
user = record {
  institution_id = 1;
  email = 5;
  password_hash = encode (password 1);
  status = UserStatus.active;
  mfa_enabled = true;
  failed_login_count = 0;
  locked_until = none;
  password_expires_at = none;
  must_change_password = false;
  invite_token = none;
  invite_token_expires_at = none;
}

abbrev factor : UserMfa
factor = record {
  secret_encrypted = 159 ∷ 58 ∷ 60 ∷ 58 ∷ 108 ∷ 108 ∷ 108 ∷ 108 ∷ 108 ∷ 108 ∷ [];
  backup_codes_hashed = [];
  verified_at = some 0;
}

abbrev role : UserRole
role = record { user_id = 1; expires_at = none; require_mfa = true }

abbrev db : AuthDb
db = record {
  users = (1, user) ∷ [];
  mfas = (1, factor) ∷ [];
  devices = λ u f. none;
  user_roles = role ∷ [];
  tokens = [];
  password_history = λ u. [];
  login_history = [];
}

abbrev draw : ℕ → ℕ → Draw
draw hash family = record { token_hash = hash; family_id = family }

abbrev login_request : ℕ → LoginRequest
login_request n = record {
  institution_id = none;
  email = 5;
  password = password n;
  fingerprint = some 9;
  trust_device = false;
}

abbrev mfa_request : MfaRequest
mfa_request = record {
  pending_token = 1;
  code = six_digits;
  fingerprint = some 9;
  trust_device = true;
}

abbrev first_requests : List (ℕ × Request)
first_requests = (10, sign_in_mfa (draw 100 1) mfa_request) ∷ []

abbrev second_request : Request
second_request = sign_in (draw 101 2) (login_request 1)

-- The device is trusted after the code was right on it.
second_factor_required_example :
    (proved_user env 20 second_request (run env first_requests (db, [])).0 ≡ some 1)
    ⊎ ((f : ℕ) × (fingerprint_of second_request ≡ some f)
        × (was_proved 1 f (run env first_requests (db, [])).1 ≡ true))
unfolding run handle login login_mfa complete_login check_code decrypt_secret
second_factor_required_example =
    second_factor_required env first_requests 20 second_request db (run env first_requests (db, []))
      1 false (λ v f. refl) refl refl refl

abbrev sign_ins : List (ℕ × Event)
sign_ins = (1, signed_in (draw 100 1) 1 user) ∷ (2, refreshed 101 100) ∷ (3, refreshed 102 101) ∷ []

live_tokens_bounded_example :
    live_count 1 (history env sign_ins db).tokens
    ≤ live_count 1 db.tokens + count 1 (families sign_ins)
live_tokens_bounded_example = live_tokens_bounded env sign_ins 1 db

abbrev token : RefreshToken
token = record {
  user_id = 1;
  family_id = 1;
  expires_at = 1000;
  revoked_at = none;
  replaced_by = none;
}

abbrev with_token : AuthDb
with_token = record db { tokens = (100, token) ∷ [] }

abbrev afterwards : AuthDb
afterwards = history env [] (refresh 3 102 100 (refresh 2 101 100 with_token).0).0

reuse_ends_family_example :
    ((refresh 3 102 100 (refresh 2 101 100 with_token).0).1 ≡ false)
    × ((refresh 4 103 101 afterwards).1 ≡ false)
unfolding refresh history
reuse_ends_family_example =
    reuse_ends_family env 2 101 100 with_token token [] (refresh 2 101 100 with_token).0 3 102 []
      afterwards 4 103 101 (record token { revoked_at = some 3 }) refl refl refl refl refl refl refl

abbrev guesses : List (ℕ × Guess)
guesses =
    (1, of_password (draw 1 1) (login_request 2))
    ∷ (2, of_password (draw 1 1) (login_request 3))
    ∷ []

five_guesses_example : tests env guesses db ≤ failed_attempt_threshold
unfolding attempt login
five_guesses_example =
    five_guesses env 1 0 guesses user db refl
      (refl, refl, omega arith, omega arith, (refl, refl, omega arith, omega arith, tt))

abbrev change : ℕ → ℕ → PasswordChange
change n m = record { current_password = password n; new_password = password m; salt = 0 }

abbrev changed_db : AuthDb
changed_db = (change_password env 2 (change 2 3) 1 (change_password env 1 (change 1 2) 1 db).0).0

no_quick_return_example : (change 2 3).new_password ≢ (change 1 2).new_password
unfolding changes change_password is_password_reused
no_quick_return_example =
    no_quick_return env (λ salt p. (==_iff (encode p) (encode p)).1 refl) 1 1 2 (change 1 2) []
      (change 2 3) db changed_db (omega arith) refl

shifted-All : (t : Text) → All (λ c. (c == colon) ≡ false) (map (λ c. c + 59) t)
shifted-All [] = tt
shifted-All (c ∷ t) = (ground arith, shifted-All t)

shifted_back : (t : Text) → map (λ c. c - 59) (map (λ c. c + 59) t) ≡ t
shifted_back [] = refl
shifted_back (c ∷ t) = ap₂ (λ x xs. x ∷ xs) (omega arith) (shifted_back t)

shifted_non_empty : (t : Text) → t ≢ [] → map (λ c. c + 59) t ≢ []
shifted_non_empty [] h e = h refl
shifted_non_empty (c ∷ t) h e = cc

-- A toy for UTF-8: a code is as many zeros, and a one.
abbrev unary : ℕ → Text → Text
unary zero rest = 1 ∷ rest
unary (suc n) rest = 0 ∷ unary n rest

abbrev to_unary : Text → Text
to_unary [] = []
to_unary (c ∷ t) = unary c (to_unary t)

abbrev from_unary : ℕ → Text → Text
from_unary n [] = []
from_unary n (b ∷ t) = if b == 0 then from_unary (suc n) t else n ∷ from_unary 0 t

abbrev secret_env : Environment
secret_env = record env { to_utf8 = to_unary; from_utf8 = from_unary 0 }

unary-AreBytes : (c : ℕ) (t : Text) → AreBytes t → AreBytes (unary c t)
unary-AreBytes zero t h = (omega arith, h)
unary-AreBytes (suc c) t h = (omega arith, unary-AreBytes c t h)

to_unary-AreBytes : (t : Text) → AreBytes (to_unary t)
to_unary-AreBytes [] = tt
to_unary-AreBytes (c ∷ t) = unary-AreBytes c (to_unary t) (to_unary-AreBytes t)

from_unary_code : (n c : ℕ) (t : Text) → from_unary n (unary c t) ≡ (n + c) ∷ from_unary 0 t
from_unary_code n zero t = ap (λ m. m ∷ from_unary 0 t) (omega arith)
from_unary_code n (suc c) t =
    from_unary_code (suc n) c t ∙ ap (λ m. m ∷ from_unary 0 t) (omega arith)

unary_back : (t : Text) → from_unary 0 (to_unary t) ≡ t
unary_back [] = refl
unary_back (c ∷ t) =
    from_unary_code 0 c (to_unary t) ∙ ap₂ (λ x u. x ∷ u) (omega arith) (unary_back t)

unary_non_empty : (c : ℕ) (t : Text) → unary c t ≢ []
unary_non_empty zero t e = cc
unary_non_empty (suc c) t e = cc

to_unary_non_empty : (t : Text) → t ≢ [] → to_unary t ≢ []
to_unary_non_empty [] h e = h refl
to_unary_non_empty (c ∷ t) h e = unary_non_empty c (to_unary t) e

secret_env-IsSound : IsSound secret_env
secret_env-IsSound = record {
  hex_digits = shifted-All;
  hex_non_empty = shifted_non_empty;
  hex_back = λ t h. shifted_back t;
  hex_of_empty = refl;
  utf8-AreBytes = to_unary-AreBytes;
  utf8_back = λ t h. unary_back t;
  utf8_of_empty = refl;
  utf8_non_empty = to_unary_non_empty;
  sealed-AreBytes = λ iv t i b n. b;
  tag-AreBytes = λ iv t i b n. (omega arith, tt);
  tag_non_empty = λ iv t i b n e. cc;
  length_kept = λ iv t i b n. refl;
  opened = λ iv t i b n. refl;
}

-- A text with a character that is more than one byte.
abbrev accented : Text
accented = 233 ∷ 49 ∷ []

decrypt-encrypt_example :
    decrypt_secret secret_env (encrypt_secret secret_env (100 ∷ []) accented)
    ≡ (if is_empty accented then none else some accented)
decrypt-encrypt_example =
    decrypt-encrypt secret_env secret_env-IsSound (100 ∷ []) (omega arith, tt) (λ e. cc) accented
      refl
