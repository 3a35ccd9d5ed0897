-- ===== src/Auth/Passwords.antt =====
-- Passwords: `/accept-invite` and `/change-password` of api/src/routes/auth.routes.ts.
pub mod History
use nexus_efos.Common.{
  ℕ, zero, suc, Bool, true, false, not, ◌&&◌, ◌||◌, Option, none, some, List, [], ◌∷◌, any, length,
  leb, ltb, ◌==◌, if◌then◌else◌,
}
use nexus_efos.Common.Table.{Table, get, set}
use nexus_efos.Auth.{
  Text, Environment, User, UserStatus, AuthDb, Answer, password_min_length, password_history_depth,
  password_expiry_date, validate_password_length, is_current,
}

abbrev pub is_invited : UserStatus → Bool
is_invited UserStatus.invited = true
is_invited _ = false

abbrev pub has_token : ℕ → Option ℕ → Bool
has_token token none = false
has_token token (some t) = t == token

abbrev pub find_invited : ℕ → Table User → Option (ℕ × User)
find_invited token [] = none
find_invited token ((id, user) ∷ users) =
    let rest = find_invited token users in
    if has_token token user.invite_token && is_invited user.status then some (id, user) else rest

abbrev pub is_expired : ℕ → Option ℕ → Bool
is_expired now none = true
is_expired now (some t) = ltb t now

abbrev pub with_password : ℕ → ℕ → User → User
with_password now hash user = record user {
  password_hash = hash;
  password_expires_at = some (password_expiry_date now);
  must_change_password = false;
}

abbrev pub accept_row : Environment → ℕ → ℕ → Text → Option (ℕ × User) → AuthDb → AuthDb × Answer
accept_row env now salt password none db = (db, Answer.refused 404)
accept_row env now salt password (some (id, user)) db =
    if is_expired now user.invite_token_expires_at then (db, Answer.refused 410) else (
      record db {
        users =
            set id
              (record (with_password now (env.hash_password salt password) user) {
                status = UserStatus.active;
                invite_token = none;
                invite_token_expires_at = none;
              })
              db.users;
      },
      Answer.done,
    )

-- The token has at least ten characters, which the schema of the request checks, and is a number here.
unfoldable pub accept_invite : Environment → ℕ → ℕ → ℕ → Text → AuthDb → AuthDb × Answer
accept_invite env now salt token password db =
    if validate_password_length password
    then accept_row env now salt password (find_invited token db.users) db
    else (db, Answer.refused 400)

abbrev pub take {ℓ} : {A : Type ℓ} → ℕ → List A → List A
take zero xs = []
take (suc n) [] = []
take (suc n) (x ∷ xs) = x ∷ take n xs

-- `isPasswordReused`, over the current hash and the recent ones.
unfoldable pub is_password_reused : Environment → Text → List ℕ → Bool
is_password_reused env password hashes = any (λ h. env.compare_hash password h) hashes

pub record PasswordChange : Type 0 where
  pub current_password : Text
  pub new_password : Text
  pub salt : ℕ

abbrev pub push_history : ℕ → ℕ → (ℕ → List ℕ) → ℕ → List ℕ
push_history user_id hash history u = if u == user_id then hash ∷ history u else history u

abbrev pub changed : Environment → ℕ → PasswordChange → ℕ → User → AuthDb → AuthDb
changed env now request user_id user db = record db {
  password_history = push_history user_id user.password_hash db.password_history;
  users =
      set user_id (with_password now (env.hash_password request.salt request.new_password) user)
        db.users;
}

abbrev pub change_row :
    Environment → ℕ → PasswordChange → ℕ → Option User → AuthDb → AuthDb × Answer
change_row env now request user_id none db = (db, Answer.refused 404)
change_row env now request user_id (some user) db =
    if env.compare_hash request.current_password user.password_hash
    then (if env.compare_hash request.new_password user.password_hash
          || is_password_reused env request.new_password
              (take password_history_depth (db.password_history user_id))
        then (db, Answer.refused 400)
        else (changed env now request user_id user db, Answer.done))
    else (db, Answer.refused 401)

unfoldable pub change_password : Environment → ℕ → PasswordChange → ℕ → AuthDb → AuthDb × Answer
change_password env now request user_id db =
    if validate_password_length request.new_password
    then change_row env now request user_id (get user_id db.users) db
    else (db, Answer.refused 400)
