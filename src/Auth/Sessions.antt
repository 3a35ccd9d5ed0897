-- ===== src/Auth/Sessions.antt =====
-- Refresh tokens: `/refresh` and `/logout` of api/src/routes/auth.routes.ts, and `/users/:id/suspend`
-- and `/users/:id/reinstate` of api/src/routes/institution.routes.ts, each without interruption.
pub mod Rotation
pub mod Reuse
use nexus_efos.Common.{
  ℕ, Bool, true, false, not, ◌&&◌, ◌||◌, Option, none, some, List, [], ◌∷◌, ltb, ◌==◌,
  if◌then◌else◌,
}
use nexus_efos.Common.Table.{Table, get, set}
use nexus_efos.Auth.{User, UserStatus, Answer, RefreshToken, AuthDb, is_active, is_after, is_some}

-- `refreshToken.updateMany({ where: { …, revokedAt: null } })`
abbrev pub revoke_if : ℕ → (RefreshToken → Bool) → RefreshToken → RefreshToken
revoke_if now selects token =
    if selects token && not (is_some token.revoked_at)
    then record token { revoked_at = some now }
    else token

abbrev pub revoke_all : ℕ → (RefreshToken → Bool) → Table RefreshToken → Table RefreshToken
revoke_all now selects [] = []
revoke_all now selects ((hash, token) ∷ tokens) =
    (hash, revoke_if now selects token) ∷ revoke_all now selects tokens

abbrev pub is_in_family : ℕ → RefreshToken → Bool
is_in_family family token = token.family_id == family

abbrev pub rotated : ℕ → ℕ → RefreshToken → RefreshToken
rotated now new_hash token = record token { revoked_at = some now; replaced_by = some new_hash }

abbrev pub successor : RefreshToken → RefreshToken
successor token = record token { revoked_at = none; replaced_by = none }

abbrev pub may_refresh : ℕ → Option User → Bool
may_refresh now none = false
may_refresh now (some user) =
    is_active user.status && not (is_after now user.locked_until) && not user.must_change_password

-- The answer says whether a session was renewed.
abbrev pub rotate : ℕ → ℕ → ℕ → RefreshToken → Table RefreshToken → Table RefreshToken × Bool
rotate now new_hash hash token tokens =
    if is_some (get new_hash tokens)
    then (tokens, false)
    else (set hash (rotated now new_hash token) (set new_hash (successor token) tokens), true)

abbrev pub refresh_row :
    ℕ → ℕ → ℕ → Bool → Option RefreshToken → Table RefreshToken → Table RefreshToken × Bool
refresh_row now new_hash hash allowed none tokens = (tokens, false)
refresh_row now new_hash hash allowed (some token) tokens =
    if is_some token.replaced_by
    then (revoke_all now (is_in_family token.family_id) tokens, false)
    else (if is_some token.revoked_at || ltb token.expires_at now || not allowed
        then (tokens, false)
        else rotate now new_hash hash token tokens)

-- Whether the user of the token is in a state to refresh it.
abbrev pub user_may_refresh : ℕ → Option RefreshToken → AuthDb → Bool
user_may_refresh now none db = false
user_may_refresh now (some token) db = may_refresh now (get token.user_id db.users)

unfoldable pub refresh : ℕ → ℕ → ℕ → AuthDb → AuthDb × Bool
refresh now new_hash hash db =
    let stored = get hash db.tokens in
    let result = refresh_row now new_hash hash (user_may_refresh now stored db) stored db.tokens in
    (record db { tokens = result.0 }, result.1)

abbrev pub logout_row : ℕ → ℕ → Option RefreshToken → Table RefreshToken → Table RefreshToken
logout_row now hash none tokens = tokens
logout_row now hash (some token) tokens = set hash (record token { revoked_at = some now }) tokens

unfoldable pub logout : ℕ → ℕ → AuthDb → AuthDb
logout now hash db = record db { tokens = logout_row now hash (get hash db.tokens) db.tokens }

abbrev pub suspend_row : ℕ → ℕ → Option User → AuthDb → AuthDb × Answer
suspend_row now user_id none db = (db, Answer.refused 404)
suspend_row now user_id (some user) db = (
  record db {
    users = set user_id (record user { status = UserStatus.suspended }) db.users;
    tokens = revoke_all now (λ (token : RefreshToken). token.user_id == user_id) db.tokens;
  },
  Answer.done,
)

unfoldable pub suspend : ℕ → ℕ → AuthDb → AuthDb × Answer
suspend now user_id db = suspend_row now user_id (get user_id db.users) db

abbrev pub reinstate_row : ℕ → Option User → AuthDb → AuthDb × Answer
reinstate_row user_id none db = (db, Answer.refused 404)
reinstate_row user_id (some user) db = (
  record db { users = set user_id (record user { status = UserStatus.active }) db.users },
  Answer.done,
)

unfoldable pub reinstate : ℕ → AuthDb → AuthDb × Answer
reinstate user_id db = reinstate_row user_id (get user_id db.users) db
