-- ===== src/Auth/Sessions/Rotation.antt =====
-- Sessions over time. A family is what one sign-in starts.
use nexus_efos.Common.{
  ℕ, ◌+◌, ◌≡◌, ◌≢◌, ◌≤◌, refl, sym, ap, ◌∙◌, Bool, false, not, ◌&&◌, ◌||◌, Option, none, some, List,
  [], ◌∷◌, ltb, ◌==◌, if◌then◌else◌, arith, Bool-cases, Option-cases, inl, inr, count,
}
use nexus_efos.Common.Table.{Table, get, set, get-set_ne}
use nexus_efos.Auth.{
  Environment, User, RefreshToken, AuthDb, Draw, is_some, fresh_token, complete_login,
}
use nexus_efos.Auth.Sessions.{
  revoke_if, revoke_all, is_in_family, rotated, successor, rotate, refresh_row, user_may_refresh,
  refresh, logout_row, logout, suspend_row, suspend, reinstate_row, reinstate,
}

-- What happens to the tokens; `others` is any other change of the users.
pub data Event : Type 0 where
  signed_in : Draw → ℕ → User → Event
  refreshed : ℕ → ℕ → Event
  logged_out : ℕ → Event
  suspended reinstated : ℕ → Event
  others : Table User → Event

unfoldable pub happen : Environment → ℕ → Event → AuthDb → AuthDb
happen env now (signed_in draw user_id user) db =
    (complete_login env now draw user_id user none false false db).0
happen env now (refreshed new_hash hash) db = (refresh now new_hash hash db).0
happen env now (logged_out hash) db = logout now hash db
happen env now (suspended user_id) db = (suspend now user_id db).0
happen env now (reinstated user_id) db = (reinstate user_id db).0
happen env now (others users) db = record db { users = users }

unfoldable pub history : Environment → List (ℕ × Event) → AuthDb → AuthDb
history env [] db = db
history env ((now, e) ∷ events) db = history env events (happen env now e db)

-- The families that sign-ins start.
abbrev pub families : List (ℕ × Event) → List ℕ
families [] = []
families ((now, signed_in draw user_id user) ∷ events) = draw.family_id ∷ families events
families ((now, refreshed new_hash hash) ∷ events) = families events
families ((now, logged_out hash) ∷ events) = families events
families ((now, suspended user_id) ∷ events) = families events
families ((now, reinstated user_id) ∷ events) = families events
families ((now, others users) ∷ events) = families events

-- 1 for a token of the family that is neither revoked nor replaced.
abbrev pub live : ℕ → RefreshToken → ℕ
live family token =
    if token.family_id == family && not (is_some token.revoked_at || is_some token.replaced_by)
    then 1
    else 0

abbrev pub live_row : ℕ → Option RefreshToken → ℕ
live_row family none = 0
live_row family (some token) = live family token

abbrev pub live_count : ℕ → Table RefreshToken → ℕ
live_count family [] = 0
live_count family ((hash, token) ∷ tokens) = live family token + live_count family tokens

live_count-set :
    (family k : ℕ) (v : RefreshToken) (t : Table RefreshToken)
    → live_count family (set k v t) + live_row family (get k t)
      ≡ live_count family t + live family v
live_count-set family k v [] = omega arith
live_count-set family k v ((j, w) ∷ t) = elim (Bool-cases (k == j)) [
  | inl same ↦ rw same (omega arith)
  | inr other ↦ rw other (omega (arith, live_count-set family k v t))
]

live_revoked :
    (now f : ℕ) (selects : RefreshToken → Bool) (token : RefreshToken)
    → live f (revoke_if now selects token) ≤ live f token
live_revoked now f selects token = elim (Bool-cases (selects token)) [
  | inr other ↦ simp other (omega arith)
  | inl selected ↦ elim (Option-cases token.revoked_at) [
    | inl live_now ↦ simp (selected, live_now) (ground arith)
    | inr (t, revoked) ↦ simp (selected, revoked) (ground arith)
  ]
]

revoke_all-live :
    (now f : ℕ) (selects : RefreshToken → Bool) (t : Table RefreshToken)
    → live_count f (revoke_all now selects t) ≤ live_count f t
revoke_all-live now f selects [] = omega arith
revoke_all-live now f selects ((hash, token) ∷ t) =
    omega (arith, live_revoked now f selects token, revoke_all-live now f selects t)

live_revoked_family :
    (now family : ℕ) (token : RefreshToken)
    → live family (revoke_if now (is_in_family family) token) ≡ 0
live_revoked_family now family token = elim (Option-cases token.revoked_at) [
  | inl live_now ↦ simp live_now (ground arith)
  | inr (t, revoked) ↦ simp revoked (ground arith)
]

pub revoke_family-live :
    (now family : ℕ) (t : Table RefreshToken)
    → live_count family (revoke_all now (is_in_family family) t) ≡ 0
revoke_family-live now family [] = refl
revoke_family-live now family ((hash, token) ∷ t) =
    omega (arith, live_revoked_family now family token, revoke_family-live now family t)

-- No refresh adds a live token to a family.
rotate-live :
    (now new_hash hash f : ℕ) (token : RefreshToken) (t : Table RefreshToken)
    → get hash t ≡ some token
    → token.revoked_at ≡ none
    → token.replaced_by ≡ none
    → live_count f (rotate now new_hash hash token t).0 ≤ live_count f t
rotate-live now new_hash hash f token t stored unrevoked unreplaced =
    elim (Option-cases (get new_hash t)) [
      | inr (taken, e) ↦ rw e (omega arith)
      | inl fresh ↦
          let t' : Table RefreshToken = set new_hash (successor token) t in
          let kept : get hash t' ≡ some token =
            get-set_ne hash new_hash (successor token) t (not_new fresh) ∙ stored in
          rw fresh (
            omega (
              arith,
              live_count-set f hash (rotated now new_hash token) t',
              live_count-set f new_hash (successor token) t,
              ap (live_row f) kept,
              ap (live_row f) fresh,
              spent,
              live_same,
            ))
    ]
  where
    not_new : get new_hash t ≡ none → hash ≢ new_hash
    not_new fresh same = none_some (sym fresh ∙ rw same at stored)
      where
        none_some : none ≢ some token
        none_some e = cc

    spent : live f (rotated now new_hash token) ≡ 0
    spent = ground arith

    live_same : live f (successor token) ≡ live f token
    live_same = simp (unrevoked, unreplaced)

refresh_row-live :
    (now new_hash hash f : ℕ) (allowed : Bool) (o : Option RefreshToken) (t : Table RefreshToken)
    → get hash t ≡ o
    → live_count f (refresh_row now new_hash hash allowed o t).0 ≤ live_count f t
refresh_row-live now new_hash hash f allowed none t stored = omega arith
refresh_row-live now new_hash hash f allowed (some token) t stored =
    elim (Option-cases token.replaced_by) [
      | inr (r, replaced) ↦ rw replaced (revoke_all-live now f (is_in_family token.family_id) t)
      | inl unreplaced ↦ elim (Option-cases token.revoked_at) [
        | inr (r, revoked) ↦ rw (unreplaced, revoked) (omega arith)
        | inl unrevoked ↦ elim (Bool-cases (ltb token.expires_at now || not allowed)) [
          | inl refused ↦ rw (unreplaced, unrevoked, refused) (omega arith)
          | inr renewed ↦
              rw (unreplaced, unrevoked, renewed)
                (rotate-live now new_hash hash f token t stored unrevoked unreplaced)
        ]
      ]
    ]

logout_row-live :
    (now hash f : ℕ) (o : Option RefreshToken) (t : Table RefreshToken)
    → get hash t ≡ o
    → live_count f (logout_row now hash o t) ≤ live_count f t
logout_row-live now hash f none t stored = omega arith
logout_row-live now hash f (some token) t stored = omega (
  arith,
  live_count-set f hash (record token { revoked_at = some now }) t,
  ap (live_row f) stored,
  spent,
)
  where
    spent : live f (record token { revoked_at = some now }) ≡ 0
    spent = ground arith

suspend_row-live :
    (now user_id f : ℕ) (o : Option User) (db : AuthDb)
    → live_count f (suspend_row now user_id o db).0.tokens ≤ live_count f db.tokens
suspend_row-live now user_id f none db = omega arith
suspend_row-live now user_id f (some user) db =
    revoke_all-live now f (λ (token : RefreshToken). token.user_id == user_id) db.tokens

pub reinstate_row-tokens :
    (user_id : ℕ) (o : Option User) (db : AuthDb)
    → (reinstate_row user_id o db).0.tokens ≡ db.tokens
reinstate_row-tokens user_id none db = refl
reinstate_row-tokens user_id (some user) db = refl

signed_in-live :
    (env : Environment) (now : ℕ) (draw : Draw) (user_id : ℕ) (user : User) (f : ℕ) (db : AuthDb)
    → live_count f (happen env now (signed_in draw user_id user) db).tokens
      ≤ live_count f db.tokens + count f (draw.family_id ∷ [])
unfolding happen complete_login
signed_in-live env now draw user_id user f db =
    elim (Option-cases (get draw.token_hash db.tokens)) [
      | inr (taken, e) ↦ rw (e, live_count) (omega arith)
      | inl fresh ↦
          rw (fresh, live_count)
            (omega (
              arith,
              live_count-set f draw.token_hash (fresh_token env now user_id draw) db.tokens,
              ap (live_row f) fresh,
              started,
            ))
    ]
  where
    started : live f (fresh_token env now user_id draw) ≡ count f (draw.family_id ∷ [])
    started = ground arith

-- Only a sign-in adds a live token to a family, its own.
happen-live :
    (env : Environment) (now : ℕ) (e : Event) (events : List (ℕ × Event)) (f : ℕ) (db : AuthDb)
    → live_count f (happen env now e db).tokens + count f (families events)
      ≤ live_count f db.tokens + count f (families ((now, e) ∷ events))
happen-live env now (signed_in draw user_id user) events f db =
    omega (arith, signed_in-live env now draw user_id user f db)
happen-live env now (refreshed new_hash hash) events f db =
    unfold happen refresh in
    (omega (
      arith,
      refresh_row-live now new_hash hash f (user_may_refresh now (get hash db.tokens) db)
          (get hash db.tokens) db.tokens refl,
    ))
happen-live env now (logged_out hash) events f db =
    unfold happen logout in
    (omega (arith, logout_row-live now hash f (get hash db.tokens) db.tokens refl))
happen-live env now (suspended user_id) events f db =
    unfold happen suspend in
    (omega (arith, suspend_row-live now user_id f (get user_id db.users) db))
happen-live env now (reinstated user_id) events f db =
    unfold happen reinstate in
    (rw (reinstate_row-tokens user_id (get user_id db.users) db) (omega arith))
happen-live env now (others users) events f db = unfold happen in (omega arith)

-- Whatever signing in, refreshing, signing out, suspending and reinstating there is, in any order,
-- the tokens of a family that are neither revoked nor replaced are no more than there were, and one more for
-- each sign-in that started the family: so one at most, where the families differ.
pub live_tokens_bounded :
    (env : Environment) (events : List (ℕ × Event)) (f : ℕ) (db : AuthDb)
    → live_count f (history env events db).tokens
      ≤ live_count f db.tokens + count f (families events)
unfolding history
live_tokens_bounded env [] f db = omega arith
live_tokens_bounded env ((now, e) ∷ events) f db = omega (
  arith,
  happen-live env now e events f db,
  live_tokens_bounded env events f (happen env now e db),
)
