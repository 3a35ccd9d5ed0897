-- ===== src/Auth/Sessions/Reuse.antt =====
-- A refresh token that is presented again after it was rotated away.
use nexus_efos.Common.{
  ℕ, ◌≤◌, ◌≡◌, ◌≢◌, refl, ap, subst, Bool, true, false, not, ◌&&◌, ◌||◌, Option, none, some, List,
  [], ◌∷◌, ltb, ◌==◌, arith, Bool-cases, Option-cases, inl, inr, count, ==_iff,
}
use nexus_efos.Common.Table.{Table, get, set, get-set, get-set_self}
use nexus_efos.Auth.{
  Environment, User, RefreshToken, AuthDb, Draw, is_some, fresh_token, complete_login,
}
use nexus_efos.Auth.Sessions.{
  revoke_if, revoke_all, is_in_family, rotated, successor, rotate, refresh_row, user_may_refresh,
  refresh, logout_row, logout, suspend_row, suspend, reinstate,
}
use nexus_efos.Auth.Sessions.Rotation.{
  Event, signed_in, refreshed, logged_out, suspended, reinstated, others, happen, history, families,
  live, live_row, live_count, revoke_family-live, reinstate_row-tokens, live_tokens_bounded,
}

abbrev IsRotatedRow : ℕ → Option RefreshToken → Type 0
IsRotatedRow f none = ⊥
IsRotatedRow f (some token) = (token.family_id ≡ f) × (is_some token.replaced_by ≡ true)

-- The token is of the family and was rotated away.
abbrev IsRotated : ℕ → ℕ → Table RefreshToken → Type 0
IsRotated h f tokens = IsRotatedRow f (get h tokens)

module _ (h f : ℕ) where
  -- A write under a key that was free, or of a row that is rotated too.
  fresh-IsRotated :
      (k : ℕ) (v : RefreshToken) (t : Table RefreshToken)
      → get k t ≡ none
      → IsRotated h f t
      → IsRotated h f (set k v t)
  fresh-IsRotated k v t fresh rot = elim (Bool-cases (h == k)) [
    | inr other ↦ rw (get-set h k v t, other) rot
    | inl same ↦ let e : h ≡ k = (==_iff h k).0 same in absurd (rw fresh at (rw e at rot))
  ]

  write-IsRotated :
      (k : ℕ) (v : RefreshToken) (t : Table RefreshToken)
      → ((h == k) ≡ true → IsRotatedRow f (some v))
      → IsRotated h f t
      → IsRotated h f (set k v t)
  write-IsRotated k v t again rot = elim (Bool-cases (h == k)) [
    | inr other ↦ rw (get-set h k v t, other) rot
    | inl same ↦ rw (get-set h k v t, same) (again same)
  ]

  revoke_if-IsRotatedRow :
      (now : ℕ) (selects : RefreshToken → Bool) (token : RefreshToken)
      → IsRotatedRow f (some token)
      → IsRotatedRow f (some (revoke_if now selects token))
  revoke_if-IsRotatedRow now selects token rot =
      elim (Bool-cases (selects token && not (is_some token.revoked_at))) [
        | inl revoked ↦ rw revoked rot
        | inr kept ↦ rw kept rot
      ]

  revoke_all-IsRotated :
      (now : ℕ) (selects : RefreshToken → Bool) (t : Table RefreshToken)
      → IsRotated h f t
      → IsRotated h f (revoke_all now selects t)
  revoke_all-IsRotated now selects [] rot = rot
  revoke_all-IsRotated now selects ((k, token) ∷ t) rot = elim (Bool-cases (h == k)) [
    | inl same ↦ rw same (revoke_if-IsRotatedRow now selects token (rw same at rot))
    | inr other ↦ rw other (revoke_all-IsRotated now selects t (rw other at rot))
  ]

  -- A token that is not replaced is another one.
  not_rotated :
      (k : ℕ) (token : RefreshToken) (t : Table RefreshToken)
      → get k t ≡ some token
      → token.replaced_by ≡ none
      → IsRotated h f t
      → (h == k) ≢ true
  not_rotated k token t stored unreplaced rot same =
      let e : h ≡ k = (==_iff h k).0 same in
      let r : IsRotatedRow f (some token) = rw stored at (rw e at rot) in cc (rw unreplaced at r.1)

  rotate-IsRotated :
      (now new_hash k : ℕ) (token : RefreshToken) (t : Table RefreshToken)
      → get k t ≡ some token
      → token.replaced_by ≡ none
      → IsRotated h f t
      → IsRotated h f (rotate now new_hash k token t).0
  rotate-IsRotated now new_hash k token t stored unreplaced rot =
      elim (Option-cases (get new_hash t)) [
        | inr (taken, e) ↦ rw e rot
        | inl fresh ↦ rw fresh (
            write-IsRotated k (rotated now new_hash token) (set new_hash (successor token) t)
              (λ same. absurd (not_rotated k token t stored unreplaced rot same))
              (fresh-IsRotated new_hash (successor token) t fresh rot))
      ]

  refresh_row-IsRotated :
      (now new_hash k : ℕ) (allowed : Bool) (o : Option RefreshToken) (t : Table RefreshToken)
      → get k t ≡ o
      → IsRotated h f t
      → IsRotated h f (refresh_row now new_hash k allowed o t).0
  refresh_row-IsRotated now new_hash k allowed none t stored rot = rot
  refresh_row-IsRotated now new_hash k allowed (some token) t stored rot =
      elim (Option-cases token.replaced_by) [
        | inr (r, replaced) ↦
            rw replaced (revoke_all-IsRotated now (is_in_family token.family_id) t rot)
        | inl unreplaced ↦
            elim (Bool-cases
              (is_some token.revoked_at || ltb token.expires_at now || not allowed)) [
                | inl refused ↦ rw (unreplaced, refused) rot
                | inr renewed ↦
                    rw (unreplaced, renewed)
                      (rotate-IsRotated now new_hash k token t stored unreplaced rot)
              ]
      ]

  logout_row-IsRotated :
      (now k : ℕ) (o : Option RefreshToken) (t : Table RefreshToken)
      → get k t ≡ o
      → IsRotated h f t
      → IsRotated h f (logout_row now k o t)
  logout_row-IsRotated now k none t stored rot = rot
  logout_row-IsRotated now k (some token) t stored rot =
      write-IsRotated k (record token { revoked_at = some now }) t
        (λ same. let e : h ≡ k = (==_iff h k).0 same in rw stored at (rw e at rot)) rot

  suspend_row-IsRotated :
      (now user_id : ℕ) (o : Option User) (db : AuthDb)
      → IsRotated h f db.tokens
      → IsRotated h f (suspend_row now user_id o db).0.tokens
  suspend_row-IsRotated now user_id none db rot = rot
  suspend_row-IsRotated now user_id (some user) db rot =
      revoke_all-IsRotated now (λ (token : RefreshToken). token.user_id == user_id) db.tokens rot

  signed_in-IsRotated :
      (env : Environment) (now : ℕ) (draw : Draw) (user_id : ℕ) (user : User) (db : AuthDb)
      → IsRotated h f db.tokens
      → IsRotated h f (happen env now (signed_in draw user_id user) db).tokens
  unfolding happen complete_login
  signed_in-IsRotated env now draw user_id user db rot =
      elim (Option-cases (get draw.token_hash db.tokens)) [
        | inr (taken, e) ↦ rw (e, get) rot
        | inl fresh ↦
            rw (fresh, get)
              (fresh-IsRotated draw.token_hash (fresh_token env now user_id draw) db.tokens fresh
                rot)
      ]

  happen-IsRotated :
      (env : Environment) (now : ℕ) (e : Event) (db : AuthDb)
      → IsRotated h f db.tokens
      → IsRotated h f (happen env now e db).tokens
  happen-IsRotated env now (signed_in draw user_id user) db rot =
      signed_in-IsRotated env now draw user_id user db rot
  happen-IsRotated env now (refreshed new_hash k) db rot =
      unfold happen refresh in
      (refresh_row-IsRotated now new_hash k (user_may_refresh now (get k db.tokens) db)
        (get k db.tokens) db.tokens refl rot)
  happen-IsRotated env now (logged_out k) db rot =
      unfold happen logout in (logout_row-IsRotated now k (get k db.tokens) db.tokens refl rot)
  happen-IsRotated env now (suspended user_id) db rot =
      unfold happen suspend in (suspend_row-IsRotated now user_id (get user_id db.users) db rot)
  happen-IsRotated env now (reinstated user_id) db rot =
      unfold happen reinstate in (rw (reinstate_row-tokens user_id (get user_id db.users) db) rot)
  happen-IsRotated env now (others users) db rot = unfold happen in rot

  history-IsRotated :
      (env : Environment) (events : List (ℕ × Event)) (db : AuthDb)
      → IsRotated h f db.tokens
      → IsRotated h f (history env events db).tokens
  unfolding history
  history-IsRotated env [] db rot = rot
  history-IsRotated env ((now, e) ∷ events) db rot =
      history-IsRotated env events (happen env now e db) (happen-IsRotated env now e db rot)

live_row-le : (f k : ℕ) (t : Table RefreshToken) → live_row f (get k t) ≤ live_count f t
live_row-le f k [] = omega arith
live_row-le f k ((j, token) ∷ t) = elim (Bool-cases (k == j)) [
  | inl same ↦ rw same (omega arith)
  | inr other ↦ rw other (omega (arith, live_row-le f k t))
]

-- What a refresh that succeeds starts from, and what it leaves.
renewed-cases :
    (now new_hash k : ℕ) (allowed : Bool) (token : RefreshToken) (t : Table RefreshToken)
    → (refresh_row now new_hash k allowed (some token) t).1 ≡ true
    → (token.replaced_by ≡ none)
      × (token.revoked_at ≡ none)
      × ((refresh_row now new_hash k allowed (some token) t).0
          ≡ set k (rotated now new_hash token) (set new_hash (successor token) t))
renewed-cases now new_hash k allowed token t success = elim (Option-cases token.replaced_by) [
  | inr (r, replaced) ↦ cc (rw replaced at success)
  | inl unreplaced ↦ elim (Option-cases token.revoked_at) [
    | inr (r, revoked) ↦ cc (rw (unreplaced, revoked) at success)
    | inl unrevoked ↦ elim (Bool-cases (ltb token.expires_at now || not allowed)) [
      | inl refused ↦ cc (rw (unreplaced, unrevoked, refused) at success)
      | inr renewed ↦ elim (Option-cases (get new_hash t)) [
        | inr (taken, e) ↦ cc (rw (unreplaced, unrevoked, renewed, e) at success)
        | inl fresh ↦ (unreplaced, unrevoked, rw (unreplaced, unrevoked, renewed, fresh) refl)
      ]
    ]
  ]
]

renewed-IsRotated :
    (now new_hash k : ℕ) (allowed : Bool) (token : RefreshToken) (t : Table RefreshToken)
    → (refresh_row now new_hash k allowed (some token) t).1 ≡ true
    → IsRotated k token.family_id (refresh_row now new_hash k allowed (some token) t).0
renewed-IsRotated now new_hash k allowed token t success =
    let (unreplaced, unrevoked, e) = renewed-cases now new_hash k allowed token t success in
    rw e (
      rw (get-set_self k (rotated now new_hash token) (set new_hash (successor token) t))
        (refl, refl))

-- In a family without live tokens no refresh succeeds.
dead_refused :
    (now new_hash k : ℕ) (allowed : Bool) (token : RefreshToken) (t : Table RefreshToken)
    → get k t ≡ some token
    → live_count token.family_id t ≡ 0
    → (refresh_row now new_hash k allowed (some token) t).1 ≡ false
dead_refused now new_hash k allowed token t stored dead =
    elim (Bool-cases (refresh_row now new_hash k allowed (some token) t).1) [
      | inr refused ↦ refused
      | inl success ↦
          let (unreplaced, unrevoked, e) = renewed-cases now new_hash k allowed token t success in
          absurd (
            omega (
              arith,
              live_row-le token.family_id k t,
              ap (live_row token.family_id) stored,
              alive unreplaced unrevoked,
            ))
    ]
  where
    alive : token.replaced_by ≡ none → token.revoked_at ≡ none → live token.family_id token ≡ 1
    alive unreplaced unrevoked = simp (unreplaced, unrevoked) (ground arith)

-- Presenting a rotated token revokes its family.
reused_row :
    (now new_hash h f : ℕ) (allowed : Bool) (o : Option RefreshToken) (t : Table RefreshToken)
    → IsRotatedRow f o
    → ((refresh_row now new_hash h allowed o t).1 ≡ false)
      × (live_count f (refresh_row now new_hash h allowed o t).0 ≡ 0)
reused_row now new_hash h f allowed none t rot = absurd rot
reused_row now new_hash h f allowed (some token) t (family, replaced) =
    rw (replaced, ← family) (refl, revoke_family-live now token.family_id t)

reused :
    (now new_hash h f : ℕ) (db : AuthDb)
    → IsRotated h f db.tokens
    → ((refresh now new_hash h db).1 ≡ false)
      × (live_count f (refresh now new_hash h db).0.tokens ≡ 0)
unfolding refresh
reused now new_hash h f db rot =
    reused_row now new_hash h f (user_may_refresh now (get h db.tokens) db) (get h db.tokens)
      db.tokens rot

refresh-IsRotated :
    (now new_hash h : ℕ) (db : AuthDb) (token : RefreshToken)
    → get h db.tokens ≡ some token
    → (refresh now new_hash h db).1 ≡ true
    → IsRotated h token.family_id (refresh now new_hash h db).0.tokens
unfolding refresh
refresh-IsRotated now new_hash h db token stored success = rw stored (
    renewed-IsRotated now new_hash h (user_may_refresh now (some token) db) token db.tokens
      (rw stored at success))

refresh_dead :
    (now new_hash k : ℕ) (db : AuthDb) (token : RefreshToken)
    → get k db.tokens ≡ some token
    → live_count token.family_id db.tokens ≡ 0
    → (refresh now new_hash k db).1 ≡ false
unfolding refresh
refresh_dead now new_hash k db token stored dead =
    rw stored (
      dead_refused now new_hash k (user_may_refresh now (some token) db) token db.tokens stored
        dead)

-- Once a token was refreshed, presenting it again is refused, whatever happened meanwhile; and from
-- then on, as long as no sign-in draws the same family, no refresh of any token of its family
-- succeeds.
pub reuse_ends_family :
    (env : Environment) (now new_hash h : ℕ) (db : AuthDb) (token : RefreshToken)
    (events : List (ℕ × Event)) (db' : AuthDb) (again new_hash' : ℕ) (later : List (ℕ × Event))
    (db'' : AuthDb) (after new_hash'' k : ℕ) (other : RefreshToken)
    → get h db.tokens ≡ some token
    → (refresh now new_hash h db).1 ≡ true
    → history env events (refresh now new_hash h db).0 ≡ db'
    → count token.family_id (families later) ≡ 0
    → history env later (refresh again new_hash' h db').0 ≡ db''
    → get k db''.tokens ≡ some other
    → other.family_id ≡ token.family_id
    → ((refresh again new_hash' h db').1 ≡ false) × ((refresh after new_hash'' k db'').1 ≡ false)
reuse_ends_family env now new_hash h db token events db' again new_hash' later db'' after new_hash''
      k other stored success reached no_sign_in ended stored' same =
    (detected.0, refresh_dead after new_hash'' k db'' other stored' dead)
  where
    rot : IsRotated h token.family_id db'.tokens
    rot =
        subst (λ (d : AuthDb). IsRotated h token.family_id d.tokens) reached
          (history-IsRotated h token.family_id env events (refresh now new_hash h db).0
            (refresh-IsRotated now new_hash h db token stored success))

    detected :
        ((refresh again new_hash' h db').1 ≡ false)
        × (live_count token.family_id (refresh again new_hash' h db').0.tokens ≡ 0)
    detected = reused again new_hash' h token.family_id db' rot

    dead : live_count other.family_id db''.tokens ≡ 0
    dead =
        rw (same, ← ended)
          (omega (
            arith,
            no_sign_in,
            detected.1,
            live_tokens_bounded env later token.family_id (refresh again new_hash' h db').0,
          ))
