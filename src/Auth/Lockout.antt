-- ===== src/Auth/Lockout.antt =====
-- Guessing: passwords at `/login` and codes at `/login/mfa`, of one user.
use nexus_efos.Common.{
  ℕ, ◌+◌, ◌-◌, ◌≤◌, ◌<◌, ◌≡◌, ◌≢◌, ◌⊎◌, refl, ap, ◌∙◌, max, Bool, true, false, Option, none, some,
  List, [], ◌∷◌, leb, le→leb, length, ◌==◌, if◌then◌else◌, arith, Bool-cases, inl, inr,
}
use nexus_efos.Common.Table.{get, set, get-set_self}
use nexus_efos.Auth.{
  Environment, User, UserMfa, AuthDb, Answer, is_session, Draw, is_some, is_after, is_active,
  failed_user, will_lock, lockout_duration, failed_attempt_threshold, complete_login,
  is_device_trusted, user_has_role_requiring_mfa,
}
use nexus_efos.Auth.Login.{
  LoginRequest, MfaRequest, CodeCheck, check_code, find_user, first_factor, login_user, login,
  with_remaining, second_factor, mfa_rows, login_mfa,
}

pub data Guess : Type 0 where
  of_password : Draw → LoginRequest → Guess
  of_code : Draw → MfaRequest → Guess

unfoldable pub attempt : Environment → ℕ → Guess → AuthDb → AuthDb × Answer
attempt env now (of_password draw request) db = login env now draw request db
attempt env now (of_code draw request) db = login_mfa env now draw request db

-- The user that a guess is about.
abbrev pub target : Environment → ℕ → Guess → AuthDb → Option ℕ
target env now (of_password draw request) db =
    find_user request.institution_id request.email db.users
target env now (of_code draw request) db = env.pending_user now request.pending_token

-- 1 for the answer that the password or the code is wrong.
abbrev pub tested : Answer → ℕ
tested (Answer.refused status) = if status == 401 then 1 else 0
tested _ = 0

unfoldable pub tests : Environment → List (ℕ × Guess) → AuthDb → ℕ
tests env [] db = 0
tests env ((now, g) ∷ guesses) db =
    let out = attempt env now g db in tested out.1 + tests env guesses out.0

-- Guesses about one user, none of which opens a session, that start within one lockout's duration.
abbrev pub IsSiege : Environment → ℕ → ℕ → List (ℕ × Guess) → AuthDb → Type 0
IsSiege env u start [] db = Unit
IsSiege env u start ((now, g) ∷ guesses) db =
    (target env now g db ≡ some u)
    × (is_session (attempt env now g db).1 ≡ false)
    × (start ≤ now)
    × (now < start + lockout_duration)
    × IsSiege env u start guesses (attempt env now g db).0

-- What a guess does to the user's row.
abbrev Effect : Bool → ℕ → ℕ → User → AuthDb → AuthDb × Answer → Type 0
Effect locked now u user db out =
    (is_session out.1 ≡ true)
    ⊎ (((out.0.users ≡ db.users) × (tested out.1 ≡ 0))
        ⊎ ((locked ≡ false)
            × (out.0.users ≡ set u (failed_user now user) db.users)
            × (tested out.1 ≡ 1)))

module _ (env : Environment) (now : ℕ) (draw : Draw) (u : ℕ) (user : User) where
  complete_login-Effect :
      (row : User) (fingerprint : Option ℕ) (trust verified : Bool) (db db' : AuthDb)
      → db'.users ≡ db.users
      → Effect false now u user db
          (complete_login env now draw u row fingerprint trust verified db')
  unfolding complete_login
  complete_login-Effect row fingerprint trust verified db db' same =
      elim (Bool-cases (is_some (get draw.token_hash db'.tokens))) [
        | inl taken ↦ rw taken (inr (inl (same, refl)))
        | inr free ↦ rw free (inl refl)
      ]

  finish : LoginRequest → AuthDb → AuthDb × Answer
  finish request db =
      complete_login env now draw u user request.fingerprint request.trust_device false db

  first_factor-cases :
      (request : LoginRequest) (db : AuthDb)
      → (first_factor env now draw request u user db ≡ finish request db)
        ⊎ (((first_factor env now draw request u user db).0.users ≡ db.users)
            × (tested (first_factor env now draw request u user db).1 ≡ 0))
  unfolding finish
  first_factor-cases request db =
      elim (Bool-cases (is_device_trusted now u request.fingerprint db)) [
        | inl trusted ↦ simp trusted (inl refl)
        | inr unknown ↦ elim (Bool-cases user.mfa_enabled) [
          | inl enabled ↦ simp (unknown, enabled) (inr (refl, refl))
          | inr not_enabled ↦ elim (Bool-cases (user_has_role_requiring_mfa now u db)) [
            | inl required ↦ simp (unknown, not_enabled, required) (inr (refl, refl))
            | inr free ↦ simp (unknown, not_enabled, free) (inl refl)
          ]
        ]
      ]

  first_factor-Effect :
      (request : LoginRequest) (db : AuthDb)
      → Effect false now u user db (first_factor env now draw request u user db)
  unfolding finish
  first_factor-Effect request db = elim (first_factor-cases request db) [
    | inl same ↦
        rw same
          (complete_login-Effect user request.fingerprint request.trust_device false db db refl)
    | inr quiet ↦ inr (inl quiet)
  ]

  login_user-Effect :
      (request : LoginRequest) (db : AuthDb)
      → Effect
          (is_after now user.locked_until)
          now
          u
          user
          db
          (login_user env now draw request u (some user) db)
  login_user-Effect request db = elim (Bool-cases (is_after now user.locked_until)) [
    | inl locked ↦ rw locked (inr (inl (refl, refl)))
    | inr free ↦ elim (Bool-cases (env.compare_hash request.password user.password_hash)) [
      | inr wrong ↦ rw (free, wrong) (inr (inr (refl, refl, refl)))
      | inl known ↦ elim (Bool-cases (is_active user.status)) [
        | inl active ↦ rw (free, known, active) (first_factor-Effect request db)
        | inr inactive ↦ rw (free, known, inactive) (inr (inl (refl, refl)))
      ]
    ]
  ]

  second_factor-Effect :
      (c : CodeCheck) (request : MfaRequest) (mfa : UserMfa) (db : AuthDb)
      → Effect false now u user db (second_factor env now draw c request u user mfa db)
  second_factor-Effect CodeCheck.exception request mfa db = inr (inl (refl, refl))
  second_factor-Effect CodeCheck.wrong request mfa db = inr (inr (refl, refl, refl))
  second_factor-Effect (CodeCheck.right none) request mfa db =
      complete_login-Effect user request.fingerprint request.trust_device true db db refl
  second_factor-Effect (CodeCheck.right (some remaining)) request mfa db =
      complete_login-Effect user request.fingerprint request.trust_device true db
        (with_remaining u (some remaining) mfa db) refl

  mfa_rows-Effect :
      (request : MfaRequest) (m : Option UserMfa) (db : AuthDb)
      → Effect
          (is_after now user.locked_until)
          now
          u
          user
          db
          (mfa_rows env now draw request u (some user) m db)
  mfa_rows-Effect request none db = inr (inl (refl, refl))
  mfa_rows-Effect request (some mfa) db = elim (Bool-cases (is_some mfa.verified_at)) [
    | inr unverified ↦ rw unverified (inr (inl (refl, refl)))
    | inl verified ↦ elim (Bool-cases (is_after now user.locked_until)) [
      | inl locked ↦ rw (verified, locked) (inr (inl (refl, refl)))
      | inr free ↦
          rw (verified, free)
            (second_factor-Effect (check_code env now request.code mfa) request mfa db)
    ]
  ]

attempt-Effect :
    (env : Environment) (now : ℕ) (g : Guess) (u : ℕ) (user : User) (db : AuthDb)
    → target env now g db ≡ some u
    → get u db.users ≡ some user
    → Effect (is_after now user.locked_until) now u user db (attempt env now g db)
unfolding attempt login login_mfa
attempt-Effect env now (of_password draw request) u user db at_user known =
    rw (at_user, known) (login_user-Effect env now draw u user request db)
attempt-Effect env now (of_code draw request) u user db at_user known =
    elim (Bool-cases (leb 6 (length request.code))) [
      | inl long ↦
          rw (long, at_user, known) (mfa_rows-Effect env now draw u user request (get u db.mfas) db)
      | inr short ↦ rw short (inr (inl (refl, refl)))
    ]

-- How many guesses are left until `end`.
abbrev is_locked_until : ℕ → Option ℕ → Bool
is_locked_until end none = false
is_locked_until end (some t) = leb end t

abbrev budget : ℕ → User → ℕ
budget end user =
    if is_locked_until end user.locked_until then 0 else max 1 (5 - user.failed_login_count)

not_locked_until :
    (now end : ℕ) (o : Option ℕ)
    → now < end
    → is_after now o ≡ false
    → is_locked_until end o ≡ false
not_locked_until now end none before free = refl
not_locked_until now end (some t) before free = ground arith

-- A user that is not locked now is not locked until the end, and a failure costs one guess.
failed_budget :
    (now end : ℕ) (user : User)
    → now < end
    → end ≤ now + lockout_duration
    → is_after now user.locked_until ≡ false
    → 1 + budget end (failed_user now user) ≤ budget end user
failed_budget now end user before within free = elim (Bool-cases (will_lock user)) [
  | inl locks ↦
      simp (locks, not_locked_until now end user.locked_until before free, le→leb _ _ within)
        (ground arith)
  | inr stays ↦ simp (stays, not_locked_until now end user.locked_until before free) (ground arith)
]

budget-le : (end : ℕ) (user : User) → budget end user ≤ 5
budget-le end user = elim (Bool-cases (is_locked_until end user.locked_until)) [
  | inl locked ↦ rw locked (omega arith)
  | inr free ↦ rw free (ground arith)
]

siege_bounded :
    (env : Environment) (u start : ℕ) (guesses : List (ℕ × Guess)) (user : User) (db : AuthDb)
    → get u db.users ≡ some user
    → IsSiege env u start guesses db
    → tests env guesses db ≤ budget (start + lockout_duration) user
unfolding tests
siege_bounded env u start [] user db known siege = omega arith
siege_bounded env u start ((now, g) ∷ guesses) user db known (at_user, closed, from, before, rest) =
    let out : AuthDb × Answer = attempt env now g db in
    let later = λ (row : User). siege_bounded env u start guesses row out.0 in
    elim (attempt-Effect env now g u user db at_user known) [
      | inl opened ↦ absurd (session_false _ opened closed)
      | inr (inl (same, none_tested)) ↦
          omega (arith, none_tested, later user (ap (get u) same ∙ known) rest)
      | inr (inr (free, failed, one)) ↦
          let known' : get u out.0.users ≡ some (failed_user now user) =
            ap (get u) failed ∙ get-set_self u (failed_user now user) db.users in
          omega (
            arith,
            one,
            later (failed_user now user) known' rest,
            failed_budget now (start + lockout_duration) user before (omega arith) free,
          )
    ]
  where
    session_false : (b : Bool) → b ≡ true → b ≢ false
    session_false b h k = cc

-- However many passwords at `/login` and codes at `/login/mfa` are tried on one user within thirty
-- minutes, with nothing else between them and none of them opening a session, at most five get the
-- answer that they are wrong.
pub five_guesses :
    (env : Environment) (u start : ℕ) (guesses : List (ℕ × Guess)) (user : User) (db : AuthDb)
    → get u db.users ≡ some user
    → IsSiege env u start guesses db
    → tests env guesses db ≤ failed_attempt_threshold
five_guesses env u start guesses user db known siege =
    le_trans (siege_bounded env u start guesses user db known siege)
      (budget-le (start + lockout_duration) user)
  where
    le_trans : {a b c : ℕ} → a ≤ b → b ≤ c → a ≤ c
    le_trans p q = omega arith
