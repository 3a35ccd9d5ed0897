-- ===== src/Auth/Passwords/History.antt =====
-- No password comes back soon.
use nexus_efos.Common.{
  ℕ, zero, suc, ◌+◌, ◌≤◌, ◌≡◌, ◌≢◌, refl, Bool, true, false, ◌||◌, Option, none, some, List, [],
  ◌∷◌, ◌++◌, length, if◌then◌else◌, arith, Bool-cases, inl, inr, ==_iff,
}
use nexus_efos.Common.Table.{get, get-set_self}
use nexus_efos.Auth.{
  Text, Environment, User, AuthDb, Answer, password_history_depth, validate_password_length,
}
use nexus_efos.Auth.Passwords.{
  PasswordChange, take, is_password_reused, changed, change_row, change_password, with_password,
}

abbrev is_done : Answer → Bool
is_done Answer.done = true
is_done _ = false

-- Changes of one user's password, in a row; `none` unless all of them succeed.
unfoldable pub changes : Environment → ℕ → List (ℕ × PasswordChange) → AuthDb → Option AuthDb
unfolding is_done
changes env u [] db = some db
changes env u ((now, request) ∷ requests) db =
    let out = change_password env now request u db in
    let rest = changes env u requests out.0 in if is_done out.1 then rest else none

-- What a change that succeeds has passed, and what it leaves.
change_row-done :
    (env : Environment) (now : ℕ) (request : PasswordChange) (u : ℕ) (o : Option User) (db : AuthDb)
    → is_done (change_row env now request u o db).1 ≡ true
    → (user : User) × (o ≡ some user)
      × (env.compare_hash request.new_password user.password_hash ≡ false)
      × (is_password_reused env request.new_password
            (take password_history_depth (db.password_history u))
          ≡ false)
      × ((change_row env now request u o db).0 ≡ changed env now request u user db)
change_row-done env now request u none db h = cc
change_row-done env now request u (some user) db h =
    elim (Bool-cases (env.compare_hash request.current_password user.password_hash)) [
      | inr wrong ↦ cc (rw wrong at h)
      | inl known ↦ elim (Bool-cases (env.compare_hash request.new_password user.password_hash)) [
        | inl same ↦ cc (rw (known, same) at h)
        | inr other ↦
            elim (Bool-cases (
              is_password_reused env request.new_password
                (take password_history_depth (db.password_history u)))) [
                  | inl reused ↦ cc (rw (known, other, reused) at h)
                  | inr fresh ↦ (user, refl, other, fresh, rw (known, other, fresh) refl)
                ]
      ]
    ]

change_password-done :
    (env : Environment) (now : ℕ) (request : PasswordChange) (u : ℕ) (db : AuthDb)
    → is_done (change_password env now request u db).1 ≡ true
    → (user : User) × (get u db.users ≡ some user)
      × (env.compare_hash request.new_password user.password_hash ≡ false)
      × (is_password_reused env request.new_password
            (take password_history_depth (db.password_history u))
          ≡ false)
      × ((change_password env now request u db).0 ≡ changed env now request u user db)
unfolding change_password
change_password-done env now request u db h =
    elim (Bool-cases (validate_password_length request.new_password)) [
      | inr bad ↦ cc (rw bad at h)
      | inl good ↦ rw good (change_row-done env now request u (get u db.users) db (rw good at h))
    ]

-- The password is the current one, or one of the `n` before it.
abbrev current_matches : Environment → Text → Option User → Bool
current_matches env password none = false
current_matches env password (some user) = env.compare_hash password user.password_hash

abbrev IsKept : Environment → Text → ℕ → ℕ → AuthDb → Type 0
IsKept env password n u db =
    (current_matches env password (get u db.users)
      || is_password_reused env password (take n (db.password_history u)))
    ≡ true

changed-IsKept_new :
    (env : Environment) (now : ℕ) (request : PasswordChange) (u : ℕ) (user : User) (db : AuthDb)
    → env.compare_hash request.new_password (env.hash_password request.salt request.new_password)
      ≡ true
    → IsKept env request.new_password 0 u (changed env now request u user db)
changed-IsKept_new env now request u user db sound =
    rw
      (get-set_self u (with_password now (env.hash_password request.salt request.new_password) user)
        db.users)
      (rw sound refl)

changed-IsKept :
    (env : Environment) (now : ℕ) (request : PasswordChange) (password : Text) (n u : ℕ)
    (user : User) (db : AuthDb)
    → get u db.users ≡ some user
    → IsKept env password n u db
    → IsKept env password (suc n) u (changed env now request u user db)
unfolding is_password_reused
changed-IsKept env now request password n u user db known kept =
    rw
      (
        get-set_self u
            (with_password now (env.hash_password request.salt request.new_password) user) db.users,
        (==_iff u u).1 refl,
      )
      (or_true _ _ (rw known at kept))
  where
    or_true : (a b : Bool) → b ≡ true → (a || b) ≡ true
    or_true true b h = refl
    or_true false b h = h

reused_mono :
    (env : Environment) (password : Text) (n m : ℕ) (hashes : List ℕ)
    → n ≤ m
    → is_password_reused env password (take n hashes) ≡ true
    → is_password_reused env password (take m hashes) ≡ true
unfolding is_password_reused
reused_mono env password zero m hashes le h = cc
reused_mono env password (suc n) zero hashes le h = absurd (omega arith)
reused_mono env password (suc n) (suc m) [] le h = h
reused_mono env password (suc n) (suc m) (x ∷ hashes) le h =
    ground (arith, reused_mono env password n m hashes (omega arith))

changes-cons :
    (env : Environment) (u now : ℕ) (request : PasswordChange)
    (requests : List (ℕ × PasswordChange)) (db db' : AuthDb)
    → changes env u ((now, request) ∷ requests) db ≡ some db'
    → (is_done (change_password env now request u db).1 ≡ true)
      × (changes env u requests (change_password env now request u db).0 ≡ some db')
unfolding changes
changes-cons env u now request requests db db' h =
    elim (Bool-cases (is_done (change_password env now request u db).1)) [
      | inl success ↦ (success, rw success at h)
      | inr failed ↦ cc (rw failed at h)
    ]

-- A password that is kept is refused.
kept_refused :
    (env : Environment) (password : Text) (n now u : ℕ) (request : PasswordChange) (db : AuthDb)
    → n ≤ password_history_depth
    → IsKept env password n u db
    → is_done (change_password env now request u db).1 ≡ true
    → request.new_password ≢ password
kept_refused env password n now u request db small kept success same =
    let (user, known, other, fresh, e) = change_password-done env now request u db success in
    neither (env.compare_hash password user.password_hash)
      (is_password_reused env password (take n (db.password_history u)))
      (is_password_reused env password (take password_history_depth (db.password_history u)))
      (rw known at kept) (rw same at other) (rw same at fresh)
      (reused_mono env password n password_history_depth (db.password_history u) small)
  where
    neither : (a b c : Bool) → (a || b) ≡ true → a ≡ false → c ≡ false → (b ≡ true → c ≡ true) → ⊥
    neither true b c h p q m = cc
    neither false b c h p q m = cc (m h)

module _ (env : Environment)
    (sound : (salt : ℕ) (password : Text)
      → env.compare_hash password (env.hash_password salt password) ≡ true) where
  kept_blocks :
      (password : Text) (n u now : ℕ) (mid : List (ℕ × PasswordChange)) (last : PasswordChange)
      (db db' : AuthDb)
      → IsKept env password n u db
      → n + length mid ≤ password_history_depth
      → changes env u (mid ++ ((now, last) ∷ [])) db ≡ some db'
      → last.new_password ≢ password
  kept_blocks password n u now [] last db db' kept small h =
      kept_refused env password n now u last db (omega arith) kept
        (changes-cons env u now last [] db db' h).0
  kept_blocks password n u now ((at, request) ∷ mid) last db db' kept small h =
      let (success, rest) = changes-cons env u at request (mid ++ ((now, last) ∷ [])) db db' h in
      let (user, known, other, fresh, e) = change_password-done env at request u db success in
      kept_blocks password (suc n) u now mid last (changed env at request u user db) db'
        (changed-IsKept env at request password n u user db known kept) (omega arith) (rw e at rest)

  -- If bcrypt accepts a password against its own hash, then in any row of changes that succeed, a
  -- password is not chosen again among the next six: the last of up to seven differs from the first.
  pub no_quick_return :
      (u at now : ℕ) (first : PasswordChange) (mid : List (ℕ × PasswordChange))
      (last : PasswordChange) (db db' : AuthDb)
      → length mid ≤ password_history_depth
      → changes env u ((at, first) ∷ (mid ++ ((now, last) ∷ []))) db ≡ some db'
      → last.new_password ≢ first.new_password
  no_quick_return u at now first mid last db db' small h =
      let (success, rest) = changes-cons env u at first (mid ++ ((now, last) ∷ [])) db db' h in
      let (user, known, other, fresh, e) = change_password-done env at first u db success in
      kept_blocks first.new_password 0 u now mid last (changed env at first u user db) db'
        (changed-IsKept_new env at first u user db (sound first.salt first.new_password))
        (omega arith) (rw e at rest)
