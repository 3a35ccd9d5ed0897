-- ===== src/Auth/Factors/Enforced.antt =====
-- Where a role requires the second factor, no session opens without it.
use nexus_efos.Common.{
  ℕ, ◌≡◌, ◌≢◌, ◌⊎◌, refl, sym, ap, ◌∙◌, subst, Bool, true, false, not, ◌&&◌, Option, none, some,
  List, [], ◌∷◌, ◌==◌, arith, Bool-cases, inl, inr, ==_iff, &&_iff,
}
use nexus_efos.Auth.{
  Environment, UserDevice, AuthDb, Answer, is_session, is_some, is_after, trusts_row, see_device,
  put_device, seen_device, device_or_fresh, is_device_trusted, user_has_role_requiring_mfa,
}
use nexus_efos.Auth.Factors.{
  Request, handle, fingerprint_of, proved_user, note_proof, was_proved, run,
}
use nexus_efos.Auth.Factors.Outcomes.{IsAllowed, handle-Outcome}

abbrev pub is_proven : UserDevice → Bool
is_proven device = is_some device.mfa_verified_at

abbrev IsProvenRow : ℕ → ℕ → List (ℕ × ℕ) → Option UserDevice → Type 0
IsProvenRow u f proofs none = Unit
IsProvenRow u f proofs (some device) = is_proven device ≡ true → was_proved u f proofs ≡ true

-- The code was checked for every device that is marked so.
abbrev pub IsProven : AuthDb × List (ℕ × ℕ) → Type 0
IsProven (db, proofs) = (u f : ℕ) → IsProvenRow u f proofs (db.devices u f)

noted_mono :
    (o fingerprint : Option ℕ) (u f : ℕ) (proofs : List (ℕ × ℕ))
    → was_proved u f proofs ≡ true
    → was_proved u f (note_proof o fingerprint proofs) ≡ true
noted_mono none fingerprint u f proofs h = h
noted_mono (some user_id) none u f proofs h = h
noted_mono (some user_id) (some fingerprint) u f proofs h = simp h (ground arith)

row_mono :
    (o fingerprint : Option ℕ) (u f : ℕ) (proofs : List (ℕ × ℕ)) (d : Option UserDevice)
    → IsProvenRow u f proofs d
    → IsProvenRow u f (note_proof o fingerprint proofs) d
row_mono o fingerprint u f proofs none h = tt
row_mono o fingerprint u f proofs (some device) h = λ p. noted_mono o fingerprint u f proofs (h p)

-- The row that a session leaves.
seen-IsProvenRow :
    (now user_id u f : ℕ) (fingerprint : Option ℕ) (trust verified : Bool) (o : Option ℕ)
    (db : AuthDb) (proofs : List (ℕ × ℕ)) (d : Option UserDevice)
    → u ≡ user_id
    → some f ≡ fingerprint
    → IsProvenRow u f proofs d
    → IsAllowed now user_id fingerprint db o verified
    → IsProvenRow u f
        (note_proof o fingerprint proofs)
        (some (seen_device now trust verified (device_or_fresh d)))
seen-IsProvenRow now user_id u f fingerprint trust true o db proofs d same seen h allowed =
    λ p. rw (allowed, ← same, ← seen) (ground arith)
seen-IsProvenRow now user_id u f fingerprint trust false o db proofs none same seen h allowed =
    λ p. cc
seen-IsProvenRow now user_id u f fingerprint trust false o db proofs (some d) same seen h allowed =
    λ p. noted_mono o fingerprint u f proofs (h p)

module _ (now : ℕ) (db : AuthDb) (proofs : List (ℕ × ℕ)) (proven : IsProven (db, proofs)) where
  see_device-IsProven :
      (user_id : ℕ) (fingerprint : Option ℕ) (trust verified : Bool) (o : Option ℕ)
      → IsAllowed now user_id fingerprint db o verified
      → (u f : ℕ)
      → IsProvenRow u f
          (note_proof o fingerprint proofs)
          (see_device now user_id fingerprint trust verified db.devices u f)
  see_device-IsProven user_id none trust verified o allowed u f =
      row_mono o none u f proofs (db.devices u f) (proven u f)
  see_device-IsProven user_id (some g) trust verified o allowed u f =
      elim (Bool-cases (u == user_id && f == g)) [
        | inr other ↦ rw other (row_mono o (some g) u f proofs (db.devices u f) (proven u f))
        | inl same ↦
            let (p, q) = (&&_iff (u == user_id) (f == g)).0 same in
            let eu : u ≡ user_id = (==_iff u user_id).0 p in
            let ef : f ≡ g = (==_iff f g).0 q in
            rw same (
              seen-IsProvenRow now user_id u f (some g) trust verified o db proofs
                (db.devices user_id g) eu (ap some ef) (rw (← eu, ← ef) (proven u f)) allowed)
      ]

  put_none-IsProven :
      (user_id g : ℕ) (o fingerprint : Option ℕ) (u f : ℕ)
      → IsProvenRow u f (note_proof o fingerprint proofs) (put_device user_id g none db.devices u f)
  put_none-IsProven user_id g o fingerprint u f = elim (Bool-cases (u == user_id && f == g)) [
    | inl same ↦ rw same tt
    | inr other ↦ rw other (row_mono o fingerprint u f proofs (db.devices u f) (proven u f))
  ]

  handle-IsProven :
      (env : Environment) (r : Request)
      → IsProven
          ((handle env now r db).0, note_proof (proved_user env now r db) (fingerprint_of r) proofs)
  handle-IsProven env r u f = elim (handle-Outcome env now r db) [
    | inr (user_id, g, devices, quiet) ↦ rw devices (put_none-IsProven user_id g _ _ u f)
    | inl (inl (devices, quiet)) ↦
        rw devices (row_mono _ _ u f proofs (db.devices u f) (proven u f))
    | inl (inr (user_id, b, trust, verified, devices, opened, allowed)) ↦
        rw devices (see_device-IsProven user_id (fingerprint_of r) trust verified _ allowed u f)
  ]

run-IsProven :
    (env : Environment) (requests : List (ℕ × Request)) (s : AuthDb × List (ℕ × ℕ))
    → IsProven s
    → IsProven (run env requests s)
unfolding run
run-IsProven env [] (db, proofs) h = h
run-IsProven env ((now, r) ∷ requests) (db, proofs) h =
    run-IsProven env requests _ (handle-IsProven now db proofs h env r)

-- A trusted device of a user whose role requires the factor is one for which it was proved.
trusted_row_proven :
    (now u f : ℕ) (proofs : List (ℕ × ℕ)) (d : Option UserDevice)
    → IsProvenRow u f proofs d
    → trusts_row now true d ≡ true
    → was_proved u f proofs ≡ true
trusted_row_proven now u f proofs none h t = cc
trusted_row_proven now u f proofs (some d) h t =
    h (marked (is_some d.mfa_verified_at) (last d.trusted (is_after now d.trusted_until) _ t))
  where
    last : (a b c : Bool) → (a && b && c) ≡ true → c ≡ true
    last a b c e = ground arith

    marked : (b : Bool) → not (not b) ≡ true → b ≡ true
    marked true e = refl
    marked false e = e

trusted_proven :
    (now u : ℕ) (fingerprint : Option ℕ) (db : AuthDb) (proofs : List (ℕ × ℕ))
    → IsProven (db, proofs)
    → user_has_role_requiring_mfa now u db ≡ true
    → is_device_trusted now u fingerprint db ≡ true
    → (f : ℕ) × (fingerprint ≡ some f) × (was_proved u f proofs ≡ true)
trusted_proven now u none db proofs h required t = cc
trusted_proven now u (some f) db proofs h required t =
    (f, refl, trusted_row_proven now u f proofs (db.devices u f) (h u f) (rw required at t))

session_why :
    (now u user_id : ℕ) (trust verified : Bool) (fingerprint : Option ℕ) (db : AuthDb)
    (proofs : List (ℕ × ℕ)) (proved : Option ℕ)
    → IsProven (db, proofs)
    → user_has_role_requiring_mfa now u db ≡ true
    → user_id ≡ u
    → IsAllowed now user_id fingerprint db proved verified
    → (proved ≡ some u) ⊎ ((f : ℕ) × (fingerprint ≡ some f) × (was_proved u f proofs ≡ true))
session_why now u user_id trust true fingerprint db proofs proved h required same allowed =
    inl (allowed ∙ ap some same)
session_why now u user_id trust false fingerprint db proofs proved h required same (inl t) =
    inr (trusted_proven now u fingerprint db proofs h required (rw same at t))
session_why now u user_id trust false fingerprint db proofs proved h required same (inr free) =
    absurd (bad (sym required ∙ rw same at free))
  where
    bad : true ≢ false
    bad e = cc

-- Start with no devices, and let any requests of signing in, enrolling and revoking devices be
-- handled, at any times, with any other changes of the users, roles, factors and tokens between
-- them. If a request then opens a session of a user one of whose current roles requires the second
-- factor, the request itself had a code that is right for the user, or an earlier request that gave
-- the same fingerprint had one.
pub second_factor_required :
    (env : Environment) (requests : List (ℕ × Request)) (now : ℕ) (r : Request) (db : AuthDb)
    (s : AuthDb × List (ℕ × ℕ)) (u : ℕ) (b : Bool)
    → ((v f : ℕ) → db.devices v f ≡ none)
    → run env requests (db, []) ≡ s
    → (handle env now r s.0).1 ≡ Answer.session u b
    → user_has_role_requiring_mfa now u s.0 ≡ true
    → (proved_user env now r s.0 ≡ some u)
      ⊎ ((f : ℕ) × (fingerprint_of r ≡ some f) × (was_proved u f s.1 ≡ true))
second_factor_required env requests now r db s u b none_yet reached opened required =
    elim (handle-Outcome env now r s.0) [
      | inr (user_id, g, devices, quiet) ↦ absurd (no_session _ quiet opened)
      | inl (inl (devices, quiet)) ↦ absurd (no_session _ quiet opened)
      | inl (inr (user_id, b', trust, verified, devices, opened', allowed)) ↦
          session_why now u user_id trust verified (fingerprint_of r) s.0 s.1 _ proven required
            (same_user (sym opened' ∙ opened)) allowed
    ]
  where
    proven : IsProven s
    proven =
        subst IsProven reached (run-IsProven env requests (db, []) (λ v f. rw (none_yet v f) tt))

    no_session : (a : Answer) → is_session a ≡ false → a ≢ Answer.session u b
    no_session a quiet e = cc (rw e at quiet)

    same_user : {v : ℕ} {c : Bool} → Answer.session v c ≡ Answer.session u b → v ≡ u
    same_user e = cc
