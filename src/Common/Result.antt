-- ===== src/Common/Result.antt =====
-- What a handler answers: the new state, or an error status and no change. Where a handler writes
-- only after its last check, or writes in one transaction, this is its whole effect.
use mathlib.Core.Path.{◌≡◌, refl}
use mathlib.Core.Logic.{◌⊎◌, inl, inr}
use mathlib.Core.Bool.{Bool, true, false}
use mathlib.Core.Option.{Option, none, some}

-- 400, 403, 404, 409, and an exception that becomes a 500.
pub data Error : Type 0 where
  bad_request forbidden not_found conflict server_error : Error

pub data Result {ℓ} (S : Type ℓ) : Type ℓ where
  err : Error → Result S
  ok : S → Result S

-- `if (!found) return res.status(…)`
abbrev pub require {ℓ} : {S : Type ℓ} → Option S → Error → Result S
require none status = err status
require (some found) status = ok found

-- The rest of the handler runs where nothing was answered before.
infixl 5 ◌>>=◌
abbrev pub ◌>>=◌ {ℓ κ} : {S : Type ℓ} {S' : Type κ} → Result S → (S → Result S') → Result S'
err status >>= rest = err status
ok s >>= rest = rest s

-- `if (!test) return res.status(…)`
abbrev pub guard : Bool → Error → Result (Unit {0})
guard false status = err status
guard true status = ok tt

infixl 5 ◌>>◌
abbrev pub ◌>>◌ {ℓ} : {S : Type ℓ} → Result (Unit {0}) → Result S → Result S
checked >> rest = checked >>= (λ passed. rest)

-- What a handler that answered with a new state has passed.
pub guard-eq-ok {ℓ} :
    {B : Type ℓ} (c : Bool) (e : Error) (k : Result B) {b : B}
    → (guard c e >> k) ≡ ok b
    → (c ≡ true) × (k ≡ ok b)
guard-eq-ok true e k h = (refl, h)
guard-eq-ok false e k h = cc

pub require-eq-ok {ℓ κ} :
    {A : Type ℓ} {B : Type κ} (o : Option A) (e : Error) (f : A → Result B) {b : B}
    → (require o e >>= f) ≡ ok b
    → (a : A) × (o ≡ some a) × (f a ≡ ok b)
require-eq-ok none e f h = cc
require-eq-ok (some a) e f h = (a, refl, h)

pub >>=-eq-ok {ℓ κ} :
    {S : Type ℓ} {S' : Type κ} (first : Result S) (rest : S → Result S') {last : S'}
    → (first >>= rest) ≡ ok last
    → (s : S) × (first ≡ ok s) × (rest s ≡ ok last)
>>=-eq-ok (err status) rest h = cc
>>=-eq-ok (ok s) rest h = (s, refl, h)

pub ok-injective {ℓ} : {S : Type ℓ} {a b : S} → ok a ≡ ok b → a ≡ b
ok-injective h = cc

-- To split on an answer and keep the equation.
pub Result-cases {ℓ} :
    {S : Type ℓ} (r : Result S) → ((e : Error) × (r ≡ err e)) ⊎ ((s : S) × (r ≡ ok s))
Result-cases (err e) = inl (e, refl)
Result-cases (ok s) = inr (s, refl)

-- The state after an answer: an error leaves it as it was.
abbrev pub settle {ℓ} : {S : Type ℓ} → S → Result S → S
settle s (err e) = s
settle s (ok s') = s'

pub settle-keeps {ℓ κ} :
    {S : Type ℓ} (P : S → Type κ) (s : S) (r : Result S)
    → P s
    → ((s' : S) → r ≡ ok s' → P s')
    → P (settle s r)
settle-keeps P s (err e) h kept = h
settle-keeps P s (ok s') h kept = kept s' refl
