-- ===== src/Common/Lists.antt =====
-- Lists over the native numbers, and the sums that the code writes as
-- `xs.reduce((s, x) => s + f(x), 0)`.
use Prim.Native.Nat.{ℕ, suc, ◌+◌}
use mathlib.Core.Path.{◌≡◌, refl, sym, ap, ◌∙◌}
use mathlib.Core.Logic.{inl, inr}
use mathlib.Core.Bool.{Bool, true, false, ◌&&◌, ◌||◌}
use mathlib.Core.List.{List, [], ◌∷◌, ◌++◌, map}
use native.Mathlib.Omega.{arith}
use nexus_efos.Common.Tests.{◌==◌, if◌then◌else◌, Bool-cases}
use nexus_efos.Common.Int.{ℤ, pos, ◌+ℤ◌, ◌-ℤ◌, zero-+ℤ, +ℤ_assoc, int_laws}

regroup : (s a t : ℤ) → s +ℤ a +ℤ t ≡ s +ℤ (pos 0 +ℤ a +ℤ t)
regroup s a t = omega int_laws

module _ {ℓ} {A : Type ℓ} where
  abbrev pub length : List A → ℕ
  length [] = 0
  length (x ∷ xs) = suc (length xs)

  abbrev pub filter : (A → Bool) → List A → List A
  filter p [] = []
  filter p (x ∷ xs) = let rest = filter p xs in if p x then x ∷ rest else rest

  -- `xs.some(p)` and `xs.every(p)`
  abbrev pub any : (A → Bool) → List A → Bool
  any p [] = false
  any p (x ∷ xs) = p x || any p xs

  abbrev pub all : (A → Bool) → List A → Bool
  all p [] = true
  all p (x ∷ xs) = p x && all p xs

  abbrev pub All {κ} : (A → Type κ) → List A → Type κ
  All P [] = Unit
  All P (x ∷ xs) = P x × All P xs

  pub length-append : (xs ys : List A) → length (xs ++ ys) ≡ length xs + length ys
  length-append [] ys = omega arith
  length-append (x ∷ xs) ys = omega (arith, length-append xs ys)

  sum_from : (A → ℕ) → ℕ → List A → ℕ
  sum_from f s [] = s
  sum_from f s (x ∷ xs) = sum_from f (s + f x) xs

  unfoldable pub sum_by : (A → ℕ) → List A → ℕ
  unfolding sum_from
  sum_by f xs = sum_from f 0 xs

  sum_from_lem : (f : A → ℕ) (s : ℕ) (xs : List A) → sum_from f s xs ≡ s + sum_by f xs
  unfolding sum_by
  sum_from_lem f s [] = omega arith
  sum_from_lem f s (x ∷ xs) =
      omega (arith, sum_from_lem f (s + f x) xs, sum_from_lem f (0 + f x) xs)

  pub sum_by-nil : (f : A → ℕ) → sum_by f [] ≡ 0
  unfolding sum_by
  sum_by-nil f = refl

  pub sum_by-cons : (f : A → ℕ) (x : A) (xs : List A) → sum_by f (x ∷ xs) ≡ f x + sum_by f xs
  unfolding sum_by
  sum_by-cons f x xs = omega (arith, sum_from_lem f (0 + f x) xs)

  sum_from_ℤ : (A → ℤ) → ℤ → List A → ℤ
  sum_from_ℤ f s [] = s
  sum_from_ℤ f s (x ∷ xs) = sum_from_ℤ f (s +ℤ f x) xs

  unfoldable pub sum_by_ℤ : (A → ℤ) → List A → ℤ
  unfolding sum_from_ℤ
  sum_by_ℤ f xs = sum_from_ℤ f (pos 0) xs

  sum_from_ℤ_lem : (f : A → ℤ) (s : ℤ) (xs : List A) → sum_from_ℤ f s xs ≡ s +ℤ sum_by_ℤ f xs
  unfolding sum_by_ℤ
  sum_from_ℤ_lem f s [] = omega int_laws
  sum_from_ℤ_lem f s (x ∷ xs) =
      sum_from_ℤ_lem f (s +ℤ f x) xs
      ∙ regroup s (f x) (sum_from_ℤ f (pos 0) xs)
      ∙ ap (λ t. s +ℤ t) (sym (sum_from_ℤ_lem f (pos 0 +ℤ f x) xs))

  pub sum_by_ℤ-nil : (f : A → ℤ) → sum_by_ℤ f [] ≡ pos 0
  unfolding sum_by_ℤ
  sum_by_ℤ-nil f = refl

  pub sum_by_ℤ-cons : (f : A → ℤ) (x : A) (xs : List A) → sum_by_ℤ f (x ∷ xs) ≡ f x +ℤ sum_by_ℤ f xs
  unfolding sum_by_ℤ
  sum_by_ℤ-cons f x xs =
      sum_from_ℤ_lem f (pos 0 +ℤ f x) xs ∙ ap (λ t. t +ℤ sum_by_ℤ f xs) (zero-+ℤ (f x))

module _ {ℓ} {A : Type ℓ} where
  pub sum_by_ℤ-congr :
      (f g : A → ℤ) (xs : List A) → ((x : A) → f x ≡ g x) → sum_by_ℤ f xs ≡ sum_by_ℤ g xs
  sum_by_ℤ-congr f g [] h = sum_by_ℤ-nil f ∙ sym (sum_by_ℤ-nil g)
  sum_by_ℤ-congr f g (x ∷ xs) h = simp (sum_by_ℤ-cons, h x, sum_by_ℤ-congr f g xs h)

  -- Summing what a filter keeps is summing zero for what it drops.
  pub sum_by_ℤ-filter :
      (f : A → ℤ) (p : A → Bool) (xs : List A)
      → sum_by_ℤ f (filter p xs) ≡ sum_by_ℤ (λ x. if p x then f x else pos 0) xs
  sum_by_ℤ-filter f p [] = sum_by_ℤ-nil f ∙ sym (sum_by_ℤ-nil _)
  sum_by_ℤ-filter f p (x ∷ xs) = elim (Bool-cases (p x)) [
    | inl kept ↦ simp (kept, sum_by_ℤ-cons, sum_by_ℤ-filter f p xs)
    | inr dropped ↦ simp (dropped, sum_by_ℤ-cons, zero-+ℤ, sum_by_ℤ-filter f p xs)
  ]

  pub sum_by_ℤ-map {κ} :
      {B : Type κ} (f : B → ℤ) (g : A → B) (xs : List A)
      → sum_by_ℤ f (map g xs) ≡ sum_by_ℤ (λ x. f (g x)) xs
  sum_by_ℤ-map f g [] = sum_by_ℤ-nil f ∙ sym (sum_by_ℤ-nil _)
  sum_by_ℤ-map f g (x ∷ xs) =
      sum_by_ℤ-cons f (g x) (map g xs)
      ∙ rw (sum_by_ℤ-map f g xs) (sym (sum_by_ℤ-cons (λ x'. f (g x')) x xs))

  pub sum_by_ℤ-append :
      (f : A → ℤ) (xs ys : List A) → sum_by_ℤ f (xs ++ ys) ≡ sum_by_ℤ f xs +ℤ sum_by_ℤ f ys
  sum_by_ℤ-append f [] ys = rw sum_by_ℤ-nil (sym (zero-+ℤ _))
  sum_by_ℤ-append f (x ∷ xs) ys =
      sum_by_ℤ-cons f x (xs ++ ys)
      ∙ rw (sum_by_ℤ-append f xs ys, sum_by_ℤ-cons) (sym (+ℤ_assoc _ _ _))

  pub sum_by-append : (f : A → ℕ) (xs ys : List A) → sum_by f (xs ++ ys) ≡ sum_by f xs + sum_by f ys
  sum_by-append f [] ys = omega (arith, sum_by-nil f)
  sum_by-append f (x ∷ xs) ys =
      omega (arith, sum_by-append f xs ys, sum_by-cons f x xs, sum_by-cons f x (xs ++ ys))

  -- The difference of two sums is the sum of the differences.
  pub sum_by-difference :
      (f g : A → ℕ) (xs : List A)
      → pos (sum_by f xs) -ℤ pos (sum_by g xs) ≡ sum_by_ℤ (λ x. pos (f x) -ℤ pos (g x)) xs
  sum_by-difference f g [] = simp (sum_by-nil, sum_by_ℤ-nil) (omega int_laws)
  sum_by-difference f g (x ∷ xs) =
      simp (sum_by-cons, sum_by_ℤ-cons, ← sum_by-difference f g xs) (omega int_laws)

  pub sum_by_ℤ-add :
      (f g : A → ℤ) (xs : List A) → sum_by_ℤ (λ x. f x +ℤ g x) xs ≡ sum_by_ℤ f xs +ℤ sum_by_ℤ g xs
  sum_by_ℤ-add f g [] = simp sum_by_ℤ-nil (omega int_laws)
  sum_by_ℤ-add f g (x ∷ xs) = simp (sum_by_ℤ-cons, sum_by_ℤ-add f g xs) (omega int_laws)

  pub sum_by_ℤ-pos : (f : A → ℕ) (xs : List A) → pos (sum_by f xs) ≡ sum_by_ℤ (λ x. pos (f x)) xs
  sum_by_ℤ-pos f [] = simp (sum_by-nil, sum_by_ℤ-nil)
  sum_by_ℤ-pos f (x ∷ xs) = simp (sum_by-cons, sum_by_ℤ-cons, ← sum_by_ℤ-pos f xs) (omega int_laws)

module _ {ℓ} {A : Type ℓ} where
  pub All-append {κ} : (P : A → Type κ) (xs ys : List A) → All P xs → All P ys → All P (xs ++ ys)
  All-append P [] ys h k = k
  All-append P (x ∷ xs) ys (p, h) k = (p, All-append P xs ys h k)

  pub All-append_inv {κ} :
      (P : A → Type κ) (xs ys : List A) → All P (xs ++ ys) → All P xs × All P ys
  All-append_inv P [] ys h = (tt, h)
  All-append_inv P (x ∷ xs) ys (p, h) = let (hx, hy) = All-append_inv P xs ys h in ((p, hx), hy)

  pub All-map {κ μ} :
      (P : A → Type κ) (Q : A → Type μ) (xs : List A) → ((x : A) → P x → Q x) → All P xs → All Q xs
  All-map P Q [] f h = tt
  All-map P Q (x ∷ xs) f (p, h) = (f x p, All-map P Q xs f h)

pub length-map {ℓ κ} :
    {A : Type ℓ} {B : Type κ} (f : A → B) (xs : List A) → length (map f xs) ≡ length xs
length-map f [] = refl
length-map f (x ∷ xs) = ap suc (length-map f xs)

abbrev pub count : ℕ → List ℕ → ℕ
count a [] = 0
count a (x ∷ xs) = (if a == x then 1 else 0) + count a xs
