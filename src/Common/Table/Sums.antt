-- ===== src/Common/Table/Sums.antt =====
-- Sums and invariants over the rows of a table.
use Prim.Native.Nat.{ℕ}
use mathlib.Core.Path.{◌≡◌, subst}
use mathlib.Core.Logic.{◌≢◌, inl, inr}
use mathlib.Core.Option.{none, some, some-injective}
use mathlib.Core.List.{[], ◌∷◌}
use nexus_efos.Common.Tests.{◌==◌, Bool-cases}
use nexus_efos.Common.Int.{ℤ, ◌+ℤ◌, int_laws}
use nexus_efos.Common.Lists.{All, sum_by_ℤ, sum_by_ℤ-cons, sum_by_ℤ-nil}
use nexus_efos.Common.Table.{Table, get, set}

exchange : (x y z : ℤ) → x +ℤ z +ℤ y ≡ y +ℤ z +ℤ x
exchange x y z = omega int_laws

carry : (c t' a t b : ℤ) → t' +ℤ a ≡ t +ℤ b → c +ℤ t' +ℤ a ≡ c +ℤ t +ℤ b
carry c t' a t b h = grind int_laws

module _ {V : Type 0} where
  -- Replacing the row that a key finds exchanges its part of the sum.
  pub sum_by_ℤ-set :
      (f : V → ℤ) (k : ℕ) (a b : V) (t : Table V)
      → get k t ≡ some a
      → sum_by_ℤ (λ e. f e.1) (set k b t) +ℤ f a ≡ sum_by_ℤ (λ e. f e.1) t +ℤ f b
  sum_by_ℤ-set f k a b [] e = cc
  sum_by_ℤ-set f k a b ((j, v) ∷ t) e = elim (Bool-cases (k == j)) [
    | inl same ↦
        let here : v ≡ a = some-injective _ _ (rw same at e) in
        rw (same, here, sum_by_ℤ-cons, sum_by_ℤ-cons) (exchange _ _ _)
    | inr other ↦
        rw (other, sum_by_ℤ-cons, sum_by_ℤ-cons)
          (carry _ _ _ _ _ (sum_by_ℤ-set f k a b t (rw other at e)))
  ]

  -- A row under a new key adds its part.
  pub sum_by_ℤ-set_fresh :
      (f : V → ℤ) (k : ℕ) (b : V) (t : Table V)
      → get k t ≡ none
      → sum_by_ℤ (λ e. f e.1) (set k b t) ≡ sum_by_ℤ (λ e. f e.1) t +ℤ f b
  sum_by_ℤ-set_fresh f k b [] e = rw (sum_by_ℤ-cons, sum_by_ℤ-nil) (omega int_laws)
  sum_by_ℤ-set_fresh f k b ((j, v) ∷ t) e = elim (Bool-cases (k == j)) [
    | inl same ↦ absurd (found v (rw same at e))
    | inr other ↦
        rw (other, sum_by_ℤ-cons, sum_by_ℤ-cons, sum_by_ℤ-set_fresh f k b t (rw other at e))
          (omega int_laws)
  ]
    where
      found : (a : V) → some a ≢ none
      found a p = cc

  pub All-get :
      (P : V → Type 0) (k : ℕ) (a : V) (t : Table V) → get k t ≡ some a → All (λ e. P e.1) t → P a
  All-get P k a [] e h = cc
  All-get P k a ((j, v) ∷ t) e (p, h) = elim (Bool-cases (k == j)) [
    | inl same ↦ subst P (some-injective _ _ (rw same at e)) p
    | inr other ↦ All-get P k a t (rw other at e) h
  ]

  pub All-set :
      (P : V → Type 0) (k : ℕ) (b : V) (t : Table V)
      → P b
      → All (λ e. P e.1) t
      → All (λ e. P e.1) (set k b t)
  All-set P k b [] q h = (q, tt)
  All-set P k b ((j, v) ∷ t) q (p, h) = elim (Bool-cases (k == j)) [
    | inl same ↦ rw same (q, h)
    | inr other ↦ rw other (p, All-set P k b t q h)
  ]
