-- ===== src/Common/Rounding.antt =====
-- `round2(n) = Math.round(n * 100) / 100` on amounts in whole cents. `round2 a d` is the rounded
-- value, in cents, of a/d cents: the nearest whole cent, a tie going up, as `Math.round` does.
use Prim.Native.Nat.{ℕ, suc, ◌+◌, ◌-◌, ◌*◌, ◌/◌, ◌≤◌, ◌<◌}
use native.Mathlib.Nat.{div-lt_iff_lt-mul, le-div_iff_mul-le, div-mul-le_self}
use mathlib.Core.Path.{◌≡◌, ap}
use native.Mathlib.Omega.{arith}
use nexus_efos.Common.Int.{ℤ, pos, negsuc, ◌-ℤ◌}

unfoldable pub round2 : ℕ → ℕ → ℕ
round2 a d = (2 * a + d) / (2 * d)

-- The same on signed amounts: the floor of a/d + 1/2.
unfoldable pub round2_ℤ : ℤ → ℕ → ℤ
unfolding round2 ◌-ℤ◌
round2_ℤ (pos a) d = pos (round2 a d)
round2_ℤ (negsuc n) d = pos 0 -ℤ pos ((2 * suc n + d - 1) / (2 * d))

-- A whole number of cents is left alone.
pub round2-one : (a : ℕ) → round2 a 1 ≡ a
unfolding round2
round2-one a = omega arith

pub round2_ℤ-one : (a : ℤ) → round2_ℤ a 1 ≡ a
unfolding round2_ℤ
round2_ℤ-one (pos a) = ap pos (round2-one a)
round2_ℤ-one (negsuc n) = ground arith

-- A quotient that rounds to less than k is below k - 1/2, and one that is at most k rounds to at
-- most k.
pub lt_of_round2 : (a d k : ℕ) → 0 < d → round2 a d < k → 2 * a + d < k * (2 * d)
unfolding round2
lt_of_round2 a d k h below =
    (div-lt_iff_lt-mul {k = 2 * d} {x = 2 * a + d} {y = k} (omega arith)).0 below

pub round2_le : (a d k : ℕ) → 0 < d → a ≤ k * d → round2 a d ≤ k
unfolding round2
round2_le a d k h bound = omega (
  arith,
  (div-lt_iff_lt-mul {k = 2 * d} {x = 2 * a + d} {y = suc k} (omega arith)).1 (omega arith),
)

pub round2_mono : (a b d : ℕ) → 0 < d → a ≤ b → round2 a d ≤ round2 b d
unfolding round2
round2_mono a b d h le =
    (le-div_iff_mul-le {k = 2 * d} {x = round2 a d} {y = 2 * b + d} (omega arith)).1
      (omega (arith, div-mul-le_self (2 * a + d) (2 * d)))

-- A rounded quotient is within half a cent of the exact one.
pub round2-nearest :
    (a d : ℕ) → 0 < d → (2 * (d * round2 a d) ≤ 2 * a + d) × (2 * a < 2 * (d * round2 a d) + d)
unfolding round2
round2-nearest a d h =
    let below = div-mul-le_self (2 * a + d) (2 * d) in
    let above = lt_of_round2 a d (suc (round2 a d)) h (omega arith) in
    let flip : round2 a d * (2 * d) ≡ 2 * (d * round2 a d) = grind arith in
    let step : suc (round2 a d) * (2 * d) ≡ 2 * (d * round2 a d) + 2 * d = grind arith in
    (omega arith, omega arith)
