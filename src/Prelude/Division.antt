-- ===== src/Prelude/Division.antt =====
-- Quotients of native numbers: monotonicity, rounding up, and the block that an index falls into.
use native.Mathlib.Nat.{le-div_iff_mul-le, div-lt_iff_lt-mul, div-mul-le_self}
use native.Mathlib.Nat.{lt-div-mul-add, div-eq_of_lt-le}
use Prim.Native.Nat.{ℕ, ◌+◌, ◌-◌, ◌*◌, ◌/◌, ◌≤◌, ◌<◌}
use mathlib.Core.Path.{◌≡◌, ap}
use mathlib.Core.Logic.{◌↔◌}
use native.Mathlib.Omega.{arith}

pub div-le-div : (a b c d : ℕ) → a ≤ b → d ≤ c → 0 < d → a / c ≤ b / d
div-le-div a b c d h k p = (le-div_iff_mul-le {k = d} {x = a / c} {y = b} p).1 fits
  where
    smaller : a / c * d ≤ a / c * c
    smaller = grind arith

    fits : a / c * d ≤ b
    fits = omega (arith, smaller, div-mul-le_self a c)

-- `Math.ceil(a / b)` of a positive `b`.
abbrev pub ceil_div : ℕ → ℕ → ℕ
ceil_div a b = (a + b - 1) / b

pub ceil_div-le_iff : (a b k : ℕ) → 0 < b → (ceil_div a b ≤ k) ↔ (a ≤ k * b)
ceil_div-le_iff a b k p = (
  λ h. omega (arith, (div-lt_iff_lt-mul {k = b} {x = a + b - 1} {y = k + 1} p).0 (omega arith)),
  λ h. omega (arith, (div-lt_iff_lt-mul {k = b} {x = a + b - 1} {y = k + 1} p).1 (omega arith)),
)

-- Block `q` of width `n` holds the indices whose quotient is `q`.
pub block_iff : (q n i : ℕ) → 0 < n → ((q * n ≤ i) × (i < q * n + n)) ↔ (i / n ≡ q)
block_iff q n i p = (
  λ (lo, hi). div-eq_of_lt-le n lo (omega arith),
  λ e. (
    omega (arith, div-mul-le_self i n, ap (λ (t : ℕ). t * n) e),
    omega (arith, lt-div-mul-add {a = i} {b = n} p, ap (λ (t : ℕ). t * n) e),
  ),
)
