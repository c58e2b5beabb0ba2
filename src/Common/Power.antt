-- ===== src/Common/Power.antt =====
-- Powers of ten, and the two ways in which the program rounds a quotient of naturals.
use Prim.Native.Nat.{ℕ, zero, suc, ◌+◌, ◌-◌, ◌*◌, ◌/◌, ◌≤◌, ◌<◌}
use mathlib.Core.Path.{◌≡◌}
use Prim.Native.Nat.add
use native.Mathlib.Nat.{
  mul-div-mul_right, div-mul-le_self, le-div_iff_mul-le, mul-div-le, lt-mul-div-succ,
  div-eq_of_lt-le,
}
use native.Mathlib.Omega.{arith}

unfoldable pub pow10 : ℕ → ℕ
pow10 zero = 1
pow10 (suc n) = 10 * pow10 n

pub pow10_pos : (n : ℕ) → 0 < pow10 n
unfolding pow10
pow10_pos zero = omega arith
pow10_pos (suc n) = omega (arith, pow10_pos n)

pub pow10-add : (m n : ℕ) → pow10 (m + n) ≡ pow10 m * pow10 n
unfolding pow10
pow10-add zero n = ground (arith, add.zero n)
pow10-add (suc m) n = ground (arith, add.suc m n, pow10-add m n)

-- The nearest integer to n / d; a tie goes up.
unfoldable pub half_up : ℕ → ℕ → ℕ
half_up n d = (2 * n + d) / (2 * d)

-- The least integer that is n / d or more.
unfoldable pub round_up : ℕ → ℕ → ℕ
round_up n d = (n + (d - 1)) / d

pub half_up_bounds :
    (n d : ℕ)
    → 0 < d
    → (2 * d * half_up n d ≤ 2 * n + d) × (2 * n + d < 2 * d * half_up n d + 2 * d)
unfolding half_up
half_up_bounds n d h = (
  mul-div-le (2 * n + d) (2 * d),
  omega (arith, lt-mul-div-succ (2 * n + d) {b = 2 * d} (omega arith)),
)

pub half_up_unique :
    (n d q : ℕ) → 0 < d → 2 * d * q ≤ 2 * n + d → 2 * n + d < 2 * d * q + 2 * d → half_up n d ≡ q
unfolding half_up
half_up_unique n d q h lo hi =
    div-eq_of_lt-le {k = q} (2 * d) {m = 2 * n + d} (omega arith) (omega arith)

-- Rounding sees the quotient only: a common factor cancels.
pub half_up-mul : (n d k : ℕ) → 0 < d → 0 < k → half_up (n * k) (d * k) ≡ half_up n d
unfolding half_up
half_up-mul n d k hd hk =
    let top : 2 * (n * k) + d * k ≡ (2 * n + d) * k = omega arith in
    let bottom : 2 * (d * k) ≡ 2 * d * k = omega arith in
    rw (top, bottom) (mul-div-mul_right {m = k} (2 * n + d) (2 * d) hk)

-- A whole number of units passes through the rounding.
pub half_up-add : (n d m : ℕ) → 0 < d → half_up (n + m * d) d ≡ half_up n d + m
half_up-add n d m hd =
    let (lo, hi) = half_up_bounds n d hd in
    half_up_unique (n + m * d) d (half_up n d + m) hd (omega arith) (omega arith)

pub half_up_exact : (m d : ℕ) → 0 < d → half_up (m * d) d ≡ m
half_up_exact m d hd = half_up_unique (m * d) d m hd (omega arith) (omega arith)

pub half_up_mono : (m n d : ℕ) → 0 < d → m ≤ n → half_up m d ≤ half_up n d
unfolding half_up
half_up_mono m n d hd h =
    (le-div_iff_mul-le {k = 2 * d} (omega arith)).1
      (omega (arith, div-mul-le_self (2 * m + d) (2 * d)))
