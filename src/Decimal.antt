-- ===== src/Decimal.antt =====
-- Python's `decimal.Decimal`, as far as the program uses it: coefficient / 10 ^ places.
-- Sums and products are exact, as they are within the context's 28 digits.
pub mod Units
pub mod Rounding
use escrow_hub.Common.{
  ℕ, ◌+◌, ◌-◌, ◌*◌, max, Bool, ℤ, pos, ◌+ℤ◌, ◌*ℤ◌, ◌-ℤ◌, scale, on_magnitude, ltb_ℤ, pow10, half_up,
  round_up,
}

pub record Decimal : Type 0 where
  pub coeff : ℤ
  pub places : ℕ

abbrev pub of_ℕ : ℕ → Decimal
of_ℕ n = record { coeff = pos n; places = 0 }

-- `Decimal("0")`
abbrev pub zero_amount : Decimal
zero_amount = of_ℕ 0

-- The coefficient written with `n` places, for n at least `places`.
unfoldable pub units : ℕ → Decimal → ℤ
units n d = scale d.coeff (pow10 (n - d.places))

infixl 65 ◌+ᵈ◌ ◌-ᵈ◌
infixl 70 ◌*ᵈ◌
-- The exponent of a sum is the finer one.
unfoldable pub ◌+ᵈ◌ : Decimal → Decimal → Decimal
unfolding units
a +ᵈ b = let m : ℕ = max a.places b.places in record { coeff = units m a +ℤ units m b; places = m }

unfoldable pub neg : Decimal → Decimal
neg a = record { coeff = pos 0 -ℤ a.coeff; places = a.places }

unfoldable pub ◌-ᵈ◌ : Decimal → Decimal → Decimal
unfolding neg ◌+ᵈ◌
a -ᵈ b = a +ᵈ neg b

unfoldable pub ◌*ᵈ◌ : Decimal → Decimal → Decimal
a *ᵈ b = record { coeff = a.coeff *ℤ b.coeff; places = a.places + b.places }

-- `a / Decimal("100")`
unfoldable pub div_hundred : Decimal → Decimal
div_hundred a = record { coeff = a.coeff; places = a.places + 2 }

-- `a < b`
unfoldable pub lt : Decimal → Decimal → Bool
unfolding units
lt a b = let m : ℕ = max a.places b.places in ltb_ℤ (units m a) (units m b)

-- `a.quantize(Decimal(10) ** -q, rounding=ROUND_HALF_UP)`: a tie goes away from zero.
unfoldable pub quantize : ℕ → Decimal → Decimal
quantize q a = record {
  coeff = on_magnitude (λ n. half_up (n * pow10 q) (pow10 a.places)) a.coeff;
  places = q;
}
