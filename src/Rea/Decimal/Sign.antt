-- ===== src/Rea/Decimal/Sign.antt =====
-- The sign of a difference, after rounding.
use sene_x.Common.{
  ℕ, ◌+◌, ◌-◌, ◌*◌, ◌^◌, ◌≡◌, refl, ◌⊎◌, inl, inr, Bool, true, false, not, xor, ltb, ◌==◌,
  if◌then◌else◌, arith,
}
use sene_x.Common.Int.{ℤ, leb_ℤ}
use sene_x.Rea.Decimal.{
  Decimal, leb_D, ltb_D, gap, aligned, signed, smaller, negate, exact_sum, round28, ◌+D◌, ◌-D◌,
}
use sene_x.Rea.Decimal.Order.{IsNonNegative}
use sene_x.Rea.Decimal.Round.{digit_count}

digit_count_zero : digit_count 0 - 28 ≡ 0
unfolding digit_count
digit_count_zero = refl

round28-IsNonNegative : (x : Decimal) → IsNonNegative x → IsNonNegative (round28 x)
unfolding round28
round28-IsNonNegative x (inl plus) = ground arith
round28-IsNonNegative x (inr none_left) = ground (arith, digit_count_zero)

-- A sum of two numbers in units of one exponent, from their signs and sizes.
abbrev sum_of : Bool → Bool → ℕ → ℕ → ℤ → Decimal
sum_of m n a b e =
    if xor m n
    then if a == b
      then record { negative = false; digits = 0; exponent = e }
      else if ltb a b
      then record { negative = n; digits = b - a; exponent = e }
      else record { negative = m; digits = a - b; exponent = e }
    else record { negative = m; digits = a + b; exponent = e }

sum-IsNonNegative :
    (m n : Bool) (a b : ℕ) (e : ℤ)
    → leb_ℤ (signed n b) (signed m a) ≡ true
    → IsNonNegative (sum_of m (not n) a b e)
unfolding signed mathlib.Core.Bool.xor
sum-IsNonNegative true true a b e h = ground arith
sum-IsNonNegative true false a b e h = ground arith
sum-IsNonNegative false true a b e h = ground arith
sum-IsNonNegative false false a b e h = ground arith

exact-IsNonNegative : (x y : Decimal) → leb_D y x ≡ true → IsNonNegative (exact_sum x (negate y))
unfolding exact_sum leb_D aligned gap
exact-IsNonNegative x y h =
    sum-IsNonNegative x.negative y.negative (x.digits * 10 ^ gap x.exponent y.exponent)
      (y.digits * 10 ^ gap y.exponent x.exponent) (smaller x.exponent y.exponent) h

-- What is not below another number leaves a difference that is not below zero, also after
-- rounding.
pub minus-IsNonNegative : (x y : Decimal) → ltb_D x y ≡ false → IsNonNegative (x -D y)
unfolding ◌-D◌
minus-IsNonNegative x y h =
    round28-IsNonNegative (exact_sum x (negate y)) (exact-IsNonNegative x y (ground arith))

sum_sign :
    (m n : Bool) (a b : ℕ) (e : ℤ)
    → (m ≡ false) ⊎ (a ≡ 0)
    → (n ≡ false) ⊎ (b ≡ 0)
    → IsNonNegative (sum_of m n a b e)
unfolding mathlib.Core.Bool.xor
sum_sign true true a b e p q = ground arith
sum_sign true false a b e p q = ground arith
sum_sign false true a b e p q = ground arith
sum_sign false false a b e p q = inl refl

scaled_sign : (m : Bool) (d k : ℕ) → (m ≡ false) ⊎ (d ≡ 0) → (m ≡ false) ⊎ (d * k ≡ 0)
scaled_sign m d k (inl plus) = inl plus
scaled_sign m d k (inr none_left) = inr (rw none_left (omega arith))

plus_sign : (x y : Decimal) → IsNonNegative x → IsNonNegative y → IsNonNegative (exact_sum x y)
unfolding exact_sum gap
plus_sign x y p q =
    let k = 10 ^ gap x.exponent y.exponent in
    let l = 10 ^ gap y.exponent x.exponent in
    sum_sign x.negative y.negative (x.digits * k) (y.digits * l) (smaller x.exponent y.exponent)
      (scaled_sign x.negative x.digits k p) (scaled_sign y.negative y.digits l q)

pub plus-IsNonNegative :
    (x y : Decimal) → IsNonNegative x → IsNonNegative y → IsNonNegative (x +D y)
unfolding ◌+D◌
plus-IsNonNegative x y p q = round28-IsNonNegative (exact_sum x y) (plus_sign x y p q)
