-- ===== src/Rea/Decimal.antt =====
-- Python's `decimal.Decimal`, as research/rea_engines uses it: finite numbers with a sign, a
-- coefficient and a power of ten, comparisons that are exact, and operations that round to the
-- 28 digits of the default context, half to even. The context's exponent limits are left out.
mod Round
pub mod Order
pub mod Sign
use sene_x.Common.{
  ℕ, zero, suc, ◌+◌, ◌-◌, ◌*◌, ◌/◌, ◌%◌, ◌^◌, Bool, true, false, not, xor, ◌&&◌, ◌||◌, ltb, leb,
  ◌==◌, if◌then◌else◌,
}
use sene_x.Common.Int.{ℤ, pos, pos_part, sub_ℕ, ◌+ℤ◌, ◌-ℤ◌, leb_ℤ}
use Round.{digit_count, half_even, strip_zeros}

-- The value is ± digits · 10 ^ exponent; `str` tells two such triples apart.
pub record Decimal : Type 0 where
  pub negative : Bool
  pub digits : ℕ
  pub exponent : ℤ

abbrev pub from_ℕ : ℕ → Decimal
from_ℕ n = record { negative = false; digits = n; exponent = pos 0 }

-- `Decimal("0")`
abbrev pub zero_D : Decimal
zero_D = from_ℕ 0

-- `str(x) == str(y)`
unfoldable pub same_text : Decimal → Decimal → Bool
same_text x y =
    not (xor x.negative y.negative)
    && (x.digits == y.digits)
    && leb_ℤ x.exponent y.exponent
    && leb_ℤ y.exponent x.exponent

-- How many decimal places the first exponent stands above the second.
gap : ℤ → ℤ → ℕ
unfolding ◌-ℤ◌
gap a b = pos_part (a -ℤ b)

signed : Bool → ℕ → ℤ
signed true n = sub_ℕ 0 n
signed false n = pos n

-- The first number in units of the smaller exponent of the two.
aligned : Decimal → Decimal → ℤ
unfolding gap signed
aligned x y = signed x.negative (x.digits * 10 ^ gap x.exponent y.exponent)

-- `x <= y`, `x < y`, `x == y`
unfoldable pub leb_D : Decimal → Decimal → Bool
unfolding aligned
leb_D x y = leb_ℤ (aligned x y) (aligned y x)

abbrev pub ltb_D : Decimal → Decimal → Bool
ltb_D x y = not (leb_D y x)

abbrev pub eqb_D : Decimal → Decimal → Bool
eqb_D x y = leb_D x y && leb_D y x

-- The result of an operation, rounded to the precision of the context.
unfoldable pub round28 : Decimal → Decimal
unfolding digit_count half_even ◌+ℤ◌
round28 x =
    let excess = digit_count x.digits - 28 in
    let kept = half_even x.digits (10 ^ excess) in
    if excess == 0
    then x
    else if kept == 10 ^ 28
    then record x { digits = 10 ^ 27; exponent = x.exponent +ℤ pos (excess + 1) }
    else record x { digits = kept; exponent = x.exponent +ℤ pos excess }

smaller : ℤ → ℤ → ℤ
smaller a b = if leb_ℤ a b then a else b

-- A sum before rounding: at the smaller exponent, a zero of two signs is positive.
unfoldable pub exact_sum : Decimal → Decimal → Decimal
unfolding gap smaller
exact_sum x y =
    let e = smaller x.exponent y.exponent in
    let a = x.digits * 10 ^ gap x.exponent y.exponent in
    let b = y.digits * 10 ^ gap y.exponent x.exponent in
    if xor x.negative y.negative
    then if a == b
      then record { negative = false; digits = 0; exponent = e }
      else if ltb a b
      then record { negative = y.negative; digits = b - a; exponent = e }
      else record { negative = x.negative; digits = a - b; exponent = e }
    else record { negative = x.negative; digits = a + b; exponent = e }

-- `copy_negate`
abbrev pub negate : Decimal → Decimal
negate x = record x { negative = not x.negative }

infixl 65 ◌+D◌ ◌-D◌
infixl 70 ◌*D◌ ◌/D◌
unfoldable pub ◌+D◌ : Decimal → Decimal → Decimal
unfolding exact_sum round28
x +D y = round28 (exact_sum x y)

unfoldable pub ◌-D◌ : Decimal → Decimal → Decimal
unfolding exact_sum round28
x -D y = round28 (exact_sum x (negate y))

unfoldable pub ◌*D◌ : Decimal → Decimal → Decimal
unfolding ◌+ℤ◌ round28
x *D y = round28 (record {
  negative = xor x.negative y.negative;
  digits = x.digits * y.digits;
  exponent = x.exponent +ℤ y.exponent;
})

-- The quotient to 29 digits or more, its last digit marking an inexact division.
quotient : Decimal → Decimal → ℕ → ℕ → ℤ → Decimal
unfolding ◌-ℤ◌ strip_zeros
quotient x y up down ideal =
    let n = x.digits * 10 ^ up in
    let d = y.digits * 10 ^ down in
    let q = n / d in
    let e = ideal -ℤ pos up +ℤ pos down in
    let (q', dropped) = strip_zeros up q in
    if n % d == 0
    then record { negative = xor x.negative y.negative; digits = q'; exponent = e +ℤ pos dropped }
    else record {
      negative = xor x.negative y.negative;
      digits = if q % 5 == 0 then q + 1 else q;
      exponent = e;
    }

-- `x / y` for a divisor that is not zero: the program divides by no other.
unfoldable pub ◌/D◌ : Decimal → Decimal → Decimal
unfolding quotient digit_count ◌-ℤ◌ ◌+ℤ◌ round28
x /D y =
    let dx = digit_count x.digits in
    let dy = digit_count y.digits in
    let ideal = x.exponent -ℤ y.exponent in
    if x.digits == 0
    then record { negative = xor x.negative y.negative; digits = 0; exponent = ideal }
    else round28 (quotient x y (dy + 29 - dx) (dx - (dy + 29)) ideal)

-- `abs(x)`, which rounds too.
unfoldable pub abs : Decimal → Decimal
unfolding round28
abs x = round28 (record x { negative = false })
