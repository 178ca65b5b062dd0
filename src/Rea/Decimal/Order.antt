-- ===== src/Rea/Decimal/Order.antt =====
-- The sign of a number, apart from how comparisons compute it.
use native.Mathlib.Nat.{pow-suc}
use sene_x.Common.{
  ℕ, zero, suc, ◌*◌, ◌^◌, ◌<◌, ◌≡◌, ◌⊎◌, inl, inr, true, false, ◌↔◌, Bool-cases, arith,
}
use sene_x.Common.Int.{pos}
use sene_x.Rea.Decimal.{Decimal, zero_D, leb_D, ltb_D, eqb_D, gap}

pub pow10_pos : (k : ℕ) → 0 < 10 ^ k
pow10_pos zero = omega arith
pow10_pos (suc k) = rw pow-suc (omega (arith, pow10_pos k))

product_zero : (d p : ℕ) → 0 < p → d * p ≡ 0 → d ≡ 0
product_zero d p h e = grind arith

product_pos : (d p : ℕ) → 0 < d * p → 0 < d
product_pos zero p h = absurd (omega arith)
product_pos (suc d) p h = omega arith

-- Not below zero: no sign, or the value zero.
abbrev pub IsNonNegative : Decimal → Type 0
IsNonNegative x = (x.negative ≡ false) ⊎ (x.digits ≡ 0)

-- Above zero.
abbrev pub IsPositive : Decimal → Type 0
IsPositive x = (x.negative ≡ false) × (0 < x.digits)

pub IsNonNegative-of_test : (x : Decimal) → ltb_D x zero_D ≡ false → IsNonNegative x
unfolding leb_D
IsNonNegative-of_test x h = elim (Bool-cases x.negative) [
  | inl minus ↦
      inr (product_zero x.digits (10 ^ gap x.exponent (pos 0)) (pow10_pos _) (ground arith))
  | inr plus ↦ inl plus
]

pub IsPositive-of_test : (x : Decimal) → leb_D x zero_D ≡ false → IsPositive x
unfolding leb_D
IsPositive-of_test x h = elim (Bool-cases x.negative) [
  | inl minus ↦ absurd (ground arith)
  | inr plus ↦ (plus, product_pos x.digits (10 ^ gap x.exponent (pos 0)) (ground arith))
]

pub eqb_zero_iff : (x : Decimal) → (eqb_D x zero_D ≡ true) ↔ (x.digits ≡ 0)
unfolding leb_D
eqb_zero_iff x =
    let p = 10 ^ gap x.exponent (pos 0) in
    (
      λ h.
          product_zero x.digits p (pow10_pos _)
            (elim (Bool-cases x.negative) [ inl minus ↦ ground arith | inr plus ↦ ground arith ]),
      λ e. elim (Bool-cases x.negative) [
        | inl minus ↦ ground (arith, e)
        | inr plus ↦ ground (arith, e)
      ],
    )

pub leb_refl : (x : Decimal) → leb_D x x ≡ true
unfolding leb_D
leb_refl x = ground arith

pub leb_total : (x y : Decimal) → leb_D y x ≡ false → leb_D x y ≡ true
unfolding leb_D
leb_total x y h = ground arith
