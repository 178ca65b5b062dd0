-- ===== src/Rea/Decimal/Round.antt =====
-- Digits of a coefficient, and rounding to even: the parts of decimal's `_fix` and division.
use sene_x.Common.{ℕ, zero, suc, ◌+◌, ◌*◌, ◌/◌, ◌%◌, ltb, ◌==◌, if◌then◌else◌}

-- The digits of a number that has at most as many as the fuel; 0 has one digit.
count_digits : ℕ → ℕ → ℕ
count_digits zero n = 1
count_digits (suc fuel) n =
    let rest = count_digits fuel (n / 10) in if ltb n 10 then 1 else suc rest

-- `len(str(n))`: a number has at most as many digits as its value, and one more at 0.
unfoldable pub digit_count : ℕ → ℕ
unfolding count_digits
digit_count n = count_digits n n

-- n / d rounded to the nearest, a tie to the even neighbour.
unfoldable pub half_even : ℕ → ℕ → ℕ
half_even n d =
    let q = n / d in
    let r = n % d in
    if ltb (2 * r) d then q else if ltb d (2 * r) then q + 1 else if q % 2 == 0 then q else q + 1

-- Trailing zeros go, at most as many as given; with the number that went.
unfoldable pub strip_zeros : ℕ → ℕ → ℕ × ℕ
strip_zeros zero q = (q, 0)
strip_zeros (suc k) q =
    let rest = strip_zeros k (q / 10) in if q % 10 == 0 then (rest.0, rest.1 + 1) else (q, 0)
