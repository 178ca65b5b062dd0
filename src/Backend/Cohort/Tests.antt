-- ===== src/Backend/Cohort/Tests.antt =====
-- The hourly cohort of three concrete rows (senecio_polymarket/backend/authoritative_score.py).
use sene_x.Common.{
  ℕ, ◌*◌, ◌≤◌, ◌==◌, if◌then◌else◌, ◌≡◌, refl, inl, inr, List, [], ◌∷◌, length, Option, none, some,
  arith,
}
use sene_x.Backend.Cohort.{Keys, insert_by_key, sorted_rows, select_rows, independent_1h_cohort}
use sene_x.Backend.Cohort.Largest.{IsSpaced, independent_1h_cohort-largest}

-- A row is its minute; minute 7 stands for a row whose time does not read.
abbrev time_of : ℕ → Option ℕ
time_of m = if m == 7 then none else some (m * 60000000)

abbrev minutes : Keys ℕ
minutes = record { time = time_of; id = λ m. ""; canonical = λ m. "" }

abbrev rows : List ℕ
rows = 95 ∷ 30 ∷ 7 ∷ 0 ∷ []

-- Half past and five past: a spaced choice.
abbrev choice : List ℕ
choice = 30 ∷ 95 ∷ []

selected : independent_1h_cohort minutes rows ≡ 0 ∷ 95 ∷ []
unfolding independent_1h_cohort sorted_rows insert_by_key select_rows
selected = refl

independent_1h_cohort-largest_example :
    IsSpaced minutes (independent_1h_cohort minutes rows)
    × (length choice ≤ length (independent_1h_cohort minutes rows))
independent_1h_cohort-largest_example =
    independent_1h_cohort-largest minutes rows choice (tt, ((omega arith, tt), (tt, (tt, tt))))
      (inr (inl refl), (inl refl, tt))
