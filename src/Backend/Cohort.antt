-- ===== src/Backend/Cohort.antt =====
-- The independent hourly cohort of the authoritative score
-- (senecio_polymarket/backend/authoritative_score.py).
pub mod Largest
pub mod Tests
use sene_x.Common.{
  ℕ, ◌+◌, String, Bool, true, false, ◌&&◌, ◌||◌, ◌==◌, ltb, leb, if◌then◌else◌, List, [], ◌∷◌,
  Option, none, some,
}
use sene_x.Common.Text.{text_eq, text_lt}

-- What the sort reads of a row: `_ts_seconds` in microseconds, nothing for infinity; the row's ID
-- as a text, empty when there is none; and the row's JSON with sorted keys.
pub record Keys (R : Type 0) : Type 0 where
  pub time : R → Option ℕ
  pub id : R → String
  pub canonical : R → String

abbrev pub independent_horizon : ℕ
independent_horizon = 3600000000

abbrev pub sooner : Option ℕ → Option ℕ → Bool
sooner (some a) (some b) = ltb a b
sooner (some a) none = true
sooner none b = false

abbrev pub at_once : Option ℕ → Option ℕ → Bool
at_once (some a) (some b) = a == b
at_once none none = true
at_once _ _ = false

-- A row can follow the last one that was selected.
abbrev pub is_independent : Option ℕ → ℕ → Bool
is_independent none t = true
is_independent (some last) t = leb (last + independent_horizon) t

module _ {R : Type 0} (k : Keys R) where
  -- The order of `_stable_row_key`.
  abbrev pub key_before : R → R → Bool
  key_before a b =
      sooner (k.time a) (k.time b)
      || (at_once (k.time a) (k.time b)
          && (text_lt (k.id a) (k.id b)
              || (text_eq (k.id a) (k.id b) && text_lt (k.canonical a) (k.canonical b))))

  unfoldable pub insert_by_key : R → List R → List R
  insert_by_key r [] = r ∷ []
  insert_by_key r (q ∷ qs) =
      let rest = insert_by_key r qs in if key_before q r then q ∷ rest else r ∷ q ∷ qs

  -- `sorted(rows, key=_stable_row_key)`
  unfoldable pub sorted_rows : List R → List R
  unfolding insert_by_key
  sorted_rows [] = []
  sorted_rows (r ∷ rs) = insert_by_key r (sorted_rows rs)

  -- A row of the loop, with what the rest selects after it and without it.
  abbrev pub choose_row : Option ℕ → R → Option ℕ → (ℕ → List R) → List R → List R
  choose_row last r none after without = without
  choose_row last r (some t) after without = if is_independent last t then r ∷ after t else without

  -- The loop over the sorted rows, with `last_ts`.
  unfoldable pub select_rows : Option ℕ → List R → List R
  select_rows last [] = []
  select_rows last (r ∷ rs) =
      choose_row last r (k.time r) (λ t. select_rows (some t) rs) (select_rows last rs)

  -- `independent_1h_cohort`
  unfoldable pub independent_1h_cohort : List R → List R
  unfolding sorted_rows select_rows
  independent_1h_cohort rs = select_rows none (sorted_rows rs)
