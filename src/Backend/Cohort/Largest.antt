-- ===== src/Backend/Cohort/Largest.antt =====
-- The cohort is spaced by an hour, and no spaced choice of the rows is larger.
use sene_x.Common.{
  ℕ, suc, ◌+◌, ◌≤◌, ◌≡◌, sym, ap, subst, ◌∙◌, ◌⊎◌, inl, inr, Bool, true, false, ◌&&◌, ◌||◌, List,
  [], ◌∷◌, length, All, Option, none, some, Bool-cases, Option-cases, arith,
}
use sene_x.Backend.Cohort.{
  Keys, independent_horizon, sooner, at_once, is_independent, key_before, insert_by_key,
  sorted_rows, select_rows, independent_1h_cohort,
}

-- Two times, both finite, the second at least an hour after the first.
abbrev pub IsApart : Option ℕ → Option ℕ → Type 0
IsApart (some a) (some b) = a + independent_horizon ≤ b
IsApart _ _ = ⊥

-- The time is finite and, after a selection, at least an hour later.
abbrev pub IsFree : Option ℕ → Option ℕ → Type 0
IsFree last none = ⊥
IsFree none (some b) = Unit
IsFree (some a) (some b) = a + independent_horizon ≤ b

-- Not later, infinity last.
abbrev IsBelow : Option ℕ → Option ℕ → Type 0
IsBelow (some a) (some b) = a ≤ b
IsBelow a none = Unit
IsBelow none (some b) = ⊥

module _ {R : Type 0} (k : Keys R) where
  -- Each row's time is finite, and every later one's is an hour or more after it.
  abbrev pub IsSpaced : List R → Type 0
  IsSpaced [] = Unit
  IsSpaced (r ∷ rs) =
      IsFree none (k.time r) × (All (λ q. IsApart (k.time r) (k.time q)) rs × IsSpaced rs)

  -- The row is one of the list.
  abbrev pub IsIn : R → List R → Type 0
  IsIn r [] = ⊥
  IsIn r (q ∷ qs) = (r ≡ q) ⊎ IsIn r qs

  abbrev IsSorted : List R → Type 0
  IsSorted [] = Unit
  IsSorted (r ∷ rs) = All (λ q. IsBelow (k.time r) (k.time q)) rs × IsSorted rs

  All-map : (P Q : R → Type 0) (rs : List R) → ((r : R) → P r → Q r) → All P rs → All Q rs
  All-map P Q [] f all = tt
  All-map P Q (r ∷ rs) f (first, rest) = (f r first, All-map P Q rs f rest)

  insert-All :
      (Q : R → Type 0) (r : R) (rs : List R) → Q r → All Q rs → All Q (insert_by_key k r rs)
  unfolding insert_by_key
  insert-All Q r [] q all = (q, tt)
  insert-All Q r (s ∷ ss) q (first, rest) = elim (Bool-cases (key_before k s r)) [
    | inl before ↦ rw before (first, insert-All Q r ss q rest)
    | inr after ↦ rw after (q, (first, rest))
  ]

  IsBelow-trans : (a b c : Option ℕ) → IsBelow a b → IsBelow b c → IsBelow a c
  IsBelow-trans a b c h l = ground (arith, h, l)

  before-IsBelow : (s r : R) → key_before k s r ≡ true → IsBelow (k.time s) (k.time r)
  before-IsBelow s r h = from (k.time s) (k.time r) _ h
    where
      from : (a b : Option ℕ) (x : Bool) → (sooner a b || (at_once a b && x)) ≡ true → IsBelow a b
      from a b x h = ground (arith, h)

  after-IsBelow : (s r : R) → key_before k s r ≡ false → IsBelow (k.time r) (k.time s)
  after-IsBelow s r h = from (k.time s) (k.time r) _ h
    where
      from : (a b : Option ℕ) (x : Bool) → (sooner a b || (at_once a b && x)) ≡ false → IsBelow b a
      from a b x h = ground (arith, h)

  insert-IsSorted : (r : R) (rs : List R) → IsSorted rs → IsSorted (insert_by_key k r rs)
  unfolding insert_by_key
  insert-IsSorted r [] sorted = (tt, tt)
  insert-IsSorted r (s ∷ ss) (first, rest) = elim (Bool-cases (key_before k s r)) [
    | inl before ↦
        rw before (insert-All _ r ss (before-IsBelow s r before) first, insert-IsSorted r ss rest)
    | inr after ↦
        let below = after-IsBelow s r after in
        rw after (
          (below, All-map _ _ ss (λ q. IsBelow-trans (k.time r) (k.time s) (k.time q) below) first),
          (first, rest),
        )
  ]

  sorted_rows-IsSorted : (rs : List R) → IsSorted (sorted_rows k rs)
  unfolding sorted_rows
  sorted_rows-IsSorted [] = tt
  sorted_rows-IsSorted (r ∷ rs) = insert-IsSorted r (sorted_rows k rs) (sorted_rows-IsSorted rs)

  insert-IsIn : (y r : R) (rs : List R) → (y ≡ r) ⊎ IsIn y rs → IsIn y (insert_by_key k r rs)
  unfolding insert_by_key
  insert-IsIn y r [] h = h
  insert-IsIn y r (s ∷ ss) h = elim (Bool-cases (key_before k s r)) [
    | inl before ↦ rw before (moved (insert-IsIn y r ss) h)
    | inr after ↦ rw after h
  ]
    where
      moved :
          ((y ≡ r) ⊎ IsIn y ss → IsIn y (insert_by_key k r ss))
          → (y ≡ r) ⊎ ((y ≡ s) ⊎ IsIn y ss)
          → (y ≡ s) ⊎ IsIn y (insert_by_key k r ss)
      moved rest (inl is) = inr (rest (inl is))
      moved rest (inr (inl is)) = inl is
      moved rest (inr (inr later)) = inr (rest (inr later))

  sorted_rows-IsIn : (y : R) (rs : List R) → IsIn y rs → IsIn y (sorted_rows k rs)
  unfolding sorted_rows
  sorted_rows-IsIn y [] h = elim h [ ]
  sorted_rows-IsIn y (r ∷ rs) (inl is) = insert-IsIn y r (sorted_rows k rs) (inl is)
  sorted_rows-IsIn y (r ∷ rs) (inr later) =
      insert-IsIn y r (sorted_rows k rs) (inr (sorted_rows-IsIn y rs later))

  -- What the loop selects is free of the last selection and spaced.
  select-IsSpaced :
      (last : Option ℕ) (rs : List R)
      → All (λ q. IsFree last (k.time q)) (select_rows k last rs) × IsSpaced (select_rows k last rs)
  unfolding select_rows
  select-IsSpaced last [] = (tt, tt)
  select-IsSpaced last (r ∷ rs) = elim (Option-cases (k.time r)) [
    | inl never ↦ rw never (select-IsSpaced last rs)
    | inr (t, at) ↦ elim (Bool-cases (is_independent last t)) [
      | inr soon ↦ rw (at, soon) (select-IsSpaced last rs)
      | inl free ↦
          let (all_free, spaced) = select-IsSpaced (some t) rs in
          rw (at, free)
            (
              (
                subst (IsFree last) (sym at) (now last t free),
                All-map _ _ _ (λ q. later last t (k.time q) free) all_free,
              ),
              (
                subst (IsFree none) (sym at) tt,
                (
                  All-map _ _ _
                      (λ q h. subst (λ x. IsApart x (k.time q)) (sym at) (apart t (k.time q) h))
                      all_free,
                  spaced,
                ),
              ),
            )
    ]
  ]
    where
      apart : (t : ℕ) (x : Option ℕ) → IsFree (some t) x → IsApart (some t) x
      apart t x h = ground (arith, h)

      now : (l : Option ℕ) (t : ℕ) → is_independent l t ≡ true → IsFree l (some t)
      now l t free = ground (arith, free)

      later :
          (l : Option ℕ) (t : ℕ) (x : Option ℕ)
          → is_independent l t ≡ true
          → IsFree (some t) x
          → IsFree l x
      later l t x free h = ground (arith, free, h)

  -- Rows of a list that are not its head are rows of its tail.
  tail-IsIn :
      (Q : R → Type 0) (r : R) (rs ys : List R)
      → ((y : R) → Q y → ¬ (y ≡ r))
      → All Q ys
      → All (λ y. IsIn y (r ∷ rs)) ys
      → All (λ y. IsIn y rs) ys
  tail-IsIn Q r rs [] other all chosen = tt
  tail-IsIn Q r rs (y ∷ ys) other (q, all) (inl is, chosen) = absurd (other y q is)
  tail-IsIn Q r rs (y ∷ ys) other (q, all) (inr later, chosen) =
      (later, tail-IsIn Q r rs ys other all chosen)

  member-All : (Q : R → Type 0) (y : R) (rs : List R) → IsIn y rs → All Q rs → Q y
  member-All Q y [] h all = elim h [ ]
  member-All Q y (r ∷ rs) (inl is) (q, all) = subst Q (sym is) q
  member-All Q y (r ∷ rs) (inr later) (q, all) = member-All Q y rs later all

  -- Among sorted rows, the loop selects at least as many as any spaced choice that is free of the
  -- last selection.
  select-largest :
      (last : Option ℕ) (rs ys : List R)
      → IsSorted rs
      → IsSpaced ys
      → All (λ y. IsFree last (k.time y)) ys
      → All (λ y. IsIn y rs) ys
      → length ys ≤ length (select_rows k last rs)
  unfolding select_rows
  select-largest last [] [] sorted spaced free chosen = omega arith
  select-largest last [] (y ∷ ys) sorted spaced free (here_in, rest) = elim here_in [ ]
  select-largest last (r ∷ rs) ys (below, sorted) spaced free chosen =
      elim (Option-cases (k.time r)) [
        | inl never ↦ rw never (
            select-largest last rs ys sorted spaced free (
              tail-IsIn _ r rs ys
                (λ y f is. never_free last (subst (IsFree last) (ap k.time is ∙ never) f)) free
                chosen))
        | inr (t, at) ↦ elim (Bool-cases (is_independent last t)) [
          | inr soon ↦
              rw (at, soon)
                (select-largest last rs ys sorted spaced free (
                  tail-IsIn _ r rs ys
                    (λ y f is. too_soon last t soon (subst (IsFree last) (ap k.time is ∙ at) f))
                    free chosen))
          | inl ready ↦
              rw (at, ready)
                (first_of t at ys spaced chosen
                  (λ zs s f c. select-largest (some t) rs zs sorted s f c))
        ]
      ]
    where
      never_free : (l : Option ℕ) → ¬ (IsFree l none)
      never_free l f = ground (arith, f)

      too_soon : (l : Option ℕ) (t : ℕ) → is_independent l t ≡ false → ¬ (IsFree l (some t))
      too_soon l t soon f = ground (arith, soon, f)

      not_before : (t : ℕ) (y z : Option ℕ) → IsBelow (some t) y → IsApart y z → IsFree (some t) z
      not_before t y z le apart = ground (arith, le, apart)

      at_head : (t : ℕ) → ¬ (IsFree (some t) (some t))
      at_head t f = omega (arith, f)

      below_member :
          (t : ℕ) (y : R) → k.time r ≡ some t → IsIn y (r ∷ rs) → IsBelow (some t) (k.time y)
      below_member t y at (inl is) =
          subst (IsBelow (some t)) (sym (ap k.time is ∙ at)) (omega arith)
      below_member t y at (inr later) =
          subst (λ x. IsBelow x (k.time y)) at (member-All _ y rs later below)

      first_of :
          (t : ℕ)
          → k.time r ≡ some t
          → (zs : List R) → IsSpaced zs
          → All (λ y. IsIn y (r ∷ rs)) zs
          → ((xs : List R)
              → IsSpaced xs
              → All (λ y. IsFree (some t) (k.time y)) xs
              → All (λ y. IsIn y rs) xs
              → length xs ≤ length (select_rows k (some t) rs))
          → length zs ≤ suc (length (select_rows k (some t) rs))
      first_of t at [] spaced chosen rest = omega arith
      first_of t at (y ∷ zs) (finite, (apart, spaced)) (here_in, chosen) rest =
          let after =
            All-map _ _ zs (λ z. not_before t (k.time y) (k.time z) (below_member t y at here_in))
              apart in
          let le = rest zs spaced after (
            tail-IsIn _ r rs zs
              (λ z f is. at_head t (subst (IsFree (some t)) (ap k.time is ∙ at) f)) after chosen) in
          omega (arith, le)

  -- The cohort of `independent_1h_cohort` has only rows with a time, each at least an hour after
  -- the ones before. Any choice of the rows that is spaced so has no more rows than the cohort.
  pub independent_1h_cohort-largest :
      (rs ys : List R)
      → IsSpaced ys
      → All (λ y. IsIn y rs) ys
      → IsSpaced (independent_1h_cohort k rs) × (length ys ≤ length (independent_1h_cohort k rs))
  unfolding independent_1h_cohort
  independent_1h_cohort-largest rs ys spaced chosen = (
    (select-IsSpaced none (sorted_rows k rs)).1,
    select-largest none (sorted_rows k rs) ys (sorted_rows-IsSorted rs) spaced (free ys spaced)
        (All-map _ _ ys (λ y. sorted_rows-IsIn y rs) chosen),
  )
    where
      free : (ys : List R) → IsSpaced ys → All (λ y. IsFree none (k.time y)) ys
      free [] spaced = tt
      free (y ∷ ys) (finite, (apart, spaced)) = (finite, free ys spaced)
