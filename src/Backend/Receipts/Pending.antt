-- ===== src/Backend/Receipts/Pending.antt =====
-- The order and the number of what `pending` returns, and the counts of `summary`.
use mathlib.Core.List.{Perm}
use mathlib.Core.List.Perm
use sene_x.Common.{
  ℕ, suc, ◌+◌, ◌-◌, ◌≤◌, ◌≡◌, refl, inl, inr, true, leb, List, [], ◌∷◌, length, All, ok, Bool-cases,
  arith,
}
use sene_x.Common.Int.{pos}
use sene_x.Backend.Receipts.Lines.{Json, File}
use sene_x.Backend.Receipts.Store.{State, whole, states}
use sene_x.Backend.Receipts.Queue.{
  take, count_persisted, Summary, summary_of, is_pending, unresolved, insert_key, sort_by_key,
  summary, comes_before, insert_pending, sort_pending, pending,
}
use sene_x.Backend.Receipts.Recovery.{IsJson}
use sene_x.Backend.Receipts.Keeping.{AllWhole}
use sene_x.Backend.Receipts.History.{no_file, Reach, states-Tells, reached}

module _ {P : Type 0} where
  -- The index of the last event is not above that of any later one.
  abbrev pub IsOldestFirst : List (State P) → Type 0
  IsOldestFirst [] = Unit
  IsOldestFirst (s ∷ ss) =
      All (λ (t : State P). s.last_event_index ≤ t.last_event_index) ss × IsOldestFirst ss

  length-take : (n : ℕ) (xs : List (State P)) → length (take n xs) ≤ n
  length-take n [] = omega arith
  length-take n (x ∷ xs) = ground (arith, length-take (n - 1) xs)

  unresolved-All : (ss : List (State P)) → All (λ s. is_pending s ≡ true) (unresolved ss)
  unfolding unresolved
  unresolved-All [] = tt
  unresolved-All (s ∷ ss) = elim (Bool-cases (is_pending s)) [
    | inl open_yet ↦ rw open_yet (open_yet, unresolved-All ss)
    | inr settled ↦ rw settled (unresolved-All ss)
  ]

  -- With a prediction in every state, the states are the persisted ones and those to list.
  count-split :
      (ss : List (State P)) → AllWhole ss → length ss ≡ count_persisted ss + length (unresolved ss)
  unfolding count_persisted unresolved
  count-split [] all = omega arith
  count-split (s ∷ ss) ((long, given), rest) = ground (arith, count-split ss rest, given)

  length-insert_key :
      (s : State P) (ss : List (State P)) → length (insert_key s ss) ≡ suc (length ss)
  unfolding insert_key
  length-insert_key s [] = refl
  length-insert_key s (t ∷ ts) = ground (arith, length-insert_key s ts)

  length-sort_by_key : (ss : List (State P)) → length (sort_by_key ss) ≡ length ss
  unfolding sort_by_key
  length-sort_by_key [] = refl
  length-sort_by_key (s ∷ ss) =
      omega (arith, length-insert_key s (sort_by_key ss), length-sort_by_key ss)

  count-insert_key :
      (s : State P) (ss : List (State P))
      → count_persisted (insert_key s ss) ≡ count_persisted (s ∷ ss)
  unfolding insert_key count_persisted
  count-insert_key s [] = refl
  count-insert_key s (t ∷ ts) = ground (arith, count-insert_key s ts)

  count-sort_by_key : (ss : List (State P)) → count_persisted (sort_by_key ss) ≡ count_persisted ss
  unfolding sort_by_key count_persisted
  count-sort_by_key [] = refl
  count-sort_by_key (s ∷ ss) =
      ground (arith, count-insert_key s (sort_by_key ss), count-sort_by_key ss)

module _ {Raw P : Type 0} (j : Json Raw P) where
  insert_pending-Perm : (s : State P) (ts : List (State P)) → Perm (s ∷ ts) (insert_pending j s ts)
  unfolding insert_pending
  insert_pending-Perm s [] = Perm.refl (s ∷ [])
  insert_pending-Perm s (t ∷ ts) = elim (Bool-cases (comes_before j t s)) [
    | inl before ↦
        rw before (Perm.trans (Perm.swap t s ts) (Perm.cons t (insert_pending-Perm s ts)))
    | inr after ↦ rw after (Perm.refl (s ∷ t ∷ ts))
  ]

  sort_pending-Perm : (ss : List (State P)) → Perm ss (sort_pending j ss)
  unfolding sort_pending
  sort_pending-Perm [] = Perm.refl []
  sort_pending-Perm (s ∷ ss) =
      Perm.trans (Perm.cons s (sort_pending-Perm ss)) (insert_pending-Perm s (sort_pending j ss))

  insert_pending-All :
      (Q : State P → Type 0) (s : State P) (ts : List (State P))
      → Q s
      → All Q ts
      → All Q (insert_pending j s ts)
  unfolding insert_pending
  insert_pending-All Q s [] q all = (q, tt)
  insert_pending-All Q s (t ∷ ts) q (first, rest) = elim (Bool-cases (comes_before j t s)) [
    | inl before ↦ rw before (first, insert_pending-All Q s ts q rest)
    | inr after ↦ rw after (q, (first, rest))
  ]

  All-later :
      (s t : State P) (ts : List (State P))
      → s.last_event_index ≤ t.last_event_index
      → All (λ (u : State P). t.last_event_index ≤ u.last_event_index) ts
      → All (λ (u : State P). s.last_event_index ≤ u.last_event_index) ts
  All-later s t [] le all = tt
  All-later s t (u ∷ ts) le (first, rest) = (omega (arith, le, first), All-later s t ts le rest)

  insert-IsOldestFirst :
      (s : State P) (ts : List (State P)) → IsOldestFirst ts → IsOldestFirst (insert_pending j s ts)
  unfolding insert_pending
  insert-IsOldestFirst s [] sorted = (tt, tt)
  insert-IsOldestFirst s (t ∷ ts) (first, rest) = elim (Bool-cases (comes_before j t s)) [
    | inl before ↦
        rw before
          (insert_pending-All _ s ts (ground (arith, before)) first, insert-IsOldestFirst s ts rest)
    | inr after ↦
        let le : s.last_event_index ≤ t.last_event_index = ground (arith, after) in
        rw after ((le, All-later s t ts le first), (first, rest))
  ]

  sort-IsOldestFirst : (ss : List (State P)) → IsOldestFirst (sort_pending j ss)
  unfolding sort_pending
  sort-IsOldestFirst [] = tt
  sort-IsOldestFirst (s ∷ ss) = insert-IsOldestFirst s (sort_pending j ss) (sort-IsOldestFirst ss)

  module _ (law : IsJson j) where
    -- After any calls on a file that was not there, `pending` with a limit from 1 to 100
    -- returns no more states than that: the first of the states that are not persisted (and
    -- have a prediction), each once, in the order of the index of their last event. The `json`
    -- library has to read back what it has written, which is not blank.
    pub pending-IsOldestFirst :
        {f : File Raw} (n : ℕ)
        → Reach j (no_file j) f
        → leb 1 n ≡ true
        → leb n 100 ≡ true
        → (ss : List (State P)) × (queue : List (State P)) × ((states j f).0 ≡ ok ss)
          × Perm (unresolved ss) queue
          × IsOldestFirst queue
          × ((pending j (whole (pos n)) f).0 ≡ ok (take n queue))
          × (length (take n queue) ≤ n)
    unfolding pending
    pending-IsOldestFirst {f} n r low high =
        let t = reached j law r in
        let got = (states-Tells j law f t.states' t.tells).0 in
        (
          t.states',
          sort_pending j (unresolved t.states'),
          got,
          sort_pending-Perm (unresolved t.states'),
          sort-IsOldestFirst (unresolved t.states'),
          rw (low, high, got) refl,
          length-take n _,
        )

    -- After any calls on a file that was not there, `summary` returns the numbers of the
    -- packets, of the persisted ones and of the rest, and the rest are those that `pending`
    -- selects from. The `json` library has to read back what it has written, which is not
    -- blank.
    pub summary-unresolved :
        {f : File Raw}
        → Reach j (no_file j) f
        → (ss : List (State P)) × (m : Summary) × ((states j f).0 ≡ ok ss)
          × ((summary j f).0 ≡ ok m)
          × (m.expected ≡ length ss)
          × (m.expected ≡ m.persisted + m.unresolved)
          × (m.unresolved ≡ length (unresolved ss))
    unfolding summary
    summary-unresolved {f} r =
        let t = reached j law r in
        let ss = t.states' in
        let got = (states-Tells j law f ss t.tells).0 in
        let size = length-sort_by_key ss in
        let count = count-sort_by_key ss in
        let split = count-split ss t.tells.long in
        (
          ss,
          summary_of (sort_by_key ss),
          got,
          rw got refl,
          size,
          omega (arith, size, count, split),
          omega (arith, size, count, split),
        )
