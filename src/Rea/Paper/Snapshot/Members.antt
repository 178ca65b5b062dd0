-- ===== src/Rea/Paper/Snapshot/Members.antt =====
-- Which IDs the lists that `reconcile_snapshot` compares hold.
use sene_x.Common.{
  String, ◌≡◌, refl, sym, ◌∙◌, ◌⊎◌, inl, inr, true, false, List, [], ◌∷◌, ◌++◌, map, Bool-cases,
  is_some, arith,
}
use sene_x.Common.Text.{text_eq, eq_iff, eq_refl, mem_text, sorted_texts, mem_text-sorted}
use sene_x.Rea.Paper.Order.{PaperOrder, find_order}
use sene_x.Rea.Paper.Snapshot.{
  SnapshotOrder, Discrepancy, snapshot_ids, find_snapshot, not_in, also_in, our_ids,
}

pub mem-our_ids :
    (oid : String) (os : List PaperOrder) → mem_text oid (our_ids os) ≡ is_some (find_order oid os)
unfolding mem_text find_order
mem-our_ids oid [] = refl
mem-our_ids oid (o ∷ os) =
    ground (arith, mem-our_ids oid os, eq_iff o.order_id oid, eq_iff oid o.order_id)

pub mem-snapshot_ids :
    (oid : String) (os : List SnapshotOrder)
    → mem_text oid (snapshot_ids os) ≡ is_some (find_snapshot oid os)
unfolding mem_text find_snapshot
mem-snapshot_ids oid [] = refl
mem-snapshot_ids oid (o ∷ os) =
    ground (arith, mem-snapshot_ids oid os, eq_iff o.order_id oid, eq_iff oid o.order_id)

-- A text is that of the head, or its membership is that in the rest.
pub mem-cons_cases :
    (x y : String) (xs : List String)
    → mem_text x (y ∷ xs) ≡ true
    → (y ≡ x) ⊎ (mem_text x xs ≡ true)
unfolding mem_text
mem-cons_cases x y xs h = elim (Bool-cases (text_eq y x)) [
  | inl same ↦ inl ((eq_iff y x).0 same)
  | inr other ↦ inr (ground arith)
]

pub mem-cons_head : (x : String) (xs : List String) → mem_text x (x ∷ xs) ≡ true
unfolding mem_text
mem-cons_head x xs = ground (arith, eq_refl x)

pub mem-cons_tail :
    (x y : String) (xs : List String) → mem_text x xs ≡ true → mem_text x (y ∷ xs) ≡ true
unfolding mem_text
mem-cons_tail x y xs h = ground arith

pub append_nil_parts : (xs ys : List Discrepancy) → xs ++ ys ≡ [] → (xs ≡ []) × (ys ≡ [])
append_nil_parts [] ys h = (refl, h)
append_nil_parts (x ∷ xs) ys h = absurd (ground arith)

mem_nil : (x : String) → mem_text x [] ≡ false
unfolding mem_text
mem_nil x = refl

pub false_member : (x : String) → ¬ (mem_text x [] ≡ true)
unfolding mem_text
false_member x h = cc

pub mem-not_in :
    (x : String) (ys xs : List String)
    → mem_text x xs ≡ true
    → mem_text x ys ≡ false
    → mem_text x (not_in ys xs) ≡ true
unfolding not_in
mem-not_in x ys [] m n = m
mem-not_in x ys (y ∷ xs) m n = elim (mem-cons_cases x y xs m) [
  | inl same ↦ rw (same, n) (mem-cons_head x (not_in ys xs))
  | inr later ↦ elim (Bool-cases (mem_text y ys)) [
    | inl skipped ↦ rw skipped (mem-not_in x ys xs later n)
    | inr kept ↦ rw kept (mem-cons_tail x y _ (mem-not_in x ys xs later n))
  ]
]

pub mem-also_in :
    (x : String) (ys xs : List String)
    → mem_text x xs ≡ true
    → mem_text x ys ≡ true
    → mem_text x (also_in ys xs) ≡ true
unfolding also_in
mem-also_in x ys [] m n = m
mem-also_in x ys (y ∷ xs) m n = elim (mem-cons_cases x y xs m) [
  | inl same ↦ rw (same, n) (mem-cons_head x (also_in ys xs))
  | inr later ↦ elim (Bool-cases (mem_text y ys)) [
    | inl kept ↦ rw kept (mem-cons_tail x y _ (mem-also_in x ys xs later n))
    | inr skipped ↦ rw skipped (mem-also_in x ys xs later n)
  ]
]

pub not_in-nil :
    (ys xs : List String)
    → ((x : String) → mem_text x xs ≡ true → mem_text x ys ≡ true)
    → not_in ys xs ≡ []
unfolding not_in
not_in-nil ys [] all = refl
not_in-nil ys (x ∷ xs) all =
    rw (all x (mem-cons_head x xs)) (not_in-nil ys xs (λ y m. all y (mem-cons_tail y x xs m)))

-- Nothing is a member of a list without issues.
pub no_member :
    (make : String → Discrepancy) (x : String) (xs : List String)
    → map make (sorted_texts xs) ≡ []
    → mem_text x xs ≡ false
no_member make x xs h = sym (mem_text-sorted x xs) ∙ empty (sorted_texts xs) h
  where
    empty : (ts : List String) → map make ts ≡ [] → mem_text x ts ≡ false
    empty [] e = mem_nil x
    empty (t ∷ ts) e = absurd (ground arith)
