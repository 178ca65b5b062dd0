-- ===== src/Rea/Paper/Fill/Repeats.antt =====
-- A fill that was applied once: its repetition, and another fill under its ID.
use sene_x.Common.{
  String, ◌≡◌, refl, ◌≢◌, true, false, List, [], ◌∷◌, ◌++◌, none, some, ◌⊎◌, Option-cases, ok, err,
  inl, inr, arith,
}
use sene_x.Common.Text.{eq_refl, mem_text, mem_text-append}
use sene_x.Rea.Paper.Order.{PaperOrder, fill_conflict, processed_fill_unknown_order, find_order}
use sene_x.Rea.Paper.Order.Laws.{find_order-id, find_order-replace_self}
use sene_x.Rea.Paper.State.{PaperState, Digest}
use sene_x.Rea.Paper.Fill.{FillEvent, FillApplication, last_print, same_digest, apply_fill}
use sene_x.Rea.Paper.Fill.Inversion.{Applied, order_after, apply_fill_cases}

pub same_digest_refl : (d : Digest) → same_digest d d ≡ true
unfolding same_digest
same_digest_refl [] = refl
same_digest_refl (c ∷ d) = ground (arith, same_digest_refl d)

pub same_digest-eq : (d e : Digest) → same_digest d e ≡ true → d ≡ e
unfolding same_digest
same_digest-eq [] [] h = refl
same_digest-eq [] (c ∷ e) h = cc
same_digest-eq (c ∷ d) [] h = cc
same_digest-eq (c ∷ d) (b ∷ e) h = ground (arith, same_digest-eq d e)

pub last_print-snoc :
    (k : String) (d : Digest) (ps : List (String × Digest))
    → last_print k (ps ++ (k, d) ∷ []) ≡ some d
unfolding last_print
last_print-snoc k d [] = ground (arith, eq_refl k)
last_print-snoc k d ((j, c) ∷ ps) = ground (arith, last_print-snoc k d ps)

module _ (digest : FillEvent → Digest) {s : PaperState} {e : FillEvent} {s' : PaperState}
    {r : FillApplication} (a : Applied digest s e s' r) where
  mem-after : mem_text e.fill_id s'.processed_fill_ids ≡ true
  unfolding mem_text
  mem-after = rw a.result (
      ground
        (arith, mem_text-append e.fill_id s.processed_fill_ids (e.fill_id ∷ []), eq_refl e.fill_id))

  print-after : last_print e.fill_id s'.processed_fill_fingerprints ≡ some (digest e)
  print-after = rw a.result (last_print-snoc e.fill_id (digest e) s.processed_fill_fingerprints)

  pub find-after : find_order e.order_id s'.orders ≡ some (order_after a.order e)
  find-after = rw a.result (
      find_order-replace_self e.order_id (order_after a.order e) s.orders a.order
        (find_order-id e.order_id s.orders a.order a.found) a.found)

  again : apply_fill digest s' e ≡ ok (s', record r { applied = false; duplicate = true })
  unfolding apply_fill
  again = rw (mem-after, find-after, print-after, same_digest_refl (digest e), a.report)

module _ (digest : FillEvent → Digest) where
  -- A fill that was applied can be sent again: the call changes nothing, and answers with the same
  -- status and remaining quantity, marked as a duplicate.
  pub apply_fill_again :
      (s : PaperState) (e : FillEvent) (s' : PaperState) (r : FillApplication)
      → apply_fill digest s e ≡ ok (s', r)
      → r.applied ≡ true
      → apply_fill digest s' e ≡ ok (s', record r { applied = false; duplicate = true })
  apply_fill_again s e s' r h new = elim (apply_fill_cases digest s e s' r h) [
    | inl (_, old) ↦ cc
    | inr a ↦ again digest a
  ]

  -- A fill was applied, and another is sent that has its ID and another digest. If its order is in
  -- the state, the call raises the conflict; if not, it raises that a processed fill refers to an
  -- unknown order. It returns in neither case.
  pub apply_fill_conflict :
      (s : PaperState) (e : FillEvent) (s' : PaperState) (r : FillApplication) (f : FillEvent)
      → apply_fill digest s e ≡ ok (s', r)
      → r.applied ≡ true
      → f.fill_id ≡ e.fill_id
      → digest f ≢ digest e
      → ((o : PaperOrder) × (find_order f.order_id s'.orders ≡ some o)
          × (apply_fill digest s' f ≡ err fill_conflict))
        ⊎ ((find_order f.order_id s'.orders ≡ none)
            × (apply_fill digest s' f ≡ err processed_fill_unknown_order))
  unfolding apply_fill
  apply_fill_conflict s e s' r f h new same differs = elim (apply_fill_cases digest s e s' r h) [
    | inl (_, old) ↦ cc
    | inr a ↦ elim (Option-cases (find_order f.order_id s'.orders)) [
      | inl lost ↦ inr (lost, ground (arith, mem-after digest a, lost))
      | inr (o, known) ↦ inl (
        o,
        known,
        ground (
          arith,
          mem-after digest a,
          print-after digest a,
          same_digest-eq (digest e) (digest f),
          known,
        ),
      )
    ]
  ]
