-- ===== src/Rea/Paper/Snapshot/Agreement.antt =====
-- When `reconcile_snapshot` reports no discrepancy.
use sene_x.Common.{
  String, ◌≡◌, refl, sym, ◌∙◌, inl, inr, ◌↔◌, true, false, ==_iff, List, [], ◌∷◌, ◌++◌, Option,
  none, some, is_some, ok, Option-cases, arith,
}
use sene_x.Common.Text.{mem_text, sorted_texts, mem_text-sorted}
use sene_x.Rea.Decimal.{Decimal}
use sene_x.Rea.Contracts.{Value, non_negative}
use sene_x.Rea.Paper.Order.{PaperOrder, dec, side_eq, find_order, remaining_qty}
use sene_x.Rea.Paper.State.{PaperState}
use sene_x.Rea.Paper.Snapshot.Members.{
  mem-our_ids, mem-snapshot_ids, mem-cons_cases, append_nil_parts, false_member, mem-not_in,
  mem-also_in, not_in-nil, no_member,
}
use sene_x.Rea.Paper.Snapshot.{
  SnapshotOrder, ExecutionSnapshot, snapshot_ids, Discrepancy, missing_observed_order,
  unexpected_observed_order, differs, find_snapshot, not_in, also_in, compare_orders,
  compare_common, our_ids, order_issues, amount_issues, open_orders, ReconciliationReport, is_empty,
  reconcile_snapshot,
}

-- An order as both sides hold it: both do not, or with one side and remaining quantities that
-- differ by at most the tolerance.
abbrev pub SameOrder : Decimal → Option PaperOrder → Option SnapshotOrder → Type 0
SameOrder tol none none = Unit {0}
SameOrder tol (some a) (some b) =
    (side_eq a.side b.side ≡ true) × (differs tol (remaining_qty a) b.remaining ≡ false)
SameOrder tol _ _ = ⊥

-- What the local state and the snapshot have in common when nothing differs.
pub record IsReconciled (tol : Decimal) (s : PaperState) (o : ExecutionSnapshot) : Type 0 where
  pub cash : differs tol s.cash o.cash ≡ false
  pub inventory : differs tol s.inventory_qty o.inventory_qty ≡ false
  pub sequence : s.last_event_seq ≡ o.last_event_seq
  pub orders :
      (oid : String)
      → SameOrder tol (find_order oid (open_orders s.orders)) (find_snapshot oid o.open_orders)

compare_common-member :
    (tol : Decimal) (ours : List PaperOrder) (theirs : List SnapshotOrder) (x : String)
    (xs : List String)
    → compare_common tol ours theirs xs ≡ []
    → mem_text x xs ≡ true
    → compare_orders tol x (find_order x ours) (find_snapshot x theirs) ≡ []
unfolding compare_common
compare_common-member tol ours theirs x [] h m = absurd (false_member x m)
compare_common-member tol ours theirs x (y ∷ xs) h m =
    let (first, rest) =
      append_nil_parts (compare_orders tol y (find_order y ours) (find_snapshot y theirs)) _ h in
    elim (mem-cons_cases x y xs m) [
      | inl same ↦ rw (← same) first
      | inr later ↦ compare_common-member tol ours theirs x xs rest later
    ]

compare_common-nil :
    (tol : Decimal) (ours : List PaperOrder) (theirs : List SnapshotOrder) (xs : List String)
    → ((x : String) → compare_orders tol x (find_order x ours) (find_snapshot x theirs) ≡ [])
    → compare_common tol ours theirs xs ≡ []
unfolding compare_common
compare_common-nil tol ours theirs [] all = refl
compare_common-nil tol ours theirs (x ∷ xs) all =
    rw (all x, compare_common-nil tol ours theirs xs all)

compare_orders_iff :
    (tol : Decimal) (x : String) (a : PaperOrder) (b : SnapshotOrder)
    → (compare_orders tol x (some a) (some b) ≡ []) ↔ SameOrder tol (some a) (some b)
compare_orders_iff tol x a b = ground arith

-- The list of order issues is empty just when every ID finds the same order on both sides.
order_issues_iff :
    (tol : Decimal) (ours : List PaperOrder) (theirs : List SnapshotOrder)
    → (order_issues tol ours theirs ≡ [])
      ↔ ((x : String) → SameOrder tol (find_order x ours) (find_snapshot x theirs))
unfolding order_issues sorted_texts
order_issues_iff tol ours theirs = (forward, backward)
  where
    forward :
        order_issues tol ours theirs ≡ []
        → (x : String) → SameOrder tol (find_order x ours) (find_snapshot x theirs)
    forward h x =
        let (missing, h₁) = append_nil_parts _ _ h in
        let (unexpected, common) = append_nil_parts _ _ h₁ in
        elim (Option-cases (find_order x ours)) [
          | inl ours_none ↦ elim (Option-cases (find_snapshot x theirs)) [
            | inl theirs_none ↦ rw (ours_none, theirs_none) tt
            | inr (b, found) ↦ absurd (
                ground (
                  arith,
                  no_member unexpected_observed_order x
                      (not_in (our_ids ours) (snapshot_ids theirs)) unexpected,
                  mem-not_in x (our_ids ours) (snapshot_ids theirs),
                  mem-our_ids x ours,
                  mem-snapshot_ids x theirs,
                  ours_none,
                  found,
                ))
          ]
          | inr (a, mine) ↦ elim (Option-cases (find_snapshot x theirs)) [
            | inl theirs_none ↦ absurd (
                ground (
                  arith,
                  no_member missing_observed_order x (not_in (snapshot_ids theirs) (our_ids ours))
                      missing,
                  mem-not_in x (snapshot_ids theirs) (our_ids ours),
                  mem-our_ids x ours,
                  mem-snapshot_ids x theirs,
                  mine,
                  theirs_none,
                ))
            | inr (b, found) ↦
                let in_ours : mem_text x (our_ids ours) ≡ true = rw (mem-our_ids x ours, mine) in
                let in_theirs : mem_text x (snapshot_ids theirs) ≡ true =
                  rw (mem-snapshot_ids x theirs, found) in
                let listed =
                  mem_text-sorted x (also_in (snapshot_ids theirs) (our_ids ours))
                  ∙ mem-also_in x (snapshot_ids theirs) (our_ids ours) in_ours in_theirs in
                let none_left = compare_common-member tol ours theirs x _ common listed in
                rw (mine, found) ((compare_orders_iff tol x a b).0 (rw (mine, found) at none_left))
          ]
        ]

    backward :
        ((x : String) → SameOrder tol (find_order x ours) (find_snapshot x theirs))
        → order_issues tol ours theirs ≡ []
    backward all =
        let both = λ (x : String).
          mem-our_ids x ours ∙ same_found x (all x) ∙ sym (mem-snapshot_ids x theirs) in
        rw
          (
            not_in-nil (snapshot_ids theirs) (our_ids ours) (λ x m. sym (both x) ∙ m),
            not_in-nil (our_ids ours) (snapshot_ids theirs) (λ x m. both x ∙ m),
            compare_common-nil tol ours theirs
                (sorted_texts (also_in (snapshot_ids theirs) (our_ids ours)))
                (λ x. compared x (all x)),
          )
          refl
      where
        same_found :
            (x : String)
            → SameOrder tol (find_order x ours) (find_snapshot x theirs)
            → is_some (find_order x ours) ≡ is_some (find_snapshot x theirs)
        same_found x s = ground arith

        compared :
            (x : String)
            → SameOrder tol (find_order x ours) (find_snapshot x theirs)
            → compare_orders tol x (find_order x ours) (find_snapshot x theirs) ≡ []
        compared x s = ground arith

-- What the report says of the cash, the inventory and the sequence.
amount_issues_iff :
    (tol : Decimal) (s : PaperState) (o : ExecutionSnapshot)
    → (amount_issues tol s o.cash o.inventory_qty o.last_event_seq ≡ []) ↔ (
        (differs tol s.cash o.cash ≡ false)
        × (differs tol s.inventory_qty o.inventory_qty ≡ false)
        × (s.last_event_seq ≡ o.last_event_seq))
unfolding amount_issues
amount_issues_iff tol s o = (forward, backward)
  where
    forward :
        amount_issues tol s o.cash o.inventory_qty o.last_event_seq ≡ []
        → (differs tol s.cash o.cash ≡ false)
          × (differs tol s.inventory_qty o.inventory_qty ≡ false)
          × (s.last_event_seq ≡ o.last_event_seq)
    forward h = ground (arith, ==_iff s.last_event_seq o.last_event_seq)

    backward :
        (differs tol s.cash o.cash ≡ false)
          × (differs tol s.inventory_qty o.inventory_qty ≡ false)
          × (s.last_event_seq ≡ o.last_event_seq)
        → amount_issues tol s o.cash o.inventory_qty o.last_event_seq ≡ []
    backward h = ground (arith, ==_iff s.last_event_seq o.last_event_seq)

is_empty_iff : (xs : List Discrepancy) → (is_empty xs ≡ true) ↔ (xs ≡ [])
is_empty_iff xs = ground arith

-- With a tolerance that reads as `tol`, `reconcile_snapshot` returns a report, and the report is
-- matched exactly when cash and inventory differ by at most `tol`, the event sequences are equal,
-- and every order ID is open on both sides or on neither, on both with one side and remaining
-- quantities that differ by at most `tol`.
pub reconcile_snapshot-matched :
    (local : PaperState) (observed : ExecutionSnapshot) (tolerance : Value) (tol : Decimal)
    → dec tolerance non_negative ≡ ok tol
    → (report : ReconciliationReport) × (reconcile_snapshot local observed tolerance ≡ ok report)
      × ((report.matched ≡ true) ↔ IsReconciled tol local observed)
unfolding reconcile_snapshot
reconcile_snapshot-matched local observed tolerance tol reads =
    (told, rw reads refl, (forward, backward))
  where
    amounts : List Discrepancy
    amounts = amount_issues tol local observed.cash observed.inventory_qty observed.last_event_seq

    others : List Discrepancy
    others = order_issues tol (open_orders local.orders) observed.open_orders

    told : ReconciliationReport
    told = record {
      matched = is_empty (amounts ++ others);
      discrepancies = amounts ++ others;
      local_event_seq = local.last_event_seq;
      observed_event_seq = observed.last_event_seq;
    }

    forward : is_empty (amounts ++ others) ≡ true → IsReconciled tol local observed
    forward h =
        let (none_of_amounts, none_of_orders) =
          append_nil_parts amounts others ((is_empty_iff _).0 h) in
        let (cash, inventory, sequence) =
          (amount_issues_iff tol local observed).0 none_of_amounts in
        record {
          cash = cash;
          inventory = inventory;
          sequence = sequence;
          orders =
              (order_issues_iff tol (open_orders local.orders) observed.open_orders).0
                none_of_orders;
        }

    backward : IsReconciled tol local observed → is_empty (amounts ++ others) ≡ true
    backward r =
        rw
          (
            (amount_issues_iff tol local observed).1 (r.cash, r.inventory, r.sequence),
            (order_issues_iff tol (open_orders local.orders) observed.open_orders).1 r.orders,
          )
          refl
