-- ===== src/Rea/Paper/Snapshot.antt =====
-- Snapshots of an execution venue, and `reconcile_snapshot`, which compares one with a state.
pub mod Members
pub mod Agreement
use sene_x.Common.{
  ℕ, String, Bool, true, false, not, ◌&&◌, if◌then◌else◌, ◌==◌, List, [], ◌∷◌, ◌++◌, map, Option,
  none, some, Outcome, ok, ◌>>=◌, ◌>>◌, raise_if,
}
use sene_x.Common.Text.{text_eq, is_blank, has_duplicates, mem_text, sorted_texts}
use sene_x.Rea.Decimal.{Decimal, ltb_D, ◌-D◌, abs, same_text}
use sene_x.Rea.Contracts.{Value, positive, non_negative}
use sene_x.Rea.Paper.Order.{
  PaperOrder, ResilienceError, blank_id, bad_side, duplicate_snapshot_ids, dec, Side, side_eq,
  is_known, filled_up, status_eq, remaining_qty, find_order,
}
use sene_x.Rea.Paper.State.{PaperState}

pub record SnapshotOrder : Type 0 where
  pub order_id : String
  pub side : Side
  pub remaining : Decimal

-- `SnapshotOrder.__post_init__`
unfoldable pub new_snapshot_order : String → Side → Value → Outcome ResilienceError SnapshotOrder
unfolding is_blank dec
new_snapshot_order oid side remaining = do
  raise_if (is_blank oid) blank_id
  raise_if (not (is_known side)) bad_side
  r ← dec remaining positive
  ok (record { order_id = oid; side = side; remaining = r })

pub record ExecutionSnapshot : Type 0 where
  pub cash : Decimal
  pub inventory_qty : Decimal
  pub open_orders : List SnapshotOrder
  pub last_event_seq : ℕ

abbrev pub snapshot_ids : List SnapshotOrder → List String
snapshot_ids = map (λ o. o.order_id)

-- `ExecutionSnapshot.__post_init__`
unfoldable pub new_snapshot :
    Value → Value → List SnapshotOrder → ℕ → Outcome ResilienceError ExecutionSnapshot
unfolding dec
new_snapshot cash inventory orders seq = do
  c ← dec cash non_negative
  i ← dec inventory non_negative
  raise_if (has_duplicates (snapshot_ids orders)) duplicate_snapshot_ids
  ok (record { cash = c; inventory_qty = i; open_orders = orders; last_event_seq = seq })

-- The texts that a report lists, by their kind and what they quote.
pub data Discrepancy : Type 0 where
  cash_mismatch inventory_mismatch : Decimal → Decimal → Discrepancy
  event_sequence_mismatch : ℕ → ℕ → Discrepancy
  missing_observed_order unexpected_observed_order order_side_mismatch : String → Discrepancy
  order_remaining_mismatch : String → Decimal → Decimal → Discrepancy

-- `==` of two of those texts.
abbrev pub discrepancy_eq : Discrepancy → Discrepancy → Bool
discrepancy_eq (cash_mismatch a b) (cash_mismatch c d) = same_text a c && same_text b d
discrepancy_eq (inventory_mismatch a b) (inventory_mismatch c d) = same_text a c && same_text b d
discrepancy_eq (event_sequence_mismatch a b) (event_sequence_mismatch c d) = a == c && b == d
discrepancy_eq (missing_observed_order a) (missing_observed_order b) = text_eq a b
discrepancy_eq (unexpected_observed_order a) (unexpected_observed_order b) = text_eq a b
discrepancy_eq (order_side_mismatch a) (order_side_mismatch b) = text_eq a b
discrepancy_eq (order_remaining_mismatch i a b) (order_remaining_mismatch j c d) =
    text_eq i j && same_text a c && same_text b d
discrepancy_eq _ _ = false

unfoldable pub same_discrepancies : List Discrepancy → List Discrepancy → Bool
same_discrepancies [] [] = true
same_discrepancies [] (y ∷ ys) = false
same_discrepancies (x ∷ xs) [] = false
same_discrepancies (x ∷ xs) (y ∷ ys) = discrepancy_eq x y && same_discrepancies xs ys

-- `abs(a - b) > tolerance`
abbrev pub differs : Decimal → Decimal → Decimal → Bool
differs tol a b = ltb_D tol (abs (a -D b))

abbrev pub issue_if : Bool → Discrepancy → List Discrepancy
issue_if true d = d ∷ []
issue_if false d = []

-- Looking up by ID in a snapshot; its IDs are unique, so this is the dict's answer.
unfoldable pub find_snapshot : String → List SnapshotOrder → Option SnapshotOrder
find_snapshot key [] = none
find_snapshot key (o ∷ os) = if text_eq o.order_id key then some o else find_snapshot key os

-- The texts of the first list that the second does not hold, or does hold.
unfoldable pub not_in : List String → List String → List String
not_in ys [] = []
not_in ys (x ∷ xs) = let rest = not_in ys xs in if mem_text x ys then rest else x ∷ rest

unfoldable pub also_in : List String → List String → List String
also_in ys [] = []
also_in ys (x ∷ xs) = let rest = also_in ys xs in if mem_text x ys then x ∷ rest else rest

-- The issues of an order that both sides hold.
abbrev pub compare_orders :
    Decimal → String → Option PaperOrder → Option SnapshotOrder → List Discrepancy
compare_orders tol oid (some a) (some b) =
    issue_if (not (side_eq a.side b.side)) (order_side_mismatch oid)
    ++ issue_if (differs tol (remaining_qty a) b.remaining)
        (order_remaining_mismatch oid (remaining_qty a) b.remaining)
compare_orders tol oid _ _ = []

unfoldable pub compare_common :
    Decimal → List PaperOrder → List SnapshotOrder → List String → List Discrepancy
compare_common tol ours theirs [] = []
compare_common tol ours theirs (oid ∷ oids) =
    compare_orders tol oid (find_order oid ours) (find_snapshot oid theirs)
    ++ compare_common tol ours theirs oids

abbrev pub our_ids : List PaperOrder → List String
our_ids = map (λ o. o.order_id)

-- The issues about open orders, in the order in which the loops report them.
unfoldable pub order_issues : Decimal → List PaperOrder → List SnapshotOrder → List Discrepancy
unfolding not_in also_in compare_common
order_issues tol ours theirs =
    let mine = our_ids ours in
    let observed = snapshot_ids theirs in
    map missing_observed_order (sorted_texts (not_in observed mine))
    ++ (map unexpected_observed_order (sorted_texts (not_in mine observed))
        ++ compare_common tol ours theirs (sorted_texts (also_in observed mine)))

-- The issues about the amounts and the sequence.
unfoldable pub amount_issues : Decimal → PaperState → Decimal → Decimal → ℕ → List Discrepancy
amount_issues tol s cash inventory seq =
    issue_if (differs tol s.cash cash) (cash_mismatch s.cash cash)
    ++ (issue_if (differs tol s.inventory_qty inventory)
          (inventory_mismatch s.inventory_qty inventory)
        ++ issue_if (not (s.last_event_seq == seq)) (event_sequence_mismatch s.last_event_seq seq))

-- `o.status in {"OPEN", "PARTIALLY_FILLED"}`
unfoldable pub open_orders : List PaperOrder → List PaperOrder
open_orders [] = []
open_orders (o ∷ os) =
    let rest = open_orders os in if status_eq o.status filled_up then rest else o ∷ rest

pub record ReconciliationReport : Type 0 where
  pub matched : Bool
  pub discrepancies : List Discrepancy
  pub local_event_seq : ℕ
  pub observed_event_seq : ℕ

abbrev pub is_empty : List Discrepancy → Bool
is_empty [] = true
is_empty (_ ∷ _) = false

-- `reconcile_snapshot`
unfoldable pub reconcile_snapshot :
    PaperState → ExecutionSnapshot → Value → Outcome ResilienceError ReconciliationReport
unfolding dec amount_issues order_issues open_orders
reconcile_snapshot local observed tolerance = do
  tol ← dec tolerance non_negative
  let issues =
      amount_issues tol local observed.cash observed.inventory_qty observed.last_event_seq
      ++ order_issues tol (open_orders local.orders) observed.open_orders
  ok (record {
    matched = is_empty issues;
    discrepancies = issues;
    local_event_seq = local.last_event_seq;
    observed_event_seq = observed.last_event_seq;
  })
