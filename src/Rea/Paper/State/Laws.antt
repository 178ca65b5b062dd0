-- ===== src/Rea/Paper/State/Laws.antt =====
-- What the validation of a state returns, and what it guarantees.
use sene_x.Common.{◌≡◌, refl, String, true, false, List, [], ◌∷◌, All, ok, arith}
use sene_x.Common.Text.{eq_iff, has_duplicates, Unique, Unique-of_test}
use sene_x.Rea.Decimal.{Decimal, zero_D, leb_D, ltb_D, eqb_D}
use sene_x.Rea.Decimal.Order.{
  IsNonNegative, IsPositive, IsNonNegative-of_test, IsPositive-of_test, eqb_zero_iff,
}
use sene_x.Rea.Paper.State.{
  PaperState, order_ids, client_ids, fingerprint_ids, same_texts, amounts, check_amounts, validate,
}

-- A state that is accepted is accepted as it stands.
pub validate-eq : (s t : PaperState) → validate s ≡ ok t → t ≡ s
unfolding validate
validate-eq s t h = ground arith

pub same_texts-eq : (xs ys : List String) → same_texts xs ys ≡ true → xs ≡ ys
unfolding same_texts
same_texts-eq [] [] h = refl
same_texts-eq [] (y ∷ ys) h = cc
same_texts-eq (x ∷ xs) [] h = cc
same_texts-eq (x ∷ xs) (y ∷ ys) h = ground (arith, eq_iff x y, same_texts-eq xs ys)

-- What a checkpointed state promises: no debt, no negative amount, no cost basis without
-- inventory, and no ID twice.
pub record IsValid (s : PaperState) : Type 0 where
  pub starting : IsPositive s.starting_cash
  pub cash : IsNonNegative s.cash
  pub inventory : IsNonNegative s.inventory_qty
  pub basis : IsNonNegative s.inventory_cost_basis
  pub totals : All IsNonNegative (amounts s)
  pub flat : s.inventory_qty.digits ≡ 0 → s.inventory_cost_basis.digits ≡ 0
  pub orders : Unique (order_ids s.orders)
  pub clients : Unique (client_ids s.orders)
  pub fills : Unique s.processed_fill_ids
  pub prints : fingerprint_ids s.processed_fill_fingerprints ≡ s.processed_fill_ids

check_amounts-All : (xs : List Decimal) → check_amounts xs ≡ ok tt → All IsNonNegative xs
unfolding check_amounts
check_amounts-All [] h = tt
check_amounts-All (x ∷ xs) h =
    (IsNonNegative-of_test x (ground arith), check_amounts-All xs (ground arith))

-- The tests that an accepted state has passed.
record Passed (s : PaperState) : Type 0 where
  starting : leb_D s.starting_cash zero_D ≡ false
  cash : ltb_D s.cash zero_D ≡ false
  amounts_ok : check_amounts (amounts s) ≡ ok tt
  flat : eqb_D s.inventory_qty zero_D ≡ true → eqb_D s.inventory_cost_basis zero_D ≡ true
  orders : has_duplicates (order_ids s.orders) ≡ false
  clients : has_duplicates (client_ids s.orders) ≡ false
  fills : has_duplicates s.processed_fill_ids ≡ false
  prints : same_texts (fingerprint_ids s.processed_fill_fingerprints) s.processed_fill_ids ≡ true

validate-Passed : (s t : PaperState) → validate s ≡ ok t → Passed s
unfolding validate
validate-Passed s t h = ground arith

-- A state that the constructor of `PaperState` accepts satisfies `IsValid`: starting cash is
-- positive, no amount is negative, without inventory there is no cost basis, no order, client or
-- fill ID repeats, and the fingerprints are those of the fills.
pub validate-IsValid : (s t : PaperState) → validate s ≡ ok t → IsValid s
validate-IsValid s t h =
    let p = validate-Passed s t h in
    let am = check_amounts-All (amounts s) p.amounts_ok in
    record {
      starting = IsPositive-of_test s.starting_cash p.starting;
      cash = IsNonNegative-of_test s.cash p.cash;
      inventory = am.0;
      basis = am.1.0;
      totals = am;
      flat = λ e.
          (eqb_zero_iff s.inventory_cost_basis).0 (p.flat ((eqb_zero_iff s.inventory_qty).1 e));
      orders = Unique-of_test (order_ids s.orders) p.orders;
      clients = Unique-of_test (client_ids s.orders) p.clients;
      fills = Unique-of_test s.processed_fill_ids p.fills;
      prints =
          same_texts-eq (fingerprint_ids s.processed_fill_fingerprints) s.processed_fill_ids
            p.prints;
    }
