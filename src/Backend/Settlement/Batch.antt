-- ===== src/Backend/Settlement/Batch.antt =====
-- One pass over the local rows, `reconcile_once` (senecio_polymarket/backend/settlement_reconciler.py).
use sene_x.Common.{
  ℕ, suc, ◌+◌, ◌-◌, ◌≤◌, ◌≡◌, Bool, true, false, not, ◌&&◌, ◌==◌, ltb, if◌then◌else◌, List, [], ◌∷◌,
  length, Option, none, some, is_some, Outcome, ok, err, ◌⊎◌,
}
use mathlib.Core.List.{Mem}
use sene_x.Backend.Settlement.Contract.{Prices, parse_utc, after_seconds, window_1h_s}
use sene_x.Backend.Settlement.Proof.{Dual, Field, missing, not_object, object, Row}
use sene_x.Backend.Settlement.Repair.{
  RepairResult, repaired, conflict, skipped, error, raised, PatchReply, Answer, repair_row,
}

-- A local row with what `int(row.get("id") or 0)` gives.
pub record LocalRow (W : Type 0) : Type 0 where
  pub id : Option ℕ
  pub row : Row W

pub record Counters : Type 0 where
  pub local_rows_considered : ℕ
  pub scanned : ℕ
  pub repaired_rows : ℕ
  pub skipped_rows : ℕ
  pub errors : ℕ
  pub conflicts : ℕ
  pub scan_cap_hit : ℕ

-- (`d1_rows_read` stays 0 and is left out.)

-- What the exchange, the clock and the store answer while a row is repaired.
pub record Reply (W : Type 0) : Type 0 where
  pub a15 : Answer W
  pub a1h : Answer W
  pub now : ℕ
  pub patched : PatchReply

-- `counters[key] += 1`, after `counters["scanned"] += 1`.
abbrev pub tally : RepairResult → Counters → Counters
tally repaired c = record c { scanned = suc c.scanned; repaired_rows = suc c.repaired_rows }
tally conflict c = record c { scanned = suc c.scanned; conflicts = suc c.conflicts }
tally skipped c = record c { scanned = suc c.scanned; skipped_rows = suc c.skipped_rows }
tally error c = record c { scanned = suc c.scanned; errors = suc c.errors }
tally raised c = record c { scanned = suc c.scanned }

-- The exception of a row's repair leaves the pass too, without counters.
pub data PassError : Type 0 where
  repair_raised : PassError

-- After a row: the rest of the loop, unless there was an error or an exception.
abbrev pub continue :
    RepairResult → Counters → Outcome PassError Counters → Outcome PassError Counters
continue error c rest = ok c
continue raised c rest = err repair_raised
continue _ c rest = rest

-- `row_dt is None or row_dt > now - 1h`
abbrev pub is_too_new : ℕ → Option ℕ → Bool
is_too_new now none = true
is_too_new now (some t) = ltb now (after_seconds t window_1h_s)

abbrev pub id_of : Option ℕ → ℕ
id_of none = 0
id_of (some n) = n

module _ {W : Type 0} where
  abbrev pub is_missing : Field (Dual W) → Bool
  is_missing missing = true
  is_missing not_object = false
  is_missing (object d) = false

  abbrev pub is_eligible : ℕ → LocalRow W → Bool
  is_eligible now x =
      (is_some x.id && is_some x.row.outcome)
      && (is_missing x.row.outcomes_dual && not (is_too_new now (parse_utc x.row.ts)))

  unfoldable pub eligible : ℕ → List (LocalRow W) → List (LocalRow W)
  eligible now [] = []
  eligible now (x ∷ xs) = let rest = eligible now xs in if is_eligible now x then x ∷ rest else rest

  -- `eligible.sort(key=...)`
  unfoldable pub insert_row : LocalRow W → List (LocalRow W) → List (LocalRow W)
  insert_row x [] = x ∷ []
  insert_row x (y ∷ ys) =
      let rest = insert_row x ys in if ltb (id_of y.id) (id_of x.id) then y ∷ rest else x ∷ y ∷ ys

  unfoldable pub sort_rows : List (LocalRow W) → List (LocalRow W)
  unfolding insert_row
  sort_rows [] = []
  sort_rows (x ∷ xs) = insert_row x (sort_rows xs)

  -- `eligible[:limit]`
  abbrev pub first_rows : ℕ → List (LocalRow W) → List (LocalRow W)
  first_rows n [] = []
  first_rows n (x ∷ xs) = if n == 0 then [] else x ∷ first_rows (n - 1) xs

module _ (epoch_ms : ℕ → ℕ) {W : Type 0} (w : Prices W) (reply : LocalRow W → Reply W) where
  abbrev pub result_of : LocalRow W → RepairResult
  result_of x = let r = reply x in (repair_row epoch_ms w x.row r.a15 r.a1h r.now r.patched).0

  -- The loop over the candidates, which an error ends.
  unfoldable pub scan : List (LocalRow W) → Counters → Outcome PassError Counters
  unfolding repair_row
  scan [] c = ok c
  scan (x ∷ xs) c =
      let c' = tally (result_of x) c in let rest = scan xs c' in continue (result_of x) c' rest

  abbrev pub batch : ℕ → ℕ → List (LocalRow W) → List (LocalRow W)
  batch now limit rows =
      first_rows (if limit == 0 then 1 else limit) (sort_rows (eligible now rows))

  abbrev pub at_start : ℕ → ℕ → List (LocalRow W) → Counters
  at_start now limit rows = record {
    local_rows_considered = length rows;
    scanned = 0;
    repaired_rows = 0;
    skipped_rows = 0;
    errors = 0;
    conflicts = 0;
    scan_cap_hit =
        if ltb (length (batch now limit rows)) (length (eligible now rows)) then 1 else 0;
  }

  -- `reconcile_once` at a time, with a batch limit, on the rows of the local authority.
  unfoldable pub reconcile_once : ℕ → ℕ → List (LocalRow W) → Outcome PassError Counters
  unfolding eligible sort_rows scan
  reconcile_once now limit rows = scan (batch now limit rows) (at_start now limit rows)

  -- The rows are counted once each, as what became of them, and at most one as an error.
  record IsTallied (c c' : Counters) (size : ℕ) : Type 0 where
    pub sum :
        c'.scanned + c.repaired_rows + c.skipped_rows + c.errors + c.conflicts
        ≡ c.scanned + c'.repaired_rows + c'.skipped_rows + c'.errors + c'.conflicts
    pub bound : c'.scanned ≤ c.scanned + size
    pub one_error : c'.errors ≤ suc c.errors

  -- Some row's repair raises.
  abbrev pub HasRaised : List (LocalRow W) → Type 0
  HasRaised xs = (x : LocalRow W) × Mem x xs × (result_of x ≡ raised)

  -- What a loop over some rows ends with: counters, or the exception of a row.
  abbrev Ends : Counters → List (LocalRow W) → Outcome PassError Counters → Type 0
  Ends c xs m =
      ((c' : Counters) × (m ≡ ok c') × IsTallied c c' (length xs))
      ⊎ ((m ≡ err repair_raised) × HasRaised xs)
