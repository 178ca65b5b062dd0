-- ===== src/Backend/Receipts/Lines.antt =====
-- The file of `PredictionPersistenceStore` as lines, `_read` with its repairs, and `_append`.
use sene_x.Common.{
  ℕ, suc, String, Bool, true, false, ◌&&◌, ◌==◌, List, [], ◌∷◌, ◌++◌, Option, none, some, Outcome,
  ok, err, ◌>>=◌,
}
use sene_x.Common.Int.{ℤ}
use sene_x.Common.Text.{text_eq}

-- `event.get("prediction")`: nothing, an object, or another value.
pub data Given (P : Type 0) : Type 0 where
  absent : Given P
  not_object : Given P
  object : P → Given P

-- A line with the store's contract; the fields are what `event.get` finds.
pub record Receipt (P : Type 0) : Type 0 where
  pub event : Option String
  pub recorded_at : Option String
  pub source_packet_hash : String
  pub source_packet_id : Option String
  pub source_prediction_sha256 : Option String
  pub prediction : Given P
  pub reason : Option String
  pub d1_prediction_id : Option ℤ

-- `_recovery_marker`
pub record Marker : Type 0 where
  pub line_no : ℕ
  pub sha256 : String
  pub size : ℕ

-- The JSON value of a line, as far as `_read` tells them apart: an object with the marker's key
-- (and a torn-tail marker under it, or something else), one with the store's contract, the rest.
pub data Parsed (P : Type 0) : Type 0 where
  recovery : Option Marker → Parsed P
  receipt : Receipt P → Parsed P
  unknown : Parsed P

-- The bytes of a line without its end, and what the `json` and `hashlib` libraries make of them
-- and of a prediction. A prediction here is one that consists of JSON's own values, which are equal
-- to what JSON reads back: `_canonical_json` would write any other value, such as a datetime, as its
-- text (`default=str`), or a tuple as a list, and the store would then hold another prediction than
-- the one it was given.
pub record Json (Raw P : Type 0) : Type 0 where
  pub empty : Raw
  pub join : Raw → Raw → Raw
  pub is_blank : Raw → Bool
  pub loads : Raw → Option (Parsed P)
  pub dumps : Parsed P → Raw
  pub sha : Raw → String
  pub size : Raw → ℕ
  pub prediction_sha : P → String
  pub same : P → P → Bool
  pub timestamp : P → String

pub data StoreError : Type 0 where
  invalid_json orphan_marker invalid_contract : ℕ → StoreError
  invalid_hash hash_conflict not_an_object hash_mismatch payload_conflict : StoreError
  bad_identity unknown_packet bad_id id_conflict : StoreError
  type_error key_error value_error : StoreError

-- The lines of the file that have an end, and the bytes after the last end.
pub record File (Raw : Type 0) : Type 0 where
  pub lines : List Raw
  pub tail : Option Raw

-- What `_read` writes before it returns.
pub data Repair : Type 0 where
  intact add_end : Repair
  add_marker : Marker → Repair

module _ {Raw P : Type 0} (j : Json Raw P) where
  -- `handle.write(b"\n")` at the end of the file
  abbrev pub write_end : File Raw → File Raw
  write_end f = elim f.tail [
    | none ↦ record { lines = f.lines ++ j.empty ∷ []; tail = none }
    | some t ↦ record { lines = f.lines ++ t ∷ []; tail = none }
  ]

  -- `handle.write` of bytes without a line's end
  abbrev pub write_text : Raw → File Raw → File Raw
  write_text x f = elim f.tail [
    | none ↦ record { lines = f.lines; tail = some x }
    | some t ↦ record { lines = f.lines; tail = some (j.join t x) }
  ]

  -- `_append`
  abbrev pub append : Receipt P → File Raw → File Raw
  append r f = write_end (write_text (j.dumps (receipt r)) f)

  abbrev pub recovery_marker : Raw → ℕ → Marker
  recovery_marker raw n = record { line_no = n; sha256 = j.sha raw; size = j.size raw }

  -- `_marker_matches`, on the value of the next line.
  abbrev pub marker_matches : Option (Parsed P) → Raw → ℕ → Bool
  marker_matches (some (recovery (some m))) raw n =
      (m.line_no == n) && (text_eq m.sha256 (j.sha raw) && (m.size == j.size raw))
  marker_matches _ raw n = false

  abbrev pub check_row : ℕ → Parsed P → Outcome StoreError (Receipt P)
  check_row n (recovery m) = err (orphan_marker n)
  check_row n unknown = err (invalid_contract n)
  check_row n (receipt r) = ok r

  -- The last line of `_read`, when it has no end.
  abbrev pub read_tail : ℕ → Option Raw → Outcome StoreError (List (Receipt P) × Repair)
  read_tail n none = ok ([], intact)
  read_tail n (some raw) = elim (j.is_blank raw) [
    | true ↦ ok ([], intact)
    | false ↦ elim (j.loads raw) [
      | none ↦ ok ([], add_marker (recovery_marker raw n))
      | some p ↦ check_row n p >>= λ r. ok (r ∷ [], add_end)
    ]
  ]

  abbrev pub then_rows :
      Receipt P
      → Outcome StoreError (List (Receipt P) × Repair)
      → Outcome StoreError (List (Receipt P) × Repair)
  then_rows r rest = rest >>= λ (rs, fix). ok (r ∷ rs, fix)

  -- The loop of `_read`. A line that is no JSON value stands only before its own marker.
  unfoldable pub read_lines :
      ℕ → List Raw → Option Raw → Outcome StoreError (List (Receipt P) × Repair)
  read_lines n [] tail = read_tail n tail
  read_lines n (raw ∷ []) tail = elim (j.is_blank raw) [
    | true ↦ read_lines (suc n) [] tail
    | false ↦ elim (j.loads raw) [
      | some p ↦ check_row n p >>= λ r. then_rows r (read_lines (suc n) [] tail)
      | none ↦ elim tail [
        | none ↦ err (invalid_json n)
        | some t ↦ elim (marker_matches (j.loads t) raw n) [
          | true ↦ ok ([], intact)
          | false ↦ err (invalid_json n)
        ]
      ]
    ]
  ]
  read_lines n (raw ∷ next ∷ rest) tail = elim (j.is_blank raw) [
    | true ↦ read_lines (suc n) (next ∷ rest) tail
    | false ↦ elim (j.loads raw) [
      | some p ↦ check_row n p >>= λ r. then_rows r (read_lines (suc n) (next ∷ rest) tail)
      | none ↦ elim (marker_matches (j.loads next) raw n) [
        | true ↦ read_lines (suc (suc n)) rest tail
        | false ↦ err (invalid_json n)
      ]
    ]
  ]

  abbrev pub repair : Repair → File Raw → File Raw
  repair intact f = f
  repair add_end f = write_end f
  repair (add_marker m) f = write_end (write_text (j.dumps (recovery (some m))) (write_end f))

  abbrev pub repaired :
      Outcome StoreError (List (Receipt P) × Repair)
      → File Raw
      → Outcome StoreError (List (Receipt P)) × File Raw
  repaired (err e) f = (err e, f)
  repaired (ok (rows, fix)) f = (ok rows, repair fix f)

  -- `_read`: the rows, or the error, and the file it leaves.
  unfoldable pub read : File Raw → Outcome StoreError (List (Receipt P)) × File Raw
  unfolding read_lines
  read f = repaired (read_lines 1 f.lines f.tail) f
