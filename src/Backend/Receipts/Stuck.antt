-- ===== src/Backend/Receipts/Stuck.antt =====
-- A repair that is stopped before its last byte.
use mathlib.Core.List.{append-nil, append_assoc}
use sene_x.Common.{
  ℕ, suc, ◌+◌, String, ◌≡◌, refl, ap, ◌∙◌, List, [], ◌∷◌, ◌++◌, length, Option, none, some, ok, err,
  arith,
}
use sene_x.Backend.Receipts.Lines.{
  recovery, receipt, Receipt, Json, File, StoreError, invalid_json, Repair, intact, write_end,
  write_text, append, recovery_marker, read_lines, read,
}
use sene_x.Backend.Receipts.Store.{Call, check_arguments}
use sene_x.Backend.Receipts.Queue.{call_store}
use sene_x.Backend.Receipts.Recovery.{
  IsJson, IsTorn, Holds, nothing, row, torn, marker_matches_own, read_lines-row, read_lines-torn,
}

module _ {Raw P : Type 0} (j : Json Raw P) (law : IsJson j) where
  -- What the lines after complete ones are read as.
  read_lines-prefix-err :
      {n : ℕ} {ls : List Raw} {rs : List (Receipt P)} (rest : List Raw) (tail : Option Raw)
      (e : StoreError)
      → Holds j n ls rs
      → read_lines j (n + length ls) rest tail ≡ err e
      → read_lines j n (ls ++ rest) tail ≡ err e
  read_lines-prefix-err {n} rest tail e nothing h =
      let at : n ≡ n + 0 = omega arith in ap (λ k. read_lines j k rest tail) at ∙ h
  read_lines-prefix-err {n} rest tail e (row {ls} r k) h =
      let at : suc n + length ls ≡ n + suc (length ls) = omega arith in
      let later = read_lines-prefix-err rest tail e k (ap (λ i. read_lines j i rest tail) at ∙ h) in
      rw (read_lines-row j law n r (ls ++ rest) tail, later) refl
  read_lines-prefix-err {n} rest tail e (torn {ls} raw bad k) h =
      let at : suc (suc n) + length ls ≡ n + suc (suc (length ls)) = omega arith in
      let later = read_lines-prefix-err rest tail e k (ap (λ i. read_lines j i rest tail) at ∙ h) in
      read_lines-torn j law n raw (ls ++ rest) tail bad ∙ later

  read_lines-prefix :
      {n : ℕ} {ls : List Raw} {rs : List (Receipt P)} (rest : List Raw) (tail : Option Raw)
      (ts : List (Receipt P)) (fix : Repair)
      → Holds j n ls rs
      → read_lines j (n + length ls) rest tail ≡ ok (ts, fix)
      → read_lines j n (ls ++ rest) tail ≡ ok (rs ++ ts, fix)
  read_lines-prefix {n} rest tail ts fix nothing h =
      let at : n ≡ n + 0 = omega arith in ap (λ k. read_lines j k rest tail) at ∙ h
  read_lines-prefix {n} rest tail ts fix (row {ls} r k) h =
      let at : suc n + length ls ≡ n + suc (length ls) = omega arith in
      let later =
        read_lines-prefix rest tail ts fix k (ap (λ i. read_lines j i rest tail) at ∙ h) in
      rw (read_lines-row j law n r (ls ++ rest) tail, later) refl
  read_lines-prefix {n} rest tail ts fix (torn {ls} raw bad k) h =
      let at : suc (suc n) + length ls ≡ n + suc (suc (length ls)) = omega arith in
      let later =
        read_lines-prefix rest tail ts fix k (ap (λ i. read_lines j i rest tail) at ∙ h) in
      read_lines-torn j law n raw (ls ++ rest) tail bad ∙ later

  -- A file that cannot be read stays as it is, and every call on it raises.
  call_store-unreadable :
      (now : String) (c : Call P) (f : File Raw) (e : StoreError)
      → check_arguments j c ≡ ok tt
      → read_lines j 1 f.lines f.tail ≡ err e
      → call_store j now c f ≡ (err e, f)
  unfolding call_store read
  call_store-unreadable now c f e args bad = rw (args, bad) refl

  -- After complete lines, torn bytes have no line's end. The process is stopped in their
  -- repair, when only the line's end is written and the marker is not: every call with
  -- arguments that pass raises the JSON error of that line and leaves the file as it is. The
  -- `json` library has to read back what it has written, which is not blank.
  pub half_repair-stuck :
      (lines : List Raw) (rows : List (Receipt P)) (raw : Raw) (now : String) (c : Call P)
      → Holds j 1 lines rows
      → IsTorn j raw
      → check_arguments j c ≡ ok tt
      → let f = write_end j (record { lines = lines; tail = some raw }) in
        call_store j now c f ≡ (err (invalid_json (1 + length lines)), f)
  unfolding read_lines
  half_repair-stuck lines rows raw now c h (not_blank, bad) args =
      call_store-unreadable now c _ (invalid_json (1 + length lines)) args (
        read_lines-prefix-err (raw ∷ []) none (invalid_json (1 + length lines)) h
          (ground (arith, not_blank, bad)))

  -- After complete lines, torn bytes have no line's end. The process is stopped in their
  -- repair, when all but the last line's end is written. The file is then read as if the
  -- repair were complete, and nothing more is written; but after the next event is appended,
  -- on the line of the marker, every call with arguments that pass raises the JSON error of
  -- the torn line and leaves the file as it is. Two JSON texts on one line are taken to be no
  -- JSON value. The `json` library has to read back what it has written, which is not blank.
  pub unended_marker-stuck :
      (lines : List Raw) (rows : List (Receipt P)) (raw : Raw) (e : Receipt P) (now : String)
      (c : Call P)
      → Holds j 1 lines rows
      → IsTorn j raw
      → check_arguments j c ≡ ok tt
      → let m = j.dumps (recovery (some (recovery_marker j raw (1 + length lines)))) in
        j.loads (j.join m (j.dumps (receipt e))) ≡ none
        → let f = write_text j m (write_end j (record { lines = lines; tail = some raw })) in
          let f' = append j e f in
          (read j f ≡ (ok rows, f))
          × (call_store j now c f' ≡ (err (invalid_json (1 + length lines)), f'))
  unfolding read_lines read
  unended_marker-stuck lines rows raw e now c h (not_blank, bad) args two =
      let n = 1 + length lines in
      let m = recovery (some (recovery_marker j raw n)) in
      let seen =
        read_lines-prefix (raw ∷ []) (some (j.dumps m)) [] intact h
          (ground (arith, not_blank, bad, law.loads-dumps m, marker_matches_own j law raw n)) in
      (
        rw (seen, append-nil rows) refl,
        call_store-unreadable now c _ (invalid_json n) args (
            ap (λ ls. read_lines j 1 ls none) (append_assoc lines (raw ∷ []) _)
            ∙ read_lines-prefix-err (raw ∷ j.join (j.dumps m) (j.dumps (receipt e)) ∷ []) none
                (invalid_json n) h (ground (arith, not_blank, bad, two))),
      )
