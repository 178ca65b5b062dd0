-- ===== src/Backend/Receipts/Recovery.antt =====
-- What `_read` makes of a file with complete rows, torn rows with their markers, and a torn tail.
use mathlib.Core.List.{append-nil}
use sene_x.Common.{
  ℕ, suc, ◌+◌, ◌≡◌, refl, sym, ap, subst, ◌∙◌, true, false, ==_iff, List, [], ◌∷◌, ◌++◌, length,
  Option, none, some, ok, arith,
}
use sene_x.Common.Text.{eq_refl}
use sene_x.Backend.Receipts.Lines.{
  Parsed, recovery, receipt, Receipt, Json, File, Repair, intact, add_end, add_marker, write_text,
  append, recovery_marker, marker_matches, read_tail, then_rows, read_lines, read,
}

-- What is relied on of the `json` library: it reads what it has written, which is not blank, and
-- refuses white space.
pub record IsJson {Raw P : Type 0} (j : Json Raw P) : Type 0 where
  pub loads-dumps : (p : Parsed P) → j.loads (j.dumps p) ≡ some p
  pub dumps_not_blank : (p : Parsed P) → j.is_blank (j.dumps p) ≡ false

module _ {Raw P : Type 0} (j : Json Raw P) where
  -- Bytes that a write leaves when it is cut short: not blank, and no JSON value.
  abbrev pub IsTorn : Raw → Type 0
  IsTorn raw = (j.is_blank raw ≡ false) × (j.loads raw ≡ none)

  -- Complete lines from a line number on, and the rows that they hold.
  pub data Holds : ℕ → List Raw → List (Receipt P) → Type 0 where
    nothing : {n : ℕ} → Holds n [] []
    row :
        {n : ℕ} {ls : List Raw} {rs : List (Receipt P)} (r : Receipt P)
        → Holds (suc n) ls rs
        → Holds n (j.dumps (receipt r) ∷ ls) (r ∷ rs)
    torn :
        {n : ℕ} {ls : List Raw} {rs : List (Receipt P)} (raw : Raw)
        → IsTorn raw
        → Holds (suc (suc n)) ls rs
        → Holds n (raw ∷ j.dumps (recovery (some (recovery_marker j raw n))) ∷ ls) rs

  -- The bytes after the last complete line.
  pub data FileEnd : Option Raw → List (Receipt P) → Type 0 where
    closed : FileEnd none []
    cut : (raw : Raw) → IsTorn raw → FileEnd (some raw) []
    unended : (r : Receipt P) → FileEnd (some (j.dumps (receipt r))) (r ∷ [])

  -- A file that holds rows, with or without an ending to repair.
  pub record IsReadable (f : File Raw) (rows : List (Receipt P)) : Type 0 where
    pub before : List (Receipt P)
    pub last : List (Receipt P)
    pub split : rows ≡ before ++ last
    pub lines : Holds 1 f.lines before
    pub tail : FileEnd f.tail last

  -- A file that ends with a line's end.
  abbrev pub IsClosed : File Raw → List (Receipt P) → Type 0
  IsClosed f rows = Holds 1 f.lines rows × (f.tail ≡ none)

  module _ (law : IsJson j) where
    pub marker_matches_own :
        (raw : Raw) (n : ℕ)
        → marker_matches j (some (recovery (some (recovery_marker j raw n)))) raw n ≡ true
    marker_matches_own raw n =
        ground (arith, eq_refl (j.sha raw), ==_iff n n, ==_iff (j.size raw) (j.size raw))

    pub read_lines-row :
        (n : ℕ) (r : Receipt P) (ls : List Raw) (tail : Option Raw)
        → read_lines j n (j.dumps (receipt r) ∷ ls) tail
          ≡ then_rows j r (read_lines j (suc n) ls tail)
    unfolding read_lines
    read_lines-row n r [] tail =
        ground (arith, law.dumps_not_blank (receipt r), law.loads-dumps (receipt r))
    read_lines-row n r (l ∷ ls) tail =
        ground (arith, law.dumps_not_blank (receipt r), law.loads-dumps (receipt r))

    pub read_lines-torn :
        (n : ℕ) (raw : Raw) (ls : List Raw) (tail : Option Raw)
        → IsTorn raw
        → read_lines j n (raw ∷ j.dumps (recovery (some (recovery_marker j raw n))) ∷ ls) tail
          ≡ read_lines j (suc (suc n)) ls tail
    unfolding read_lines
    read_lines-torn n raw ls tail (not_blank, bad) = ground (
      arith,
      not_blank,
      bad,
      law.loads-dumps (recovery (some (recovery_marker j raw n))),
      marker_matches_own raw n,
    )

    -- Complete lines are read as the rows that they hold, before what the ending adds.
    pub read_lines-Holds :
        {n : ℕ} {ls : List Raw} {rs : List (Receipt P)} (tail : Option Raw) (ts : List (Receipt P))
        (fix : Repair)
        → Holds n ls rs
        → read_tail j (n + length ls) tail ≡ ok (ts, fix)
        → read_lines j n ls tail ≡ ok (rs ++ ts, fix)
    unfolding read_lines
    read_lines-Holds {n} tail ts fix nothing end =
        let at : n ≡ n + 0 = omega arith in ap (λ k. read_tail j k tail) at ∙ end
    read_lines-Holds {n} tail ts fix (row {ls} r h) end =
        let at : suc n + length ls ≡ n + length (j.dumps (receipt r) ∷ ls) = omega arith in
        let rest = read_lines-Holds tail ts fix h (ap (λ k. read_tail j k tail) at ∙ end) in
        rw (read_lines-row n r ls tail, rest) refl
    read_lines-Holds {n} tail ts fix (torn {ls} raw bad h) end =
        let at : suc (suc n) + length ls ≡ n + suc (suc (length ls)) = omega arith in
        let rest = read_lines-Holds tail ts fix h (ap (λ k. read_tail j k tail) at ∙ end) in
        rw (read_lines-torn n raw ls tail bad, rest) refl

    Holds-row :
        {n : ℕ} {ls : List Raw} {rs : List (Receipt P)} (r : Receipt P)
        → Holds n ls rs
        → Holds n (ls ++ j.dumps (receipt r) ∷ []) (rs ++ r ∷ [])
    Holds-row r nothing = row r nothing
    Holds-row r (row q h) = row q (Holds-row r h)
    Holds-row r (torn raw bad h) = torn raw bad (Holds-row r h)

    Holds-torn :
        {n : ℕ} {ls : List Raw} {rs : List (Receipt P)} (raw : Raw)
        → IsTorn raw
        → Holds n ls rs
        → Holds n
            ((ls ++ raw ∷ [])
              ++ j.dumps (recovery (some (recovery_marker j raw (n + length ls)))) ∷ [])
            rs
    Holds-torn {n} raw bad nothing =
        let at : n ≡ n + 0 = omega arith in
        subst (λ k. Holds n (raw ∷ j.dumps (recovery (some (recovery_marker j raw k))) ∷ []) []) at
          (torn raw bad nothing)
    Holds-torn {n} raw bad (row {ls} {rs} q h) =
        let at : suc n + length ls ≡ n + suc (length ls) = omega arith in
        row q (
          subst
            (λ k.
              Holds (suc n)
                ((ls ++ raw ∷ []) ++ j.dumps (recovery (some (recovery_marker j raw k))) ∷ []) rs)
            at (Holds-torn raw bad h))
    Holds-torn {n} {rs} raw bad (torn {ls} raw' bad' h) =
        let at : suc (suc n) + length ls ≡ n + suc (suc (length ls)) = omega arith in
        torn raw' bad' (
          subst
            (λ k.
              Holds (suc (suc n))
                ((ls ++ raw ∷ []) ++ j.dumps (recovery (some (recovery_marker j raw k))) ∷ []) rs)
            at (Holds-torn raw bad h))

    read-FileEnd :
        {ls : List Raw} {rs ts : List (Receipt P)} (t : Option Raw)
        → Holds 1 ls rs
        → FileEnd t ts
        → let out = read j (record { lines = ls; tail = t }) in
          (out.0 ≡ ok (rs ++ ts)) × IsClosed out.1 (rs ++ ts)
    unfolding read
    read-FileEnd {ls} {rs} t h closed =
        let got = read_lines-Holds none [] intact h refl in
        let same : rs ≡ rs ++ [] = sym (append-nil rs) in
        rw got (refl, (subst (Holds 1 ls) same h, refl))
    read-FileEnd {ls} {rs} t h (cut raw (not_blank, bad)) =
        let m = recovery_marker j raw (1 + length ls) in
        let got =
          read_lines-Holds (some raw) [] (add_marker m) h (ground (arith, not_blank, bad)) in
        let same : rs ≡ rs ++ [] = sym (append-nil rs) in
        rw got (refl, (subst (Holds 1 _) same (Holds-torn raw (not_blank, bad) h), refl))
    read-FileEnd {ls} {rs} t h (unended r) =
        let got =
          read_lines-Holds (some (j.dumps (receipt r))) (r ∷ []) add_end h
            (ground (arith, law.dumps_not_blank (receipt r), law.loads-dumps (receipt r))) in
        rw got (refl, (Holds-row r h, refl))

    -- `_read` returns the rows and leaves a file that ends with a line's end.
    pub read-IsReadable :
        (f : File Raw) (rows : List (Receipt P))
        → IsReadable f rows
        → ((read j f).0 ≡ ok rows) × IsClosed (read j f).1 rows
    read-IsReadable f rows h = rw h.split (read-FileEnd f.tail h.lines h.tail)

    -- A file with its lines ended is one to read, and so it is with another row, whole, without
    -- its end or cut short.
    pub IsReadable-closed :
        (f : File Raw) (rows : List (Receipt P)) → IsClosed f rows → IsReadable f rows
    IsReadable-closed f rows (h, end) = record {
      before = rows;
      last = [];
      split = sym (append-nil rows);
      lines = h;
      tail = rw end closed;
    }

    pub append-IsClosed :
        (f : File Raw) (rows : List (Receipt P)) (r : Receipt P)
        → IsClosed f rows
        → IsClosed (append j r f) (rows ++ r ∷ [])
    append-IsClosed f rows r (h, end) = rw end (Holds-row r h, refl)

    pub cut-IsReadable :
        (f : File Raw) (rows : List (Receipt P)) (raw : Raw)
        → IsClosed f rows
        → IsTorn raw
        → IsReadable (write_text j raw f) rows
    cut-IsReadable f rows raw (h, end) bad = rw end (record {
      before = rows;
      last = [];
      split = sym (append-nil rows);
      lines = h;
      tail = cut raw bad;
    })

    pub unended-IsReadable :
        (f : File Raw) (rows : List (Receipt P)) (r : Receipt P)
        → IsClosed f rows
        → IsReadable (write_text j (j.dumps (receipt r)) f) (rows ++ r ∷ [])
    unended-IsReadable f rows r (h, end) =
        rw end (record { before = rows; last = r ∷ []; split = refl; lines = h; tail = unended r })
