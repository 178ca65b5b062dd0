-- ===== src/Rea/Engine/Durable/Unreleased.antt =====
-- A line whose lock was not released, and a resolution after it.
use mathlib.Core.List.{append_assoc}
use sene_x.Common.{
  ℕ, ◌+◌, String, ◌≡◌, refl, sym, ap, ◌∙◌, ◌≢◌, inl, inr, Bool, true, List, [], ◌∷◌, ◌++◌, Option,
  none, some, length, length-append, ok, err, ◌>>=◌, >>=-eq-ok, Outcome-cases, arith,
}
use sene_x.Rea.Paper.State.{Digest}
use sene_x.Rea.Engine.Event.{EngineError, Record, Engine, Reply}
use sene_x.Rea.Engine.Journal.{
  Hashing, genesis_hash, Disk, Append, Done, check_line, check_lines, read_journal,
}
use sene_x.Rea.Engine.Journal.Runs.{written, Ran, refused, answered, frozen, unreleased, recorded}
use sene_x.Rea.Engine.Commands.{Command, call}
use sene_x.Rea.Engine.Commands.Runs.{call-Ran}
use sene_x.Rea.Engine.Durable.Freeze.{Ran-Wrote}

module _ (h : Hashing) where
  check_line-seq :
      (seq : ℕ) (previous : Digest) (ids : List String) (r : Record) (u : Unit {0})
      → check_line h seq previous ids r ≡ ok u
      → r.entry.journal_seq ≡ seq
  unfolding check_line
  check_line-seq seq previous ids r u e = ground arith

  -- A line of a file that is read carries the number of its place.
  check_lines-place :
      (seq : ℕ) (previous : Digest) (ids : List String) (before after : List (Option Record))
      (x : Record) (rs : List Record)
      → check_lines h seq previous ids (before ++ some x ∷ after) ≡ ok rs
      → x.entry.journal_seq ≡ seq + length before
  unfolding check_lines
  check_lines-place seq previous ids [] after x rs e =
      let (u, first, _) =
        >>=-eq-ok (check_line h seq previous ids x)
          (λ _. check_lines h (seq + 1) x.event_sha256 (x.entry.event_id ∷ ids) after >>= λ t.
            ok (x ∷ t))
          e in
      let place = check_line-seq seq previous ids x u first in omega (arith, place)
  check_lines-place seq previous ids (none ∷ before) after x rs e = absurd (ground arith)
  check_lines-place seq previous ids (some y ∷ before) after x rs e =
      let (u, first, e₁) =
        >>=-eq-ok (check_line h seq previous ids y)
          (λ _.
            check_lines h (seq + 1) y.event_sha256 (y.entry.event_id ∷ ids)
              (before ++ some x ∷ after)
            >>= λ t. ok (y ∷ t))
          e in
      let (t, rest, e₂) =
        >>=-eq-ok
          (check_lines h (seq + 1) y.event_sha256 (y.entry.event_id ∷ ids)
            (before ++ some x ∷ after))
          (λ t. ok (y ∷ t)) e₁ in
      let place =
        check_lines-place (seq + 1) y.event_sha256 (y.entry.event_id ∷ ids) before after x t rest in
      omega (arith, place)

  -- Two lines with the same number, one after the other, are refused.
  repeated_number :
      (ls : List (Option Record)) (x y : Record) (d : Disk) (rs : List Record)
      → d.lines ≡ (ls ++ some x ∷ []) ++ some y ∷ []
      → x.entry.journal_seq ≡ y.entry.journal_seq
      → read_journal h d ≢ ok rs
  unfolding read_journal
  repeated_number ls x y d rs lines same e =
      let checked : check_lines h 1 genesis_hash [] d.lines ≡ ok rs = ground arith in
      let of_lines = sym (ap (check_lines h 1 genesis_hash []) lines) ∙ checked in
      let of_tail =
        sym (ap (check_lines h 1 genesis_hash []) (append_assoc ls (some x ∷ []) (some y ∷ [])))
        ∙ of_lines in
      let second = check_lines-place 1 genesis_hash [] (ls ++ some x ∷ []) [] y rs of_lines in
      let first = check_lines-place 1 genesis_hash [] ls (some y ∷ []) x rs of_tail in
      absurd (omega (arith, first, second, same, length-append ls (some x ∷ [])))

  -- What is known of the line when a call raises and the engine counts its bytes all the same.
  Ran-line :
      {g : Engine} {d : Disk} {m : Done (Bool × Reply)} (e : EngineError)
      → Ran h g d m
      → m.0 ≡ err e
      → m.1.journal_size ≢ g.journal_size
      → (x : Record) × (x.entry.journal_seq ≡ g.journal_seq + 1)
        × (m.1.journal_seq ≡ g.journal_seq)
        × (m.2.lines ≡ d.lines ++ some x ∷ [])
  Ran-line e (refused e') same moved = absurd (moved refl)
  Ran-line e (answered r) same moved = absurd (moved refl)
  Ran-line e (frozen e' why d') same moved = absurd (moved refl)
  Ran-line e (unreleased e' x numbered sized) same moved = (x, numbered, refl, refl)
  Ran-line e (recorded q g' d' w) same moved = cc

  -- A call raises after it has written its line and the engine has counted the line's bytes, so that
  -- only the release of the lock is left to fail. A further call on what that leaves, a
  -- `resolve_divergence` for one, that records its event leaves a file that the reader refuses.
  pub unreleased_stuck :
      (c c' : Command) (a a' : Append) (g : Engine) (d : Disk) (e : EngineError) (r : Reply)
      → (call h c a g d).0 ≡ err e
      → (call h c a g d).1.journal_size ≢ g.journal_size
      → (call h c' a' (call h c a g d).1 (call h c a g d).2).0 ≡ ok (true, r)
      → (x : EngineError) × (read_journal h (call h c' a' (call h c a g d).1 (call h c a g d).2).2
          ≡ err x)
  unreleased_stuck c c' a a' g d e r raised moved wrote =
      let g' = (call h c a g d).1 in
      let d' = (call h c a g d).2 in
      let (x, numbered, kept, line) = Ran-line e (call-Ran h c a g d) raised moved in
      let w = Ran-Wrote h r (call-Ran h c' a' g' d') wrote in
      let y = written h g' w.key w.event w.time in
      let lines : (call h c' a' g' d').2.lines ≡ (d.lines ++ some x ∷ []) ++ some y ∷ [] =
        ap (λ (z : Disk). z.lines) w.disk ∙ ap (λ ls. ls ++ some y ∷ []) line in
      let same : x.entry.journal_seq ≡ y.entry.journal_seq =
        numbered ∙ ap (λ n. n + 1) (sym kept) in
      elim (Outcome-cases (read_journal h (call h c' a' g' d').2)) [
        | inl (z, bad) ↦ (z, bad)
        | inr (rs, good) ↦
            absurd (repeated_number d.lines x y (call h c' a' g' d').2 rs lines same good)
      ]
