-- ===== src/Rea/Engine/Recover/Genesis.antt =====
-- Recovery from a checkpoint: the replay goes on past it, except from the genesis checkpoint.
use sene_x.Common.{
  ℕ, zero, suc, ◌+◌, ◌-◌, ◌<◌, ◌≡◌, refl, ap, ◌≢◌, true, false, not, ◌==◌, ◌&&◌, ◌||◌, ltb, List,
  [], ◌∷◌, ◌++◌, Option, none, some, length, Outcome, ok, ◌>>=◌, ◌>>◌, String, map_err, raise_if,
  >>=-eq-ok, All, inl, inr, Bool-cases, Outcome-cases, arith,
}
use sene_x.Rea.Paper.State.{PaperState, Digest, initial}
use sene_x.Rea.Paper.Fill.{same_digest}
use sene_x.Rea.Engine.Event.{RiskLimits, Record, Book, Engine}
use sene_x.Rea.Engine.Journal.{Hashing, Disk, check_line, genesis_hash, check_lines, read_journal}
use sene_x.Rea.Engine.Recover.{
  RecoveryError, engine, prefix_mismatch, genesis_mismatch, anchor_mismatch, invalid_state, anchor,
  check_envelope, recover_journal, Saved, saved, Envelope, Payloads, genesis, new_engine,
  replay_record, replay, replay_checked, replay_from, recover,
}

module _ (h : Hashing) (p : Payloads) where
  -- Past the checkpoint the loop only replays.
  replay_checked-past :
      (cp : Saved) (g : Book) (rs : List Record)
      → replay_checked h p 0 cp g rs ≡ map_err engine (replay h g rs)
  unfolding replay_checked replay
  replay_checked-past cp g [] = refl
  replay_checked-past cp g (r ∷ rs) = elim (Outcome-cases (replay_record h g r)) [
    | inl (e, bad) ↦ rw bad
    | inr (g', good) ↦ rw good (replay_checked-past cp g' rs)
  ]

  -- Up to the checkpoint it replays too, if the book there is the one that was saved.
  replay_checked-through :
      (n : ℕ) (cp : Saved) (g b : Book) (xs ys : List Record)
      → suc n ≡ length xs
      → replay h g xs ≡ ok b
      → p.same (saved b) cp ≡ true
      → replay_checked h p (suc n) cp g (xs ++ ys) ≡ map_err engine (replay h b ys)
  unfolding replay_checked replay
  replay_checked-through n cp g b [] ys size e same = absurd (omega (arith, size))
  replay_checked-through zero cp g b (x ∷ []) ys size e same =
      let (g', good, rest) = >>=-eq-ok (replay_record h g x) (λ g'. ok g') e in
      let at_end : g' ≡ b = ground arith in rw (good, at_end, same) (replay_checked-past cp b ys)
  replay_checked-through zero cp g b (x ∷ y ∷ xs) ys size e same = absurd (omega (arith, size))
  replay_checked-through (suc n) cp g b (x ∷ xs) ys size e same =
      let (g', good, rest) = >>=-eq-ok (replay_record h g x) (λ g'. replay h g' xs) e in
      let down : suc (suc n) - 1 ≡ suc n = omega arith in
      let before_it : (suc (suc n) == 1) ≡ false = ground arith in
      rw (good, before_it, down)
        (replay_checked-through n cp g' b xs ys (omega (arith, size)) rest same)

  through_at :
      (k n : ℕ) (cp : Saved) (g b : Book) (xs ys : List Record)
      → k ≡ suc n
      → suc n ≡ length xs
      → replay h g xs ≡ ok b
      → p.same (saved b) cp ≡ true
      → replay_checked h p k cp g (xs ++ ys) ≡ map_err engine (replay h b ys)
  through_at k n cp g b xs ys at size e same =
      rw at (replay_checked-through n cp g b xs ys size e same)

  -- Of a journal whose first records, at least one, replay to a book with that number of records,
  -- and whose further records replay from there to a second book: with the checkpoint of the first
  -- book, and a comparison that takes its payload for equal to itself, the replay of `recover`
  -- returns an engine with the second book.
  pub replay_from-checkpoint :
      (b b' : Book) (s : PaperState) (limits : RiskLimits) (d : Disk) (xs ys : List Record) (n : ℕ)
      → b.journal_seq ≡ suc n
      → suc n ≡ length xs
      → replay h (genesis s limits) xs ≡ ok b
      → replay h b ys ≡ ok b'
      → p.same (saved b) (saved b) ≡ true
      → replay_from h p (saved b) s limits d (xs ++ ys)
        ≡ ok (record { book = b'; journal_size = d.size })
  unfolding replay_from new_engine
  replay_from-checkpoint b b' s limits d xs ys n at size before after same =
      let later : (b.journal_seq == 0) ≡ false = ground (arith, at) in
      let loop =
        through_at b.journal_seq n (saved b) (genesis s limits) b xs ys at size before same in
      elim (Bool-cases (d.size == 0)) [
        | inl empty ↦ rw (empty, later, loop, after)
        | inr used ↦ rw (used, later, loop, after)
      ]

  replay_record-seq :
      (g g' : Book) (r : Record)
      → map_err engine (replay_record h g r) ≡ ok g'
      → g'.journal_seq ≡ r.entry.journal_seq
  unfolding replay_record
  replay_record-seq g g' r e = ground arith

  -- Replaying numbered records leaves a number that is not zero.
  replay_checked-seq :
      (left : ℕ) (cp : Saved) (g b : Book) (rs : List Record)
      → All (λ r. 0 < r.entry.journal_seq) rs
      → 0 < g.journal_seq
      → replay_checked h p left cp g rs ≡ ok b
      → 0 < b.journal_seq
  unfolding replay_checked
  replay_checked-seq left cp g b [] all pos e = ground arith
  replay_checked-seq left cp g b (r ∷ rs) all pos e =
      let (g', first, e₁) = >>=-eq-ok (map_err engine (replay_record h g r)) (rest left cp rs) e in
      let (u, passed, e₂) =
        >>=-eq-ok (raise_if (left == 1 && not (p.same (saved g') cp)) prefix_mismatch)
          (λ _. replay_checked h p (left - 1) cp g' rs) e₁ in
      replay_checked-seq (left - 1) cp g' b rs all.1
        (omega (arith, replay_record-seq g g' r first, all.0)) e₂
    where
      rest : ℕ → Saved → List Record → Book → Outcome RecoveryError Book
      rest left cp rs g' =
          raise_if (left == 1 && not (p.same (saved g') cp)) prefix_mismatch
          >> replay_checked h p (left - 1) cp g' rs

  check_line-seq :
      (seq : ℕ) (previous : Digest) (ids : List String) (r : Record)
      → check_line h seq previous ids r ≡ ok tt
      → r.entry.journal_seq ≡ seq
  unfolding check_line
  check_line-seq seq previous ids r e = ground arith

  -- The records of a journal that is read have positive numbers, and there is one for each line.
  numbered :
      (seq : ℕ) (previous : Digest) (ids : List String) (ls : List (Option Record))
      (rs : List Record)
      → 0 < seq
      → check_lines h seq previous ids ls ≡ ok rs
      → All (λ r. 0 < r.entry.journal_seq) rs × (length rs ≡ length ls)
  unfolding check_lines
  numbered seq previous ids [] [] pos e = (tt, refl)
  numbered seq previous ids [] (r ∷ rs) pos e = cc
  numbered seq previous ids (none ∷ ls) rs pos e = cc
  numbered seq previous ids (some r ∷ ls) rs pos e =
      let (u, first, e₁) =
        >>=-eq-ok (check_line h seq previous ids r)
          (λ _.
            check_lines h (seq + 1) r.event_sha256 (r.entry.event_id ∷ ids) ls >>= λ t. ok (r ∷ t))
          e in
      let (t, rest, e₂) =
        >>=-eq-ok (check_lines h (seq + 1) r.event_sha256 (r.entry.event_id ∷ ids) ls)
          (λ t. ok (r ∷ t)) e₁ in
      let tail =
        numbered (seq + 1) r.event_sha256 (r.entry.event_id ∷ ids) ls t (omega arith) rest in
      let same : rs ≡ r ∷ t = ground arith in
      rw same ((omega (arith, check_line-seq seq previous ids r first), tail.0), ap suc tail.1)

  replayed_some-seq :
      (cp : Saved) (g b : Book) (rs : List Record)
      → All (λ r. 0 < r.entry.journal_seq) rs
      → 0 < length rs
      → replay_checked h p 0 cp g rs ≡ ok b
      → 0 < b.journal_seq
  unfolding replay_checked
  replayed_some-seq cp g b [] all some_left e = absurd (omega arith)
  replayed_some-seq cp g b (r ∷ rs) all some_left e =
      let (g', first, e₁) =
        >>=-eq-ok (map_err engine (replay_record h g r)) (λ g'. replay_checked h p (0 - 1) cp g' rs)
          e in
      replay_checked-seq (0 - 1) cp g' b rs all.1
        (omega (arith, replay_record-seq g g' r first, all.0)) e₁

  -- The end of `recover` compares a genesis checkpoint with the book after all records.
  replay_from-genesis :
      (cp : Saved) (s : PaperState) (limits : RiskLimits) (d : Disk) (rs : List Record) (g : Engine)
      → ((a b : Saved) → p.same a b ≡ true → a.journal_seq ≡ b.journal_seq)
      → cp.journal_seq ≡ 0
      → All (λ r. 0 < r.entry.journal_seq) rs
      → 0 < length rs
      → replay_from h p cp s limits d rs ≢ ok g
  unfolding replay_from
  replay_from-genesis cp s limits d rs g sound zero_seq all some_left e =
      let (start, made, e₁) = >>=-eq-ok (new_engine s limits d true) (after_start cp rs) e in
      let (u, first, e₂) =
        >>=-eq-ok
          (raise_if (cp.journal_seq == 0 && not (p.same (saved start.book) cp)) genesis_mismatch)
          (λ _. replay_checked h p cp.journal_seq cp start.book rs >>= after_loop cp start) e₁ in
      let (b, looped, e₃) =
        >>=-eq-ok (replay_checked h p cp.journal_seq cp start.book rs) (after_loop cp start) e₂ in
      let (v, last, e₄) =
        >>=-eq-ok (raise_if (cp.journal_seq == 0 && not (p.same (saved b) cp)) genesis_mismatch)
          (λ _. ok (record start { book = b })) e₃ in
      let same : p.same (saved b) cp ≡ true = ground (arith, zero_seq, last) in
      let seq : b.journal_seq ≡ cp.journal_seq = sound (saved b) cp same in
      let pos = replayed_some-seq cp start.book b rs all some_left (rw (← zero_seq) looped) in
      absurd (omega (arith, seq, zero_seq, pos))
    where
      after_loop : Saved → Engine → Book → Outcome RecoveryError Engine
      after_loop cp start b =
          raise_if (cp.journal_seq == 0 && not (p.same (saved b) cp)) genesis_mismatch
          >> ok (record start { book = b })

      after_start : Saved → List Record → Engine → Outcome RecoveryError Engine
      after_start cp rs start =
          raise_if (cp.journal_seq == 0 && not (p.same (saved start.book) cp)) genesis_mismatch
          >> (replay_checked h p cp.journal_seq cp start.book rs >>= after_loop cp start)

  read_journal-numbered :
      (d : Disk) (rs : List Record) (l : Option Record) (ls : List (Option Record))
      → d.lines ≡ l ∷ ls
      → map_err engine (read_journal h d) ≡ ok rs
      → All (λ r. 0 < r.entry.journal_seq) rs × (0 < length rs)
  unfolding read_journal
  read_journal-numbered d rs l ls some_line e =
      let got : check_lines h 1 genesis_hash [] d.lines ≡ ok rs = ground arith in
      let (all, size) = numbered 1 genesis_hash [] d.lines rs (omega arith) got in
      (all, omega (arith, size, ap (λ (x : List (Option Record)). length x) some_line))

  -- A checkpoint that was taken before the first event can no longer be recovered from once the
  -- journal holds a line: `recover` never returns an engine, whatever the journal and the
  -- checkpoint are.
  pub recover-genesis_stuck :
      (e : Envelope) (d : Disk) (source config : Digest) (limits : RiskLimits) (g : Engine)
      (l : Option Record) (ls : List (Option Record))
      → ((a b : Saved) → p.same a b ≡ true → a.journal_seq ≡ b.journal_seq)
      → e.engine_state.journal_seq ≡ 0
      → d.lines ≡ l ∷ ls
      → recover h p (some e) d source config limits ≢ ok g
  unfolding recover recover_journal
  recover-genesis_stuck e d source config limits g l ls sound zero_seq some_line returned =
      let cp = e.engine_state in
      let (state, checked, e₁) =
        >>=-eq-ok (check_envelope h p e source config limits)
          (λ state. recover_journal h p cp state d source config limits) returned in
      let (records, readable, e₂) =
        >>=-eq-ok (map_err engine (read_journal h d)) (anchored cp state) e₁ in
      let (u, tied, e₃) =
        >>=-eq-ok
          (raise_if
            (ltb (length records) cp.journal_seq
              || not (same_digest cp.journal_head (anchor h p cp.journal_seq records)))
            anchor_mismatch)
          (λ _. restarted cp state records) e₂ in
      let (s, fresh, e₄) =
        >>=-eq-ok (map_err invalid_state (initial state.starting_cash source config))
          (λ s. replay_from h p cp s limits d records) e₃ in
      let (all, size) = read_journal-numbered d records l ls some_line readable in
      replay_from-genesis cp s limits d records g sound zero_seq all size e₄
    where
      restarted : Saved → PaperState → List Record → Outcome RecoveryError Engine
      restarted cp state records =
          map_err invalid_state (initial state.starting_cash source config) >>= λ s.
          replay_from h p cp s limits d records

      anchored : Saved → PaperState → List Record → Outcome RecoveryError Engine
      anchored cp state records =
          raise_if
            (ltb (length records) cp.journal_seq
              || not (same_digest cp.journal_head (anchor h p cp.journal_seq records)))
            anchor_mismatch
          >> restarted cp state records
