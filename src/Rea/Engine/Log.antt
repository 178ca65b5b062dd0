-- ===== src/Rea/Engine/Log.antt =====
-- The journal that an engine has written: it passes the checks of `_read_journal`, and its replay
-- is the engine.
pub mod Chain
use sene_x.Common.{
  ℕ, ◌+◌, String, ◌≡◌, refl, sym, ap, ◌∙◌, Bool, true, false, not, List, [], ◌∷◌, ◌++◌, map, Option,
  none, some, length, length-append, Outcome, ok, err, ◌>>=◌, >>=-eq-ok, arith,
}
use sene_x.Rea.Paper.Fill.{is_before}
use sene_x.Rea.Engine.Event.{EngineError, Event, Record, Book, nonempty}
use sene_x.Rea.Engine.Reduce.{Candidate, reduce}
use sene_x.Rea.Engine.Journal.{Hashing, genesis_hash, find_event, commit, next_entry, seal}
use sene_x.Rea.Engine.Recover.{replay_record, replay}

-- The books that an engine goes through from some book on, with the records that it wrote.
pub data Logged (h : Hashing) (b0 : Book) : Book → List Record → Type 0 where
  start : Logged h b0 b0 []
  more :
      {b : Book} {rs : List Record}
      → Logged h b0 b rs
      → (key : String) (event : Event) (t : ℕ) (c : Candidate) → nonempty key ≡ ok key
      → find_event key b.events ≡ none
      → is_before t b.last_timestamp ≡ false
      → reduce h.digest b event (b.journal_seq + 1) t ≡ ok c
      → Logged h b0
          (commit b (seal h (next_entry h b key event t)) c)
          (rs ++ seal h (next_entry h b key event t) ∷ [])

module _ (h : Hashing) where
  pub replay-snoc :
      (b : Book) (rs : List Record) (r : Record) {b' : Book}
      → replay h b rs ≡ ok b'
      → replay h b (rs ++ r ∷ []) ≡ replay h b' (r ∷ [])
  unfolding replay
  replay-snoc b [] r e = ground arith
  replay-snoc b (x ∷ rs) r e =
      let (b₁, first, rest) = >>=-eq-ok (replay_record h b x) (λ g. replay h g rs) e in
      rw first (replay-snoc b₁ rs r rest)

  -- Replaying what an engine has journaled, from the book that it began with, gives its book.
  pub replay-Logged : {b0 b : Book} {rs : List Record} → Logged h b0 b rs → replay h b0 rs ≡ ok b
  unfolding replay replay_record
  replay-Logged start = refl
  replay-Logged {b0} (more {b} {rs} l key event t c named new later reduced) =
      rw (replay-snoc b0 rs _ (replay-Logged l)) (ground (arith, later, reduced))
