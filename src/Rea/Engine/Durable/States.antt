-- ===== src/Rea/Engine/Durable/States.antt =====
-- The paper state of an engine that serves calls.
use sene_x.Common.{◌+◌, ◌≡◌, refl, ok, List}
use sene_x.Rea.Decimal.{Decimal}
use sene_x.Rea.Paper.State.{PaperState, Digest, initial}
use sene_x.Rea.Paper.Fill.History.{Inv, Reach, here, Reach-Inv, initial-Inv}
use sene_x.Rea.Engine.Event.{Record, RiskLimits, Book, Engine}
use sene_x.Rea.Engine.Reduce.Paper.{reduce-Reach, Reach-trans}
use sene_x.Rea.Engine.Journal.{Hashing, Disk}
use sene_x.Rea.Engine.Log.{Logged, start, more}
use sene_x.Rea.Engine.Durable.{fresh_engine, empty_disk, Served, Served-IsSynced}

module _ (h : Hashing) where
  -- Journaled events take the paper state through registrations and fills only.
  pub Logged-Reach :
      {b0 b : Book} {rs : List Record} → Logged h b0 b rs → Reach h.digest b0.state b.state
  Logged-Reach start = here
  Logged-Reach (more {b} l key event t c named new later reduced) =
      Reach-trans h.digest (Logged-Reach l)
        (reduce-Reach h.digest b event (b.journal_seq + 1) t c reduced)

  pub Logged-limits : {b0 b : Book} {rs : List Record} → Logged h b0 b rs → b.limits ≡ b0.limits
  Logged-limits start = refl
  Logged-limits (more l key event t c named new later reduced) = Logged-limits l

  -- Whatever calls an engine serves on an initial state, as long as none freezes it, its paper
  -- state satisfies the invariant of `apply_fill` and `register_order`: no debt, no negative
  -- amount, no ID twice, no order filled beyond its quantity, and as many fills as the sequence
  -- says.
  pub Served-Inv :
      (cash : Decimal) (source config : Digest) (s : PaperState) (limits : RiskLimits) {g : Engine}
      {d : Disk}
      → initial cash source config ≡ ok s
      → Served h (fresh_engine s limits) empty_disk g d
      → Inv g.state
  Served-Inv cash source config s limits began served =
      Reach-Inv h.digest (initial-Inv cash source config s began)
        (Logged-Reach (Served-IsSynced h (fresh_engine s limits) empty_disk served).logged)
