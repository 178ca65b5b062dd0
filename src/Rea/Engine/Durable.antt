-- ===== src/Rea/Engine/Durable.antt =====
-- Calls in sequence: the file and the engine stay in step until an append fails.
pub mod Freeze
pub mod Unreleased
pub mod States
pub mod Restart
use sene_x.Common.{
  ℕ, ◌+◌, String, ◌≡◌, refl, sym, ap, ◌≢◌, ◌∙◌, ◌⊎◌, inl, inr, Bool, true, false, not, ◌==◌, List,
  [], ◌∷◌, ◌++◌, map, Option, none, some, length, Outcome, ok, err, ◌>>=◌, >>=-eq-ok, Outcome-cases,
  if◌then◌else◌, is_some, arith,
}
use sene_x.Common.Text.{text_eq, strip}
use sene_x.Common.Text.Strip.{strip_twice}
use sene_x.Rea.Paper.Order.{Side}
use sene_x.Rea.Paper.State.{PaperState}
use sene_x.Rea.Engine.Event.{
  EngineError, Event, Record, RiskLimits, Book, Engine, BlockReason, divergence, durability, Reply,
  nonempty, FillPayload,
}
use sene_x.Rea.Engine.Journal.{Hashing, genesis_hash, Disk, Append, Done, check_lines, read_journal}
use sene_x.Rea.Engine.Journal.Runs.{
  written, Wrote, Ran, refused, answered, frozen, unreleased, recorded, record_event-Ran,
}
use sene_x.Rea.Engine.Commands.{
  Plan, answer, record_it, plan_register, choose_fill, plan_fill, plan_termination, plan_reconcile,
  plan_resolve, Command, register, apply, terminate, reconcile, resolve, plan, carry_out, call,
}
use sene_x.Rea.Engine.Commands.Runs.{call-Ran}
use sene_x.Rea.Engine.Recover.{genesis, replay}
use sene_x.Rea.Engine.Log.{Logged, start, more, replay-Logged}
use sene_x.Rea.Engine.Log.Chain.{Logged-Chained}

-- An engine as the constructor leaves it on an empty file.
abbrev pub fresh_engine : PaperState → RiskLimits → Engine
fresh_engine s limits = record { book = genesis s limits; journal_size = 0 }

abbrev pub empty_disk : Disk
empty_disk = record { lines = []; tail = 0; size = 0 }

-- Since some engine and file, the file has grown by what the engine has journaled, and by nothing
-- else.
pub record IsSynced (h : Hashing) (g0 : Engine) (d0 : Disk) (g : Engine) (d : Disk) : Type 0 where
  pub records : List Record
  pub logged : Logged h g0.book g.book records
  pub lines : d.lines ≡ d0.lines ++ map some records
  pub whole : d.tail ≡ d0.tail
  pub sized : d0.size ≡ g0.journal_size → d.size ≡ g.journal_size

map-some-snoc :
    (rs : List Record) (r : Record) → map some rs ++ some r ∷ [] ≡ map some (rs ++ r ∷ [])
map-some-snoc [] r = refl
map-some-snoc (x ∷ rs) r = ap (λ ls. some x ∷ ls) (map-some-snoc rs r)

appended-lines :
    (ls : List (Option Record)) (rs : List Record) (r : Record)
    → (ls ++ map some rs) ++ some r ∷ [] ≡ ls ++ map some (rs ++ r ∷ [])
appended-lines [] rs r = map-some-snoc rs r
appended-lines (l ∷ ls) rs r = ap (λ t. l ∷ t) (appended-lines ls rs r)

module _ (h : Hashing) (g0 : Engine) (d0 : Disk) where
  -- Recording an event keeps engine and file in step.
  pub Wrote-IsSynced :
      {g : Engine} {d : Disk} {r : Reply} {g' : Engine} {d' : Disk}
      → IsSynced h g0 d0 g d
      → Wrote h g d r g' d'
      → IsSynced h g0 d0 g' d'
  Wrote-IsSynced {g} {d} s w =
      let x = written h g w.key w.event w.time in
      let a = w.accepted in
      rw (w.engine, w.disk)
        (record {
          records = s.records ++ x ∷ [];
          logged =
              more s.logged w.key w.event w.time w.candidate a.named a.unseen a.later a.reduced;
          lines = ap (λ ls. ls ++ some x ∷ []) s.lines ∙ appended-lines d0.lines s.records x;
          whole = s.whole;
          sized = λ began. ap (λ n. n + h.line_size x) (s.sized began);
        })

  -- The engine and the file after a call, if the call did not freeze the engine.
  abbrev pub Keeps : Engine → Done (Bool × Reply) → Type 0
  Keeps g (m, g', d') =
      IsSynced h g0 d0 g' d'
      ⊎ ((why : BlockReason) × (g'.book ≡ record g.book { blocked = some why }))

  Ran-Keeps :
      {g : Engine} {d : Disk} {m : Done (Bool × Reply)}
      → IsSynced h g0 d0 g d
      → Ran h g d m
      → Keeps g m
  Ran-Keeps s (refused e) = inl s
  Ran-Keeps s (answered r) = inl s
  Ran-Keeps s (frozen e why d') = inr (why, refl)
  Ran-Keeps s (unreleased e r numbered same) = inr (durability, refl)
  Ran-Keeps {g} {d} s (recorded r g' d' w) = inl (Wrote-IsSynced s w)

append_nil : (ls : List (Option Record)) → ls ++ [] ≡ ls
append_nil [] = refl
append_nil (l ∷ ls) = ap (λ t. l ∷ t) (append_nil ls)

module _ (h : Hashing) (g0 : Engine) (d0 : Disk) where
  -- Calls in sequence from some engine and file on, each with the answer of the operating system to
  -- its append, as long as none freezes the engine.
  pub data Served : Engine → Disk → Type 0 where
    opened : Served g0 d0
    then_call :
        {g : Engine} {d : Disk}
        → Served g d
        → (c : Command) (a : Append)
        → ((why : BlockReason) → (call h c a g d).1.book ≢ record g.book { blocked = some why })
        → Served (call h c a g d).1 (call h c a g d).2

  pub Served-IsSynced : {g : Engine} {d : Disk} → Served g d → IsSynced h g0 d0 g d
  Served-IsSynced opened = record {
    records = [];
    logged = start;
    lines = sym (append_nil d0.lines);
    whole = refl;
    sized = λ began. began;
  }
  Served-IsSynced (then_call {g} {d} before c a unfrozen) =
      elim (Ran-Keeps h g0 d0 (Served-IsSynced before) (call-Ran h c a g d)) [
        | inl t ↦ t
        | inr (why, froze) ↦ absurd (unfrozen why froze)
      ]

module _ (h : Hashing) (s : PaperState) (limits : RiskLimits) where
  -- Whatever calls an engine has served since it was opened on an empty file, as long as none froze
  -- it, its file passes every check of the reader, and replaying the records that the reader returns
  -- from the initial state gives exactly the engine's state, terminal orders, block, discrepancies
  -- and indexes.
  pub journal_is_engine :
      {g : Engine} {d : Disk}
      → Served h (fresh_engine s limits) empty_disk g d
      → (rs : List Record) × (read_journal h d ≡ ok rs)
        × (replay h (genesis s limits) rs ≡ ok g.book)
        × (g.journal_seq ≡ length rs)
  unfolding read_journal
  journal_is_engine served =
      let sync = Served-IsSynced h (fresh_engine s limits) empty_disk served in
      let chain = Logged-Chained h refl refl refl sync.logged in
      (
        sync.records,
        rw (sync.whole, sync.lines) chain.verified,
        replay-Logged h sync.logged,
        chain.numbered,
      )
