-- ===== src/Rea/Engine/Commands/Runs.antt =====
-- Every call of a method ends in one of the four ways, under an ID that was read.
use sene_x.Common.{
  ℕ, String, ◌≡◌, refl, Bool, true, false, Option, none, some, Outcome, ok, err, ◌>>=◌,
  if◌then◌else◌, arith,
}
use sene_x.Common.Text.{strip}
use sene_x.Common.Text.Strip.{strip_twice}
use sene_x.Rea.Paper.Order.{Side}
use sene_x.Rea.Engine.Event.{EngineError, Event, Record, Book, Engine, Reply, nonempty, FillPayload}
use sene_x.Rea.Engine.Journal.{Hashing, Disk, Append}
use sene_x.Rea.Engine.Journal.Runs.{Ran, refused, answered, record_event-Ran}
use sene_x.Rea.Engine.Commands.{
  Plan, answer, record_it, plan_register, choose_fill, plan_fill, plan_termination, plan_reconcile,
  plan_resolve, Command, register, apply, terminate, reconcile, resolve, plan, carry_out, call,
}

nonempty_again : (s key : String) → nonempty s ≡ ok key → nonempty key ≡ ok key
unfolding nonempty
nonempty_again s key h =
    let same : key ≡ strip s = ground arith in
    let twice : strip key ≡ key = rw same (strip_twice s) in rw twice (rw (← same) at h)

-- A plan records under an ID that is stripped and not empty.
abbrev IsNamed : Outcome EngineError Plan → Type 0
IsNamed (ok (record_it allow key event t)) = nonempty key ≡ ok key
IsNamed _ = Unit

record Named (m : Outcome EngineError Plan) : Type 0 where
  named : IsNamed m

Named-err : (e : EngineError) → Named (err e)
Named-err e = record { named = tt }

Named-answer : (r : Reply) → Named (ok (answer r))
Named-answer r = record { named = tt }

Named-record :
    (allow : Bool) (key : String) (event : Event) (t : ℕ)
    → nonempty key ≡ ok key
    → Named (ok (record_it allow key event t))
Named-record allow key event t n = record { named = n }

Named-bind :
    {A : Type 0} (m : Outcome EngineError A) (f : A → Outcome EngineError Plan)
    → ((a : A) → m ≡ ok a → Named (f a))
    → Named (m >>= f)
Named-bind (ok a) f k = k a refl
Named-bind (err e) f k = Named-err e

Named-if :
    (b : Bool) (m n : Outcome EngineError Plan) → Named m → Named n → Named (if b then m else n)
Named-if true m n hm hn = hm
Named-if false m n hm hn = hn

ruleset named_rules = (Named-err, Named-answer, Named-record, Named-bind, Named-if, nonempty_again)

choose_fill-Named :
    (g : Book) (key : String) (p : FillPayload) (sd : Side) (t : ℕ) (prior : Option Record)
    (old : Option FillPayload)
    → nonempty key ≡ ok key
    → Named (choose_fill g key p sd t prior old)
unfolding choose_fill
choose_fill-Named g key p sd t (some r) old n = search named_rules
choose_fill-Named g key p sd t none (some q) n = search named_rules
choose_fill-Named g key p sd t none none n = search named_rules

plan-Named : (g : Book) (c : Command) → Named (plan g c)
unfolding plan plan_register plan_fill plan_termination plan_reconcile plan_resolve
plan-Named g (register key ts oid cid side q) = search named_rules depth 14
plan-Named g (apply key fid oid side q p f sp sl ts) =
    search (named_rules, choose_fill-Named) depth 14
plan-Named g (terminate ending key ts oid why) = search named_rules depth 14
plan-Named g (reconcile observed key ts tol) = search named_rules depth 14
plan-Named g (resolve key ts ref why) = search named_rules depth 14

module _ (h : Hashing) where
  carry_out-Ran :
      (m : Outcome EngineError Plan) (a : Append) (g : Engine) (d : Disk)
      → Named m
      → Ran h g d (carry_out h m a g d)
  carry_out-Ran (err e) a g d n = refused e
  carry_out-Ran (ok (answer r)) a g d n = answered r
  carry_out-Ran (ok (record_it allow key event t)) a g d n =
      record_event-Ran h allow key event t a g d n.named

  -- Every call of a method ends in one of the four ways.
  pub call-Ran : (c : Command) (a : Append) (g : Engine) (d : Disk) → Ran h g d (call h c a g d)
  unfolding call
  call-Ran c a g d = carry_out-Ran (plan g.book c) a g d (plan-Named g.book c)
