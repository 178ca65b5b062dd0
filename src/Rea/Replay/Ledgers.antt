-- ===== src/Rea/Replay/Ledgers.antt =====
-- The ledger throughout a replay.
use sene_x.Common.{
  ℕ, ◌+◌, ◌-◌, ◌≡◌, refl, ◌∙◌, inl, inr, List, [], ◌∷◌, Option, none, some, Outcome, ok, err, ◌>>=◌,
  map_err, leb, >>=-eq-ok, Bool-cases, Option-cases, arith,
}
use sene_x.Rea.Decimal.{Decimal, ◌*D◌, ◌/D◌}
use sene_x.Rea.Contracts.{
  Value, finite, Candle, IntentSide, buying, selling, CancelIntent, CostProfile, PortfolioSnapshot,
  PendingOrder,
}
use sene_x.Rea.Accounting.{LedgerError, LedgerOperation, Ledger, new_ledger, snapshot}
use sene_x.Rea.Accounting.Solvency.{IsSolvent, buy-IsSolvent, sell-IsSolvent, new_ledger-IsSolvent}
use sene_x.Rea.Replay.{
  ReplayError, ledger, ReplayConfig, validate_inputs, bps_denominator, Fill, market_costs, trade_on,
  execute_fill, fill_price, Run, is_expired, book_fill, wait_on, visit, visit_all, mark, Intent,
  order_intent, cancel_intent, cancel, Strategy, take_intents, answered, fill_bar, bar, bars,
  first_run, run,
}

trade_on-IsSolvent :
    (side : IntentSide) (l : Ledger) (q p f sp sl : Value) (l' : Ledger) (o : LedgerOperation)
    → IsSolvent l
    → trade_on side l q p f sp sl ≡ ok (l', o)
    → IsSolvent l'
trade_on-IsSolvent buying l q p f sp sl l' o s h = buy-IsSolvent l q p f sp sl l' o s h
trade_on-IsSolvent selling l q p f sp sl l' o s h = sell-IsSolvent l q p f sp sl l' o s h

execute_fill-IsSolvent :
    (o : PendingOrder) (c : Candle) (price : Decimal) (l : Ledger) (costs : CostProfile)
    (l' : Ledger) (f : Fill)
    → IsSolvent l
    → execute_fill o c price l costs ≡ ok (l', f)
    → IsSolvent l'
unfolding execute_fill
execute_fill-IsSolvent o c price l costs l' f s h =
    let notional = o.quantity *D price in
    let extra = market_costs o.order_type notional costs in
    let (done, booked, h₁) =
      >>=-eq-ok
        (trade_on o.side l (finite o.quantity) (finite price)
          (finite (notional *D costs.fee_bps /D bps_denominator)) (finite extra.0) (finite extra.1))
        wrap h in
    let same : l' ≡ done.0 = ground arith in
    rw same (trade_on-IsSolvent o.side l _ _ _ _ _ done.0 done.1 s booked)
  where
    wrap : Ledger × LedgerOperation → Outcome LedgerError (Ledger × Fill)
    wrap done = ok (done.0, record { order = o; timestamp = c.timestamp; operation = done.1 })

book_fill-IsSolvent :
    (o : PendingOrder) (c : Candle) (r : Run) (m : Outcome LedgerError (Ledger × Fill))
    → IsSolvent r.ledger
    → ((l : Ledger) (f : Fill) → m ≡ ok (l, f) → IsSolvent l)
    → IsSolvent (book_fill o c r m).ledger
book_fill-IsSolvent o c r (ok (l, f)) s each = each l f refl
book_fill-IsSolvent o c r (err e) s each = s

wait_on-ledger :
    (index : ℕ) (c : Candle) (o : PendingOrder) (r : Run) → (wait_on index c o r).ledger ≡ r.ledger
wait_on-ledger index c o r =
    elim (Bool-cases (is_expired o.expires_after_bars (index - o.submitted_index))) [
      | inl over ↦ rw over
      | inr waiting ↦ rw waiting
    ]

visit-IsSolvent :
    (costs : CostProfile) (index : ℕ) (c : Candle) (o : PendingOrder) (r : Run)
    → IsSolvent r.ledger
    → IsSolvent (visit costs index c o r).ledger
unfolding visit
visit-IsSolvent costs index c o r s = elim (Bool-cases (leb index o.submitted_index)) [
  | inl early ↦ rw early s
  | inr late ↦ elim (Option-cases (fill_price o c)) [
    | inl untouched ↦ rw (late, untouched, wait_on-ledger index c o r) s
    | inr (price, hit) ↦
        rw (late, hit)
          (book_fill-IsSolvent o c r (execute_fill o c price r.ledger costs) s
            (λ l f. execute_fill-IsSolvent o c price r.ledger costs l f s))
  ]
]

visit_all-IsSolvent :
    (costs : CostProfile) (index : ℕ) (c : Candle) (os : List PendingOrder) (r : Run)
    → IsSolvent r.ledger
    → IsSolvent (visit_all costs index c os r).ledger
unfolding visit_all
visit_all-IsSolvent costs index c [] r s = s
visit_all-IsSolvent costs index c (o ∷ os) r s =
    visit_all-IsSolvent costs index c os _ (visit-IsSolvent costs index c o r s)

cancel-ledger :
    (c : Candle) (i : CancelIntent) (o : Option PendingOrder) (r : Run)
    → (cancel c i o r).ledger ≡ r.ledger
cancel-ledger c i none r = refl
cancel-ledger c i (some o) r = refl

module _ {S : Type 0} (strategy : Strategy S) (config : ReplayConfig) where
  take_intents-ledger :
      (index : ℕ) (c : Candle) (is : List Intent) (r : Run)
      → (take_intents strategy config index c is r).ledger ≡ r.ledger
  unfolding take_intents
  take_intents-ledger index c [] r = refl
  take_intents-ledger index c (cancel_intent i ∷ is) r =
      take_intents-ledger index c is _ ∙ cancel-ledger c i _ r
  take_intents-ledger index c (order_intent i ∷ is) r = take_intents-ledger index c is _

  answered-IsSolvent :
      (index : ℕ) (c : Candle) (r : Run) (m : Option (S × List Intent)) (s' : S) (r' : Run)
      → IsSolvent r.ledger
      → answered strategy config index c r m ≡ ok (s', r')
      → IsSolvent r'.ledger
  answered-IsSolvent index c r none s' r' good h = absurd (ground arith)
  answered-IsSolvent index c r (some (s, is)) s' r' good h =
      let same : r' ≡ take_intents strategy config index c is r = ground arith in
      rw (same, take_intents-ledger index c is r) good

  bar-IsSolvent :
      (index : ℕ) (c : Candle) (s : S) (r : Run) (next : S × Run)
      → IsSolvent r.ledger
      → bar strategy config index c s r ≡ ok next
      → IsSolvent next.1.ledger
  unfolding bar
  bar-IsSolvent index c s r next good h =
      let filled = fill_bar strategy config index c r in
      let after = λ (view : PortfolioSnapshot).
        answered strategy config index c (mark c view filled)
          (strategy.on_candle s c view (mark c view filled).pending) in
      let (view, seen, h₁) =
        >>=-eq-ok (map_err ledger (snapshot filled.ledger (finite c.close))) after h in
      answered-IsSolvent index c (mark c view filled) _ next.0 next.1
        (visit_all-IsSolvent config.costs index c r.pending (record r { pending = [] }) good) h₁

  bars-IsSolvent :
      (index : ℕ) (cs : List Candle) (s : S) (r : Run) (end : S × Run)
      → IsSolvent r.ledger
      → bars strategy config index cs s r ≡ ok end
      → IsSolvent end.1.ledger
  unfolding bars
  bars-IsSolvent index [] s r end good h = let same : (s, r) ≡ end = cc in rw (← same) good
  bars-IsSolvent index (c ∷ cs) s r end good h =
      let (next, first, rest) =
        >>=-eq-ok (bar strategy config index c s r)
          (λ next. bars strategy config (index + 1) cs next.0 next.1) h in
      bars-IsSolvent (index + 1) cs next.0 next.1 end (bar-IsSolvent index c s r next good first)
        rest

  -- Whatever the strategy does, a replay that returns ends with a ledger that owes nothing and has
  -- sold nothing short.
  pub run-IsSolvent :
      (candles : List Candle) (s : S) (r : Run)
      → run strategy config candles s ≡ ok r
      → IsSolvent r.ledger
  unfolding run
  run-IsSolvent candles s r h =
      let (u, valid, h₁) = >>=-eq-ok (validate_inputs candles) (λ _. opened >>= walk) h in
      let (l, fresh, h₂) = >>=-eq-ok opened walk h₁ in
      let (end, walked, h₃) =
        >>=-eq-ok (bars strategy config 0 candles s (first_run strategy config l)) last h₂ in
      let same : r ≡ end.1 = cc in
      rw same (
        bars-IsSolvent 0 candles s (first_run strategy config l) end (opened-IsSolvent l fresh)
          walked)
    where
      opened : Outcome ReplayError Ledger
      opened = map_err ledger (
          new_ledger (finite config.starting_cash) (finite config.max_inventory)
            (finite config.max_fill_qty))

      last : S × Run → Outcome ReplayError Run
      last end = ok end.1

      walk : Ledger → Outcome ReplayError Run
      walk l = bars strategy config 0 candles s (first_run strategy config l) >>= last

      opened-IsSolvent : (l : Ledger) → opened ≡ ok l → IsSolvent l
      opened-IsSolvent l fresh =
          new_ledger-IsSolvent (finite config.starting_cash) (finite config.max_inventory)
            (finite config.max_fill_qty) l (ground arith)
