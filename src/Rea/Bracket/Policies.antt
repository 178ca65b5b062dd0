-- ===== src/Rea/Bracket/Policies.antt =====
-- What the choice of a policy changes.
use sene_x.Common.{
  ◌≡◌, refl, sym, ap, ◌∙◌, ◌⊎◌, inl, inr, true, false, Option, none, some, ok, ◌>>=◌, ◌>>◌,
  raise_if, >>=-eq-ok, Bool-cases, arith,
}
use sene_x.Rea.Decimal.{Decimal, leb_D}
use sene_x.Rea.Decimal.Order.{leb_refl, leb_total}
use sene_x.Rea.Contracts.{Value, positive, Candle}
use sene_x.Rea.Paper.Order.{stop_not_below_target, dec}
use sene_x.Rea.Bracket.{
  IntrabarPolicy, worst_case_stop_first, best_case_target_first, reject_ambiguous, Trigger,
  IntrabarDecision, decision, choose, decide, resolve_long_bracket,
}

-- Two decisions that differ in no more than the policy that they name.
record SameFill (q : IntrabarPolicy) (d e : IntrabarDecision) : Type 0 where
  pub other : e ≡ record d { resolution_policy = q }
  pub price : d.fill_price ≡ e.fill_price
  pub unambiguous : d.ambiguous ≡ false

-- How a fill price compares: no price is below only no price.
abbrev pub PriceBelow : Option Decimal → Option Decimal → Type 0
PriceBelow (some p) (some q) = leb_D p q ≡ true
PriceBelow none none = Unit {0}
PriceBelow _ _ = ⊥

same_fill :
    (c : Candle) (p q : IntrabarPolicy) (t : Trigger) (x : Option Decimal)
    → SameFill q (decision c p t x false) (decision c q t x false)
same_fill c p q t x = record { other = refl; price = refl; unambiguous = refl }

-- Either the policy makes no difference, or the candle's range holds both prices.
decide_policies :
    (c : Candle) (stop target : Decimal) (p q : IntrabarPolicy)
    → SameFill q (decide c stop target p) (decide c stop target q)
      ⊎ ((decide c stop target p ≡ choose c stop target p)
          × (decide c stop target q ≡ choose c stop target q))
unfolding decide
decide_policies c stop target p q = elim (Bool-cases (leb_D c.opening stop)) [
  | inl gap_down ↦ rw gap_down (inl (same_fill c p q _ _))
  | inr a ↦ elim (Bool-cases (leb_D target c.opening)) [
    | inl gap_up ↦ rw (a, gap_up) (inl (same_fill c p q _ _))
    | inr b ↦ elim (Bool-cases (leb_D c.low stop)) [
      | inl low ↦ elim (Bool-cases (leb_D target c.high)) [
        | inl high ↦ rw (a, b, low, high) (inr (refl, refl))
        | inr below ↦ rw (a, b, low, below) (inl (same_fill c p q _ _))
      ]
      | inr above ↦ elim (Bool-cases (leb_D target c.high)) [
        | inl high ↦ rw (a, b, above, high) (inl (same_fill c p q _ _))
        | inr below ↦ rw (a, b, above, below) (inl (same_fill c p q _ _))
      ]
    ]
  ]
]

PriceBelow-refl : (x : Option Decimal) → PriceBelow x x
PriceBelow-refl none = tt
PriceBelow-refl (some x) = leb_refl x

decide_ordered :
    (c : Candle) (stop target : Decimal)
    → leb_D target stop ≡ false
    → PriceBelow
        (decide c stop target worst_case_stop_first).fill_price
        (decide c stop target best_case_target_first).fill_price
decide_ordered c stop target apart =
    elim (decide_policies c stop target worst_case_stop_first best_case_target_first) [
      | inl same ↦ rw same.price (PriceBelow-refl _)
      | inr (worst, best) ↦ rw (worst, best) (leb_total stop target apart)
    ]

decided :
    (c : Candle) (stop_price target_price : Value) (policy : IntrabarPolicy) (d : IntrabarDecision)
    → resolve_long_bracket c stop_price target_price policy ≡ ok d
    → (stop target : Decimal) × (dec stop_price positive ≡ ok stop)
      × (dec target_price positive ≡ ok target)
      × (leb_D target stop ≡ false)
      × (d ≡ decide c stop target policy)
unfolding resolve_long_bracket
decided c stop_price target_price policy d e =
    let (stop, first, e₁) =
      >>=-eq-ok (dec stop_price positive)
        (λ stop. dec target_price positive >>= λ target.
          raise_if (leb_D target stop) stop_not_below_target >> ok (decide c stop target policy))
        e in
    let (target, second, e₂) =
      >>=-eq-ok (dec target_price positive)
        (λ target.
          raise_if (leb_D target stop) stop_not_below_target >> ok (decide c stop target policy))
        e₁ in
    (stop, target, first, second, ground arith, ground arith)

-- On the same candle and prices, stop-first never fills at a higher price than target-first, and
-- the one fills exactly when the other does.
pub worst_case_below :
    (c : Candle) (stop_price target_price : Value) (d e : IntrabarDecision)
    → resolve_long_bracket c stop_price target_price worst_case_stop_first ≡ ok d
    → resolve_long_bracket c stop_price target_price best_case_target_first ≡ ok e
    → PriceBelow d.fill_price e.fill_price
worst_case_below c stop_price target_price d e h k =
    let (stop, target, first, second, apart, worst) =
      decided c stop_price target_price worst_case_stop_first d h in
    let (stop', target', first', second', apart', best) =
      decided c stop_price target_price best_case_target_first e k in
    let stop_eq : stop' ≡ stop = cc in
    let target_eq : target' ≡ target = cc in
    rw (worst, best, stop_eq, target_eq) (decide_ordered c stop target apart)

both_hit :
    (c : Candle) (stop target : Decimal) (p : IntrabarPolicy)
    → ¬ ((choose c stop target p).ambiguous ≡ false)
both_hit c stop target worst_case_stop_first e = cc
both_hit c stop target best_case_target_first e = cc
both_hit c stop target reject_ambiguous e = cc

resolved :
    (c : Candle) (stop_price target_price : Value) (q : IntrabarPolicy) (stop target : Decimal)
    → dec stop_price positive ≡ ok stop
    → dec target_price positive ≡ ok target
    → leb_D target stop ≡ false
    → resolve_long_bracket c stop_price target_price q ≡ ok (decide c stop target q)
unfolding resolve_long_bracket
resolved c stop_price target_price q stop target first second apart = rw (first, second, apart)

-- A decision that is not marked as ambiguous is the one of every policy: only the policy that it
-- names changes.
pub policies_agree :
    (c : Candle) (stop_price target_price : Value) (p q : IntrabarPolicy) (d : IntrabarDecision)
    → resolve_long_bracket c stop_price target_price p ≡ ok d
    → d.ambiguous ≡ false
    → resolve_long_bracket c stop_price target_price q ≡ ok (record d { resolution_policy = q })
policies_agree c stop_price target_price p q d h clear =
    let (stop, target, first, second, apart, same) = decided c stop_price target_price p d h in
    let marked : (decide c stop target p).ambiguous ≡ false =
      sym (ap (λ (x : IntrabarDecision). x.ambiguous) same) ∙ clear in
    elim (decide_policies c stop target p q) [
      | inl agree ↦
          resolved c stop_price target_price q stop target first second apart
          ∙ ap ok (
              agree.other
              ∙ ap (λ (x : IntrabarDecision). record x { resolution_policy = q }) (sym same))
      | inr (mine, _) ↦ absurd (
          both_hit c stop target p (sym (ap (λ (x : IntrabarDecision). x.ambiguous) mine) ∙ marked))
    ]
