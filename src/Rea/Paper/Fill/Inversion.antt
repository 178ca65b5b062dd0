-- ===== src/Rea/Paper/Fill/Inversion.antt =====
-- What it takes for `apply_fill` to return, and what the returned state is.
use sene_x.Common.{
  ◌≡◌, ◌⊎◌, inl, inr, true, false, some, Outcome, ok, ◌>>=◌, Bool-cases, Option-cases, >>=-eq-ok,
  arith,
}
use sene_x.Common.Text.{mem_text}
use sene_x.Rea.Paper.Order.{PaperOrder, ResilienceError, remaining_qty, find_order}
use sene_x.Rea.Paper.Order.Laws.{order_of, new_order-eq}
use sene_x.Rea.Paper.State.{PaperState, Digest, validate}
use sene_x.Rea.Paper.State.Laws.{validate-eq}
use sene_x.Rea.Paper.Fill.{
  FillEvent, FillApplication, Booking, booking, filled_after, status_after, refilled, filled_state,
  check_fill, fresh_fill, apply_fill,
}

-- The order after a fill of some quantity.
abbrev pub order_after : PaperOrder → FillEvent → PaperOrder
order_after o e =
    order_of o.order_id o.client_order_id o.side o.requested_qty (filled_after o e)
      (status_after o e)

-- All that a fill which changed the state went through.
pub record Applied (digest : FillEvent → Digest) (s : PaperState) (e : FillEvent) (s' : PaperState)
    (r : FillApplication) : Type 0 where
  pub order : PaperOrder
  pub book : Booking
  pub unseen : mem_text e.fill_id s.processed_fill_ids ≡ false
  pub found : find_order e.order_id s.orders ≡ some order
  pub guarded : check_fill s e order ≡ ok tt
  pub booked : booking s e ≡ ok book
  pub rebuilt : refilled order e ≡ ok (order_after order e)
  pub result : s' ≡ filled_state digest s e (order_after order e) book
  pub accepted : validate s' ≡ ok s'
  pub report : r ≡ record {
    applied = true;
    duplicate = false;
    status = status_after order e;
    remaining = remaining_qty (order_after order e);
  }

module _ (digest : FillEvent → Digest) where
  pub fresh_fill-Applied :
      (s : PaperState) (e : FillEvent) (o : PaperOrder) (s' : PaperState) (r : FillApplication)
      → mem_text e.fill_id s.processed_fill_ids ≡ false
      → find_order e.order_id s.orders ≡ some o
      → fresh_fill digest s e o ≡ ok (s', r)
      → Applied digest s e s' r
  unfolding fresh_fill
  fresh_fill-Applied s e o s' r new hit h =
      let (u, guarded, h₁) =
        >>=-eq-ok (check_fill s e o) (λ _. booking s e >>= λ b. refilled o e >>= λ c. finish b c)
          h in
      let (b, booked, h₂) = >>=-eq-ok (booking s e) (λ b. refilled o e >>= λ c. finish b c) h₁ in
      let (c, rebuilt, h₃) = >>=-eq-ok (refilled o e) (finish b) h₂ in
      let same = new_order-eq _ _ _ _ _ _ c rebuilt in
      let (t, valid, h₄) = >>=-eq-ok (validate (filled_state digest s e c b)) (report c) h₃ in
      let t_eq = validate-eq (filled_state digest s e c b) t valid in
      record {
        order = o;
        book = b;
        unseen = new;
        found = hit;
        guarded = guarded;
        booked = booked;
        rebuilt = cc;
        result = cc;
        accepted = cc;
        report = cc;
      }
    where
      report : PaperOrder → PaperState → Outcome ResilienceError (PaperState × FillApplication)
      report c t = ok (
        t,
        record {
          applied = true;
          duplicate = false;
          status = status_after o e;
          remaining = remaining_qty c;
        },
      )

      finish : Booking → PaperOrder → Outcome ResilienceError (PaperState × FillApplication)
      finish b c = validate (filled_state digest s e c b) >>= report c

  -- A call that returns either replayed a known fill, leaving the state alone, or applied it.
  pub apply_fill_cases :
      (s : PaperState) (e : FillEvent) (s' : PaperState) (r : FillApplication)
      → apply_fill digest s e ≡ ok (s', r)
      → ((s' ≡ s) × (r.applied ≡ false)) ⊎ Applied digest s e s' r
  unfolding apply_fill
  apply_fill_cases s e s' r h = elim (Bool-cases (mem_text e.fill_id s.processed_fill_ids)) [
    | inl seen ↦ inl (ground arith, ground arith)
    | inr new ↦ elim (Option-cases (find_order e.order_id s.orders)) [
      | inl lost ↦ absurd (ground arith)
      | inr (o, hit) ↦ inr (fresh_fill-Applied s e o s' r new hit (rw (new, hit) at h))
    ]
  ]
