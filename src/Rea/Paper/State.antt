-- ===== src/Rea/Paper/State.antt =====
-- `PaperState`: the checkpointed state, validated at every construction and every `replace`.
pub mod Laws
use sene_x.Common.{
  ℕ, String, Bool, true, false, not, ◌&&◌, ◌||◌, if◌then◌else◌, leb, ◌==◌, List, [], ◌∷◌, map,
  Option, none, some, length, all, any, Outcome, ok, err, ◌>>=◌, ◌>>◌, raise_if,
}
use sene_x.Common.Text.{text_eq, strip, is_blank, lower_codes, has_duplicates}
use sene_x.Rea.Decimal.{Decimal, zero_D, leb_D, ltb_D, eqb_D}
use sene_x.Rea.Contracts.{finite, any_sign, positive, non_negative}
use sene_x.Rea.Paper.Order.{
  PaperOrder, ResilienceError, bad_schema, bad_sha, basis_without_inventory, duplicate_order_ids,
  duplicate_fill_ids, blank_fill_id, fingerprint_mismatch, dec,
}

abbrev pub checkpoint_schema_version : ℕ
checkpoint_schema_version = 1

-- An SHA-256 as `_sha` leaves it: the code points of its stripped, lower-case text.
abbrev pub Digest : Type 0
Digest = List ℕ

abbrev pub is_hex : ℕ → Bool
is_hex c = (leb b'0' c && leb c b'9') || (leb b'a' c && leb c b'f')

-- 64 hexadecimal digits.
unfoldable pub is_sha256 : Digest → Bool
is_sha256 d = (length d == 64) && all is_hex d

-- `_sha`
unfoldable pub sha : String → Outcome ResilienceError Digest
unfolding is_sha256 lower_codes strip
sha text = let d = lower_codes (strip text) in do raise_if (not (is_sha256 d)) bad_sha; ok d

pub record PaperState : Type 0 where
  pub schema_version : ℕ
  pub source_sha256 : Digest
  pub config_sha256 : Digest
  pub starting_cash : Decimal
  pub cash : Decimal
  pub inventory_qty : Decimal
  pub inventory_cost_basis : Decimal
  pub realized_pnl : Decimal
  pub total_fees : Decimal
  pub total_spread_cost : Decimal
  pub total_slippage_cost : Decimal
  pub turnover : Decimal
  pub last_processed_timestamp : Option ℕ
  pub last_event_seq : ℕ
  pub orders : List PaperOrder
  pub processed_fill_ids : List String
  pub processed_fill_fingerprints : List (String × Digest)

abbrev pub order_ids : List PaperOrder → List String
order_ids = map (λ o. o.order_id)

abbrev pub client_ids : List PaperOrder → List String
client_ids = map (λ o. o.client_order_id)

-- `xs == ys` for two lists of texts.
unfoldable pub same_texts : List String → List String → Bool
same_texts [] [] = true
same_texts [] (y ∷ ys) = false
same_texts (x ∷ xs) [] = false
same_texts (x ∷ xs) (y ∷ ys) = text_eq x y && same_texts xs ys

abbrev pub fingerprint_ids : List (String × Digest) → List String
fingerprint_ids = map (λ p. p.0)

-- The amounts of the state that may not be negative, cash apart.
abbrev pub amounts : PaperState → List Decimal
amounts s =
    s.inventory_qty ∷ s.inventory_cost_basis ∷ s.total_fees ∷ s.total_spread_cost
    ∷ s.total_slippage_cost ∷ s.turnover ∷ []

-- The loop of `__post_init__` over the names of those amounts.
unfoldable pub check_amounts : List Decimal → Outcome ResilienceError (Unit {0})
unfolding dec
check_amounts [] = ok tt
check_amounts (x ∷ xs) = do y ← dec (finite x) non_negative; check_amounts xs

-- `PaperState.__post_init__`. The argument holds numbers, digests and timestamps in the form to
-- which `__post_init__` brings them.
unfoldable pub validate : PaperState → Outcome ResilienceError PaperState
unfolding dec check_amounts is_sha256
validate s = do
  raise_if (not (s.schema_version == checkpoint_schema_version)) bad_schema
  raise_if (not (is_sha256 s.source_sha256)) bad_sha
  raise_if (not (is_sha256 s.config_sha256)) bad_sha
  starting ← dec (finite s.starting_cash) positive
  cash ← dec (finite s.cash) non_negative
  check_amounts (amounts s)
  raise_if (eqb_D s.inventory_qty zero_D && not (eqb_D s.inventory_cost_basis zero_D))
      basis_without_inventory
  raise_if (has_duplicates (order_ids s.orders) || has_duplicates (client_ids s.orders))
      duplicate_order_ids
  raise_if (has_duplicates s.processed_fill_ids) duplicate_fill_ids
  raise_if (any is_blank s.processed_fill_ids) blank_fill_id
  raise_if (not (same_texts (fingerprint_ids s.processed_fill_fingerprints) s.processed_fill_ids))
      fingerprint_mismatch
  raise_if (not (all (λ p. is_sha256 p.1) s.processed_fill_fingerprints)) bad_sha
  ok s

-- The defaults of the fields of a `PaperState`.
abbrev pub fresh_state : Decimal → Digest → Digest → PaperState
fresh_state cash source config = record {
  schema_version = checkpoint_schema_version;
  source_sha256 = source;
  config_sha256 = config;
  starting_cash = cash;
  cash = cash;
  inventory_qty = zero_D;
  inventory_cost_basis = zero_D;
  realized_pnl = zero_D;
  total_fees = zero_D;
  total_spread_cost = zero_D;
  total_slippage_cost = zero_D;
  turnover = zero_D;
  last_processed_timestamp = none;
  last_event_seq = 0;
  orders = [];
  processed_fill_ids = [];
  processed_fill_fingerprints = [];
}

-- `PaperState.initial`
unfoldable pub initial : Decimal → Digest → Digest → Outcome ResilienceError PaperState
initial starting source config = do
  cash ← dec (finite starting) positive
  validate (fresh_state cash source config)
