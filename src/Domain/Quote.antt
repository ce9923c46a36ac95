-- ===== src/Domain/Quote.antt =====
-- One-minute quote snapshots (domain/types.py).
pub mod Validity
use auto_options_call_debit.Common.{
  ℕ, ℤ, pos, ltb_ℤ, String, Bool, ◌||◌, Option, none, some, List, ltb, leb, is_some, bool_ne,
}
use auto_options_call_debit.Common.Outcome.{Result, ok, err, domain_error, ◌>>=◌, ◌>>◌, raise_if}
use auto_options_call_debit.Domain.Money.{Decimal, finite, special, Datetime, require_aware}

-- The arguments of `Quote(...)`.
pub record QuoteArgs : Type 0 where
  pub contract_id : ℕ
  pub snapshot_at_utc : Datetime
  pub bid_points : Decimal
  pub ask_points : Decimal
  pub bid_size_contracts : ℤ
  pub ask_size_contracts : ℤ
  pub simulated_available_at_utc : Datetime
  pub quote_event_time_known : Bool
  pub quality_flags : List String
  pub quote_event_at_utc : Option Datetime

pub record Quote : Type 0 where
  pub contract_id : ℕ
  pub snapshot_at_utc : ℕ
  pub bid_points : ℤ
  pub ask_points : ℤ
  pub bid_size_contracts : ℤ
  pub ask_size_contracts : ℤ
  pub simulated_available_at_utc : ℕ
  pub quote_event_time_known : Bool
  pub quality_flags : List String
  pub quote_event_at_utc : Option ℕ

finite_price : Decimal → Result ℤ
finite_price (finite v) = ok v
finite_price special = err (domain_error "NONFINITE_PRICE")

event_time : Option Datetime → ℕ → Result (Option ℕ)
unfolding require_aware
event_time none snapshot = ok none
event_time (some d) snapshot = do
  t ← require_aware d
  raise_if (ltb snapshot t) (domain_error "QUOTE_EVENT_AFTER_SNAPSHOT")
  ok (some t)

-- `Quote.__post_init__`
unfoldable pub make_quote : QuoteArgs → Result Quote
unfolding finite_price event_time require_aware
make_quote a = do
  snapshot ← require_aware a.snapshot_at_utc
  available ← require_aware a.simulated_available_at_utc
  bid ← finite_price a.bid_points
  ask ← finite_price a.ask_points
  raise_if (ltb_ℤ bid (pos 0) || ltb_ℤ ask (pos 0)) (domain_error "NEGATIVE_PRICE")
  raise_if (ltb_ℤ ask bid) (domain_error "CROSSED_QUOTE")
  raise_if (ltb_ℤ a.bid_size_contracts (pos 0) || ltb_ℤ a.ask_size_contracts (pos 0))
      (domain_error "NEGATIVE_SIZE")
  raise_if (ltb available snapshot) (domain_error "AVAILABILITY_BEFORE_SNAPSHOT")
  raise_if (bool_ne a.quote_event_time_known (is_some a.quote_event_at_utc))
      (domain_error "INCONSISTENT_QUOTE_EVENT_TIME")
  event ← event_time a.quote_event_at_utc snapshot
  ok (record {
    contract_id = a.contract_id;
    snapshot_at_utc = snapshot;
    bid_points = bid;
    ask_points = ask;
    bid_size_contracts = a.bid_size_contracts;
    ask_size_contracts = a.ask_size_contracts;
    simulated_available_at_utc = available;
    quote_event_time_known = a.quote_event_time_known;
    quality_flags = a.quality_flags;
    quote_event_at_utc = event;
  })

-- `Quote.usable_at`, at an aware time
abbrev pub usable_at : Quote → ℕ → Bool
usable_at q t = leb q.simulated_available_at_utc t
