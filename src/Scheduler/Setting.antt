-- ===== src/Scheduler/Setting.antt =====
-- What the phases ask of the calendar and of the archive's quotes (engine/scheduler.py).
pub mod Attempt
mod Tests
use auto_options_call_debit.Common.{ℤ, ℕ, not, ◌&&◌, Option, none, some, List, text_append, ◌==◌}
use auto_options_call_debit.Common.Outcome.{
  ◌>>=◌, ◌>>◌, raise_if, Error, Result, domain_error, data_pause, err, ok,
}
use auto_options_call_debit.Domain.Quote.{Quote}
use auto_options_call_debit.Domain.Contract.{spread_expiration, CreditSpread}
use auto_options_call_debit.Domain.State.{Position}
use auto_options_call_debit.Quality.{validate_pair}
use auto_options_call_debit.Calendar.{session, close_utc, next_grid, SessionDay, Zone}
use auto_options_call_debit.Scheduler.Market.{SettlementRow, Market}

-- The profile's amounts and ages, and the archive's rows: a missing one, or what `quote_from_row` makes of
-- one, a quote or an exception.
pub record Setting : Type 0 where
  pub zone : Zone
  pub sessions : List SessionDay
  pub review_minutes : ℕ
  pub quote_row : ℕ → ℕ → Option (Result Quote)
  pub settlement_for : ℕ → Option SettlementRow
  pub quote_age : Option ℕ
  pub event_age : Option ℕ
  pub opening_fee : ℤ
  pub closing_fee : ℤ
  pub settlement_fee : ℤ
  pub max_risk : Option ℤ

-- `DataPause(f"INVALID_REQUIRED_QUOTE:{code}")`
invalid_quote : Error → Error
invalid_quote (domain_error code) = data_pause (text_append "INVALID_REQUIRED_QUOTE:" code)
invalid_quote x = data_pause "INVALID_REQUIRED_QUOTE:INVALID_QUOTE_VALUE"

as_pause : {A : Type 0} → Result A → Result A
unfolding invalid_quote
as_pause (ok a) = ok a
as_pause (err x) = err (invalid_quote x)

module _ (g : Setting) where
  -- `_last_trading_time`
  unfoldable pub last_trading_time : Position → Result ℕ
  last_trading_time p = elim p.spread.short.last_trading_at_utc [
    | some known ↦ ok known
    | none ↦ elim (session g.sessions (spread_expiration p.spread)) [
      | some s ↦ ok (close_utc g.zone s)
      | none ↦ err (data_pause "MISSING_EXPIRY_SESSION")
    ]
  ]

  -- The checks of the two quotes, and what the `except` branch makes of an exception
  checked_pair : CreditSpread → ℕ → Quote → Quote → Result (Quote × Quote)
  checked_pair spread t short long = do
    raise_if
        (not (
          (short.contract_id == spread.short.contract_id)
          && (long.contract_id == spread.long.contract_id)))
        (domain_error "QUOTE_CONTRACT_MISMATCH")
    validate_pair g.quote_age g.event_age short long t
    ok (short, long)

  both : CreditSpread → ℕ → Option (Result Quote) → Option (Result Quote) → Result (Quote × Quote)
  unfolding as_pause checked_pair
  both spread t (some short_row) (some long_row) =
      as_pause (short_row >>= λ short. long_row >>= λ long. checked_pair spread t short long)
  both spread t _ _ = err (data_pause "REQUIRED_QUOTE_MISSING")

  -- `_pair`
  unfoldable pub required_pair : CreditSpread → ℕ → Result (Quote × Quote)
  unfolding both
  required_pair spread t =
      both spread t (g.quote_row spread.short.contract_id t) (g.quote_row spread.long.contract_id t)

  -- A calendar gives a next review whenever the interval is positive.
  next_review : ℕ → ℕ
  next_review t = elim (next_grid g.zone g.sessions g.review_minutes t) [ ok n ↦ n | err x ↦ t ]

  -- The market of this setting.
  unfoldable pub market_of : Market
  unfolding next_review
  market_of = record {
    next_grid = next_review;
    ny_date = g.zone.date;
    last_trading = last_trading_time;
    pair = required_pair;
    settlement_for = g.settlement_for;
    opening_fee = g.opening_fee;
    closing_fee = g.closing_fee;
    settlement_fee = g.settlement_fee;
    max_risk = g.max_risk;
  }
