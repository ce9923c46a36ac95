-- ===== src/Quality.antt =====
-- The checks of market data before menus and fills (data/validation.py). Times are in microseconds and
-- ages in seconds.
pub mod Usable
mod Tests
use auto_options_call_debit.Common.{
  ℕ, ◌-◌, ◌*◌, String, Bool, true, false, not, ◌&&◌, ◌||◌, Option, none, some, List, [], ◌∷◌,
  str_eq, ltb, ◌==◌,
}
use auto_options_call_debit.Common.Outcome.{◌>>=◌, ◌>>◌, raise_if, Result, domain_error}
use auto_options_call_debit.Domain.Quote.{usable_at, Quote}

allowed_flag : String → Bool
allowed_flag flag =
    str_eq flag "SYNTHETIC" || (str_eq flag "UNKNOWN_EVENT_AGE" || str_eq flag "SNAPSHOT_ONLY")

-- `not set(flags) - allowed`
unfoldable pub allowed_flags : List String → Bool
unfolding allowed_flag
allowed_flags [] = true
allowed_flags (flag ∷ flags) = allowed_flag flag && allowed_flags flags

-- `maximum is not None and (as_of - t).total_seconds() > maximum`, at a time up to `as_of`
older_than : Option ℕ → ℕ → ℕ → Bool
older_than none as_of t = false
older_than (some maximum) as_of t = ltb (maximum * 1000000) (as_of - t)

event_older : Option ℕ → ℕ → Option ℕ → Bool
unfolding older_than
event_older maximum as_of none = false
event_older maximum as_of (some t) = older_than maximum as_of t

-- `validate_quote`: the limits are of the snapshot's age and of the event's age.
unfoldable pub validate_quote : Option ℕ → Option ℕ → Quote → ℕ → Result (Unit {0})
unfolding older_than event_older
validate_quote snapshot_age event_age q as_of = do
  raise_if (ltb as_of q.snapshot_at_utc || not (usable_at q as_of))
      (domain_error "QUOTE_NOT_AVAILABLE")
  raise_if (not (allowed_flags q.quality_flags)) (domain_error "QUOTE_QUALITY_FLAG")
  raise_if (older_than snapshot_age as_of q.snapshot_at_utc) (domain_error "STALE_SNAPSHOT")
  raise_if (event_older event_age as_of q.quote_event_at_utc) (domain_error "STALE_QUOTE_EVENT")

-- `validate_pair`
unfoldable pub validate_pair : Option ℕ → Option ℕ → Quote → Quote → ℕ → Result (Unit {0})
validate_pair snapshot_age event_age short long as_of = do
  validate_quote snapshot_age event_age short as_of
  validate_quote snapshot_age event_age long as_of
  raise_if (short.contract_id == long.contract_id) (domain_error "SAME_LEG_QUOTES")
  raise_if (not (short.snapshot_at_utc == long.snapshot_at_utc))
      (domain_error "MISMATCHED_QUOTE_SNAPSHOT")
