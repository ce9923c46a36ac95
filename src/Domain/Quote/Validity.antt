-- ===== src/Domain/Quote/Validity.antt =====
-- What `Quote.__post_init__` establishes, and that it refuses nothing else.
use auto_options_call_debit.Common.{ℕ, pos, ◌≤ℤ◌, ◌≤◌, ◌≡◌, Option, none, some, arith, is_some}
use auto_options_call_debit.Common.Outcome.{ok}
use auto_options_call_debit.Domain.Money.{finite, Datetime, aware}
use auto_options_call_debit.Domain.Quote.{QuoteArgs, Quote, make_quote}

abbrev pub EventBefore : Option ℕ → ℕ → Type 0
EventBefore none snapshot = Unit {0}
EventBefore (some e) snapshot = e ≤ snapshot

-- A quote that is not crossed, has no negative size, and was available no earlier than its snapshot,
-- whose event time, if known, is no later than the snapshot.
pub record IsSound (q : Quote) : Type 0 where
  pub bid_nonneg : pos 0 ≤ℤ q.bid_points
  pub uncrossed : q.bid_points ≤ℤ q.ask_points
  pub bid_size_nonneg : pos 0 ≤ℤ q.bid_size_contracts
  pub ask_size_nonneg : pos 0 ≤ℤ q.ask_size_contracts
  pub available_after : q.snapshot_at_utc ≤ q.simulated_available_at_utc
  pub known_iff : q.quote_event_time_known ≡ is_some q.quote_event_at_utc
  pub event_before : EventBefore q.quote_event_at_utc q.snapshot_at_utc

-- The arguments that spell a given quote.
abbrev pub aware_or : Option ℕ → Option Datetime
aware_or none = none
aware_or (some t) = some (aware t)

abbrev pub args_of : Quote → QuoteArgs
args_of q = record {
  contract_id = q.contract_id;
  snapshot_at_utc = aware q.snapshot_at_utc;
  bid_points = finite q.bid_points;
  ask_points = finite q.ask_points;
  bid_size_contracts = q.bid_size_contracts;
  ask_size_contracts = q.ask_size_contracts;
  simulated_available_at_utc = aware q.simulated_available_at_utc;
  quote_event_time_known = q.quote_event_time_known;
  quality_flags = q.quality_flags;
  quote_event_at_utc = aware_or q.quote_event_at_utc;
}

-- Every quote that the constructor returns is sound.
make_quote-IsSound : (a : QuoteArgs) {q : Quote} → make_quote a ≡ ok q → IsSound q
unfolding make_quote
make_quote-IsSound a h = ground arith

-- Every sound quote is accepted, and comes back as it was spelt.
pub make_quote_complete : (q : Quote) → IsSound q → make_quote (args_of q) ≡ ok q
unfolding make_quote
make_quote_complete q s = ground arith
