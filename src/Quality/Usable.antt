-- ===== src/Quality/Usable.antt =====
-- What the execution model can do with quotes that passed the checks.
use auto_options_call_debit.Common.{some}
use auto_options_call_debit.Execution.{try_fill, PackageOrder, FillOutcome}
use auto_options_call_debit.Execution.Decided.{IsDecided, usable-IsDecided}
use auto_options_call_debit.Common.{ℕ, ◌≡◌, ◌≢◌, true, Option, arith}
use auto_options_call_debit.Common.Outcome.{ok}
use auto_options_call_debit.Domain.Quote.{usable_at, Quote}
use auto_options_call_debit.Quality.{validate_quote, validate_pair}

quote_usable :
    (snapshot_age event_age : Option ℕ) (q : Quote) (t : ℕ)
    → validate_quote snapshot_age event_age q t ≡ ok tt
    → usable_at q t ≡ true
unfolding validate_quote
quote_usable snapshot_age event_age q t h = ground arith

pair_checks :
    (snapshot_age event_age : Option ℕ) (s l : Quote) (t : ℕ)
    → validate_pair snapshot_age event_age s l t ≡ ok tt
    → (validate_quote snapshot_age event_age s t ≡ ok tt)
      × (validate_quote snapshot_age event_age l t ≡ ok tt)
      × (s.contract_id ≢ l.contract_id)
      × (s.snapshot_at_utc ≡ l.snapshot_at_utc)
unfolding validate_pair
pair_checks snapshot_age event_age s l t h = ground arith

-- Quotes that pass the checks at an order's minute never stop its attempt: the order fills, or stays
-- unfilled for its limit or for the sizes.
pub checked-IsDecided :
    (snapshot_age event_age : Option ℕ) (o : PackageOrder) (s l : Quote)
    → validate_pair snapshot_age event_age s l o.first_eligible_at_utc ≡ ok tt
    → (f : FillOutcome) × (try_fill o (some s) (some l) o.first_eligible_at_utc ≡ ok f)
      × IsDecided f
checked-IsDecided snapshot_age event_age o s l h =
    let (hs, hl, apart, same) = pair_checks snapshot_age event_age s l o.first_eligible_at_utc h in
    usable-IsDecided o s l apart same
      (quote_usable snapshot_age event_age s o.first_eligible_at_utc hs)
      (quote_usable snapshot_age event_age l o.first_eligible_at_utc hl)
