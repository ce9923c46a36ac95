-- ===== src/Execution/Tests.antt =====
-- Attempts to fill one order.
use auto_options_call_debit.Common.{pos, ◌-ℤ◌, ◌≡◌, refl, none, some}
use auto_options_call_debit.Common.Outcome.{ok}
use auto_options_call_debit.Domain.Quote.{Quote}
use auto_options_call_debit.Domain.Tests.{quote}
use auto_options_call_debit.Execution.{
  no_fill, try_fill, PackageOrder, FillOutcome, open_package, filled, quote_missing,
}
use auto_options_call_debit.Execution.Fills.{fill_of, fill_iff, CanFill}

abbrev order : PackageOrder
order = record {
  order_id = 7;
  intent = open_package;
  limit_points = pos 1200000;
  submitted_at_utc = 40;
  first_eligible_at_utc = 100;
}

filled_at_natural :
    try_fill order (some (quote 1 250 260)) (some (quote 2 110 120)) 100
    ≡ ok (record {
      status = filled;
      package_price_points = some (pos 1300000);
      fill_at_utc = some 100;
    })
unfolding try_fill ◌-ℤ◌
filled_at_natural = refl

missing : try_fill order none (some (quote 2 110 120)) 100 ≡ ok (no_fill quote_missing)
unfolding try_fill
missing = refl

fill_iff_example :
    ((f : FillOutcome)
      → try_fill order (some (quote 1 250 260)) (some (quote 2 110 120)) 100 ≡ ok f
      → f.status ≡ filled
      → (a : Quote) × (b : Quote) × (some (quote 1 250 260) ≡ some a)
        × (some (quote 2 110 120) ≡ some b)
        × CanFill order a b 100
        × (f ≡ fill_of order a b 100))
    × ((a b : Quote)
        → some (quote 1 250 260) ≡ some a
        → some (quote 2 110 120) ≡ some b
        → CanFill order a b 100
        → try_fill order (some (quote 1 250 260)) (some (quote 2 110 120)) 100
          ≡ ok (fill_of order a b 100))
fill_iff_example = fill_iff order (some (quote 1 250 260)) (some (quote 2 110 120)) 100
