-- ===== src/Settlement/Tests.antt =====
-- The payoff of one spread.
use auto_options_call_debit.Common.{pos, ◌≤ℤ◌, ◌≡◌, refl, none}
use auto_options_call_debit.Common.Outcome.{domain_error, err}
use auto_options_call_debit.Domain.Contract.{bull_put_credit}
use auto_options_call_debit.Domain.Tests.{bull_put, bull_put-IsVertical}
use auto_options_call_debit.Settlement.{
  expiration_liability_points, max_expiration_liability_points, require_settlement_value,
}
use auto_options_call_debit.Settlement.Bounds.{liability_bounds, Regions, liability-Regions}

-- Two points into the money: 2 of the 5 points are owed.
between : expiration_liability_points bull_put (pos 4998000000) ≡ pos 2000000
unfolding expiration_liability_points
between = refl

missing_value : require_settlement_value none ≡ err (domain_error "MISSING_SETTLEMENT_VALUE")
unfolding require_settlement_value
missing_value = refl

liability_bounds_example :
    (pos 0 ≤ℤ expiration_liability_points bull_put (pos 4998000000))
    × (expiration_liability_points bull_put (pos 4998000000)
        ≤ℤ max_expiration_liability_points bull_put)
liability_bounds_example = liability_bounds bull_put (pos 4998000000) bull_put-IsVertical

liability-Regions_example :
    Regions bull_put_credit
      (pos 5000000000)
      (pos 4995000000)
      (pos 4998000000)
      (expiration_liability_points bull_put (pos 4998000000))
liability-Regions_example = liability-Regions bull_put (pos 4998000000) bull_put-IsVertical
