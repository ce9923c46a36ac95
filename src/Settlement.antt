-- ===== src/Settlement.antt =====
-- What a spread owes at expiration (engine/settlement.py).
pub mod Bounds
mod Tests
use auto_options_call_debit.Common.{
  ℤ, pos, ltb_ℤ, ◌-ℤ◌, ◌*ℤ◌, max_ℤ, Option, none, some, if◌then◌else◌,
}
use auto_options_call_debit.Common.Outcome.{Result, domain_error, ok, err}
use auto_options_call_debit.Domain.Money.{Decimal, finite, special}
use auto_options_call_debit.Domain.Contract.{
  width_points, spread_multiplier, Direction, CreditSpread, bull_put_credit, bear_call_credit,
}

owed : Direction → ℤ → ℤ → ℤ → ℤ
owed bull_put_credit ks kl s = max_ℤ (ks -ℤ s) (pos 0) -ℤ max_ℤ (kl -ℤ s) (pos 0)
owed bear_call_credit ks kl s = max_ℤ (s -ℤ ks) (pos 0) -ℤ max_ℤ (s -ℤ kl) (pos 0)

unfoldable pub expiration_liability_points : CreditSpread → ℤ → ℤ
unfolding owed max_ℤ ◌-ℤ◌
expiration_liability_points p s = owed p.direction p.short.strike_points p.long.strike_points s

unfoldable pub expiration_liability_usd : CreditSpread → ℤ → ℤ
unfolding expiration_liability_points ◌*ℤ◌
expiration_liability_usd p s = expiration_liability_points p s *ℤ spread_multiplier p

unfoldable pub max_expiration_liability_points : CreditSpread → ℤ
unfolding width_points
max_expiration_liability_points p = width_points p

unfoldable pub require_settlement_value : Option Decimal → Result ℤ
require_settlement_value none = err (domain_error "MISSING_SETTLEMENT_VALUE")
require_settlement_value (some special) = err (domain_error "NEGATIVE_SETTLEMENT_VALUE")
require_settlement_value (some (finite v)) =
    if ltb_ℤ v (pos 0) then err (domain_error "NEGATIVE_SETTLEMENT_VALUE") else ok v
