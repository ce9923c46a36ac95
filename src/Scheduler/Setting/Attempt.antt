-- ===== src/Scheduler/Setting/Attempt.antt =====
-- The quotes that the scheduler finds for an order decide its attempt.
use auto_options_call_debit.Common.{ℤ, ◌⊎◌}
use auto_options_call_debit.Domain.State.{Order}
use auto_options_call_debit.Scheduler.{Engine}
use auto_options_call_debit.Scheduler.Market.{expire_order}
use auto_options_call_debit.Scheduler.Orders.{on_outcome}
use auto_options_call_debit.Scheduler.Setting.{market_of}
use auto_options_call_debit.Execution.{filled}
use auto_options_call_debit.Common.{ℕ, ◌≡◌, some}
use auto_options_call_debit.Common.Outcome.{Result, ok}
use auto_options_call_debit.Domain.Quote.{Quote}
use auto_options_call_debit.Domain.Contract.{CreditSpread}
use auto_options_call_debit.Quality.{validate_pair}
use auto_options_call_debit.Scheduler.Setting.{Setting}

-- The quotes of the two legs, in their order, which passed the checks.
abbrev pub AreChecked : Setting → CreditSpread → ℕ → Quote × Quote → Type 0
AreChecked g spread t (s, l) =
    (s.contract_id ≡ spread.short.contract_id)
    × (l.contract_id ≡ spread.long.contract_id)
    × (validate_pair g.quote_age g.event_age s l t ≡ ok tt)

module _ (g : Setting) (o : Order) where
  -- The order expires, or the checks of a fill begin: its price increment, its credit and its risk.
  abbrev pub Resolves : Engine → Result (Unit {0}) × Engine → Type 0
  Resolves e after =
      (after ≡ expire_order (market_of g) o o.first_eligible_at_utc e)
      ⊎ ((price : ℤ) × (after
            ≡ on_outcome (market_of g) o o.first_eligible_at_utc filled (some price) e))
