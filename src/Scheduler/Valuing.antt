-- ===== src/Scheduler/Valuing.antt =====
-- The valuation of the open positions (`_record_valuation` of engine/scheduler.py).
use auto_options_call_debit.Common.{
  ℤ, pos, ltb_ℤ, ◌+ℤ◌, ◌-ℤ◌, ◌*ℤ◌, Bool, true, false, ◌||◌, Option, none, some, List, [], ◌∷◌, leb,
  if◌then◌else◌,
}
use auto_options_call_debit.Common.Outcome.{◌>>=◌, ◌>>◌, raise_if, Result, data_pause, err, ok}
use auto_options_call_debit.Domain.Money.{quantize}
use auto_options_call_debit.Domain.Quote.{Quote}
use auto_options_call_debit.Domain.Contract.{spread_multiplier, CreditSpread}
use auto_options_call_debit.Domain.State.{Position}
use auto_options_call_debit.Ledger.Event.{EngineState}
use auto_options_call_debit.Scheduler.{Valuation}
use auto_options_call_debit.Scheduler.Market.{Market}
use auto_options_call_debit.Common.{ℕ}

-- The totals of the loop, and whether a position has no price.
pub record Sums : Type 0 where
  pub unknown : Bool
  pub liquidation : ℤ
  pub fees : ℤ

abbrev pub nothing_valued : Sums
nothing_valued = record { unknown = false; liquidation = pos 0; fees = pos 0 }

known_amount : Bool → ℤ → Option ℤ
known_amount unknown amount = if unknown then none else some (quantize amount)

unfoldable pub valuation_of : ℕ → Sums → EngineState → Valuation
unfolding known_amount
valuation_of t sums s = record {
  as_of = t;
  cash = s.account.cash;
  reserved = s.account.reserved;
  fees_paid = s.account.fees_paid;
  liquidation_liability = known_amount sums.unknown sums.liquidation;
  estimated_closing_fees = quantize sums.fees;
  net_liquidation_equity =
      known_amount sums.unknown (s.account.cash -ℤ sums.liquidation -ℤ sums.fees);
}

module _ (m : Market) where
  -- The quotes of a position, if their sizes are enough to close it
  liquid_pair : ℕ → CreditSpread → Result (Quote × Quote)
  liquid_pair t spread = do
    pair ← m.pair spread t
    raise_if
        (ltb_ℤ (pair.0).ask_size_contracts (pos 1) || ltb_ℤ (pair.1).bid_size_contracts (pos 1))
        (data_pause "POSITION_LIQUIDATION_SIZE_INADEQUATE")
    ok pair

  -- A position that has quotes is priced; a pause is an unknown amount where that is allowed.
  price_position : Bool → Position → Result (Quote × Quote) → Sums → Result Sums
  price_position allow_unknown p (ok (short, long)) sums = ok (record sums {
    liquidation =
        sums.liquidation +ℤ (short.ask_points -ℤ long.bid_points) *ℤ spread_multiplier p.spread;
    fees = sums.fees +ℤ quantize (m.closing_fee *ℤ 2);
  })
  price_position true p (err (data_pause code)) sums = ok (record sums { unknown = true })
  price_position allow_unknown p (err x) sums = err x

  -- One turn of the loop, and the loop
  value_position : ℕ → Bool → Position → Sums → Result Sums
  unfolding liquid_pair price_position
  value_position t allow_unknown p sums = do
    last ← m.last_trading p
    if leb last t
        then ok (record sums { unknown = true })
        else price_position allow_unknown p (liquid_pair t p.spread) sums

  unfoldable pub value_positions : ℕ → Bool → List Position → Sums → Result Sums
  unfolding value_position
  value_positions t allow_unknown [] sums = ok sums
  value_positions t allow_unknown (p ∷ ps) sums =
      value_position t allow_unknown p sums >>= λ next. value_positions t allow_unknown ps next
