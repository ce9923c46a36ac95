-- ===== src/Domain/Tests.antt =====
-- Runs of the domain constructors, and the theorems at concrete inputs.
use auto_options_call_debit.Common.{
  pos, negsuc, ◌≤ℤ◌, ◌+ℤ◌, ℕ, ◌*◌, ◌≡◌, refl, true, none, some, [], arith,
}
use auto_options_call_debit.Common.Outcome.{domain_error, ok, err}
use auto_options_call_debit.Domain.Money.{require_aware, quantize, finite, aware}
use auto_options_call_debit.Domain.Money.Rounding.{IsCents, quantize_nearest}
use auto_options_call_debit.Domain.Contract.{
  positive_multiplier, positive_price, aware_or_none, make_contract, make_spread, width_points,
  ContractArgs, Contract, CreditSpread, put, bull_put_credit, int,
}
use auto_options_call_debit.Domain.Contract.Validity.{make_spread-IsVertical, IsVertical}
use auto_options_call_debit.Domain.Quote.{Quote}
use auto_options_call_debit.Domain.Quote.Validity.{IsSound}

-- 5000.00 puts, five points apart.
abbrev put_args : ℕ → ℕ → ContractArgs
put_args id strike = record {
  contract_id = id;
  root = "SPXW";
  right = put;
  strike_points = finite (pos (strike * 1000000));
  expiration_local_date = 739000;
  exercise_style = "EUROPEAN";
  settlement_style = "PM";
  multiplier = int (pos 100);
  price_increment = finite (pos 50000);
  listed_at_utc = some (aware 5);
  first_verified_observation_utc = none;
  last_trading_at_utc = none;
  settlement_event_at_utc = none;
  settlement_value_symbol = none;
}

abbrev pub put_contract : ℕ → ℕ → Contract
put_contract id strike = record {
  contract_id = id;
  root = "SPXW";
  right = put;
  strike_points = pos (strike * 1000000);
  expiration_local_date = 739000;
  exercise_style = "EUROPEAN";
  settlement_style = "PM";
  multiplier = 100;
  price_increment = pos 50000;
  listed_at_utc = some 5;
  first_verified_observation_utc = none;
  last_trading_at_utc = none;
  settlement_event_at_utc = none;
  settlement_value_symbol = none;
}

abbrev pub bull_put : CreditSpread
bull_put = record {
  short = put_contract 1 5000;
  long = put_contract 2 4995;
  direction = bull_put_credit;
}

contract_made : make_contract (put_args 1 5000) ≡ ok (put_contract 1 5000)
unfolding make_contract positive_multiplier positive_price aware_or_none require_aware
contract_made = refl

bad_root :
    make_contract (record (put_args 1 5000) { root = "NDX" })
    ≡ err (domain_error "UNSUPPORTED_ROOT")
unfolding make_contract positive_multiplier positive_price aware_or_none require_aware
bad_root = refl

pub spread_made :
    make_spread (put_contract 1 5000) (put_contract 2 4995) bull_put_credit ≡ ok bull_put
unfolding make_spread
spread_made = refl

legs_swapped :
    make_spread (put_contract 2 4995) (put_contract 1 5000) bull_put_credit
    ≡ err (domain_error "BAD_BULL_PUT_STRUCTURE")
unfolding make_spread
legs_swapped = refl

make_spread-IsVertical_example : IsVertical bull_put × (pos 1 ≤ℤ width_points bull_put)
make_spread-IsVertical_example =
    make_spread-IsVertical (put_contract 1 5000) (put_contract 2 4995) bull_put_credit spread_made

pub bull_put-IsVertical : IsVertical bull_put
bull_put-IsVertical =
    (make_spread-IsVertical (put_contract 1 5000) (put_contract 2 4995) bull_put_credit
      spread_made).0

-- A half cent rounds away from zero on both sides.
half_cent : (quantize (pos 15000) ≡ pos 20000) × (quantize (negsuc 14999) ≡ negsuc 19999)
unfolding quantize
half_cent = (refl, refl)

quantize_nearest_example :
    IsCents (quantize (negsuc 123455))
    × (quantize (negsuc 123455) ≤ℤ negsuc 123455 +ℤ pos 5000)
    × (negsuc 123455 ≤ℤ quantize (negsuc 123455) +ℤ pos 5000)
quantize_nearest_example = quantize_nearest (negsuc 123455)

abbrev pub quote : ℕ → ℕ → ℕ → Quote
quote id bid ask = record {
  contract_id = id;
  snapshot_at_utc = 60;
  bid_points = pos (bid * 10000);
  ask_points = pos (ask * 10000);
  bid_size_contracts = pos 10;
  ask_size_contracts = pos 12;
  simulated_available_at_utc = 61;
  quote_event_time_known = true;
  quality_flags = [];
  quote_event_at_utc = some 59;
}

quote-IsSound : IsSound (quote 1 250 260)
quote-IsSound = ground arith
