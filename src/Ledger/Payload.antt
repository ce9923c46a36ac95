-- ===== src/Ledger/Payload.antt =====
-- The fields of a spread that an event has, and the spread that is built of them (engine/ledger.py).
use auto_options_call_debit.Common.{ℤ, pos, ℕ, String, Option, none, some}
use auto_options_call_debit.Common.Outcome.{◌>>=◌, Result}
use auto_options_call_debit.Domain.Money.{Datetime, finite, aware}
use auto_options_call_debit.Domain.Contract.{
  make_contract, make_spread, Right, Direction, Contract, CreditSpread, int,
}

-- The fields that `contract_payload` writes: the times of the listing are not among them. The program
-- writes amounts, times and enumerations as texts; here a payload has the values that the texts denote,
-- and neither the writing of a text nor the reading of one is modelled.
pub record ContractPayload : Type 0 where
  pub contract_id : ℕ
  pub root : String
  pub right : Right
  pub strike_points : ℤ
  pub expiration_local_date : ℕ
  pub exercise_style : String
  pub settlement_style : String
  pub multiplier : ℕ
  pub price_increment : ℤ
  pub last_trading_at_utc : Option ℕ
  pub settlement_event_at_utc : Option ℕ
  pub settlement_value_symbol : Option String

unfoldable pub contract_payload : Contract → ContractPayload
contract_payload c = record {
  contract_id = c.contract_id;
  root = c.root;
  right = c.right;
  strike_points = c.strike_points;
  expiration_local_date = c.expiration_local_date;
  exercise_style = c.exercise_style;
  settlement_style = c.settlement_style;
  multiplier = c.multiplier;
  price_increment = c.price_increment;
  last_trading_at_utc = c.last_trading_at_utc;
  settlement_event_at_utc = c.settlement_event_at_utc;
  settlement_value_symbol = c.settlement_value_symbol;
}

unfoldable pub aware_time : Option ℕ → Option Datetime
aware_time none = none
aware_time (some t) = some (aware t)

-- `_contract`, after its texts are read: the constructor checks what they denote.
unfoldable pub contract_of : ContractPayload → Result Contract
contract_of p = make_contract (record {
  contract_id = p.contract_id;
  root = p.root;
  right = p.right;
  strike_points = finite p.strike_points;
  expiration_local_date = p.expiration_local_date;
  exercise_style = p.exercise_style;
  settlement_style = p.settlement_style;
  multiplier = int (pos p.multiplier);
  price_increment = finite p.price_increment;
  listed_at_utc = none;
  first_verified_observation_utc = none;
  last_trading_at_utc = aware_time p.last_trading_at_utc;
  settlement_event_at_utc = aware_time p.settlement_event_at_utc;
  settlement_value_symbol = p.settlement_value_symbol;
})

pub record SpreadPayload : Type 0 where
  pub short : ContractPayload
  pub long : ContractPayload
  pub direction : Direction

unfoldable pub spread_payload : CreditSpread → SpreadPayload
unfolding contract_payload
spread_payload p = record {
  short = contract_payload p.short;
  long = contract_payload p.long;
  direction = p.direction;
}

-- `_spread`
unfoldable pub spread_of : SpreadPayload → Result CreditSpread
unfolding contract_of
spread_of p = do
  short ← contract_of p.short
  long ← contract_of p.long
  make_spread short long p.direction
