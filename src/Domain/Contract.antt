-- ===== src/Domain/Contract.antt =====
-- Option contracts and vertical credit spreads (domain/types.py).
pub mod Validity
use auto_options_call_debit.Common.{
  ℕ, ℤ, pos, negsuc, ◌-ℤ◌, abs, ltb_ℤ, leb_ℤ, eqb_ℤ, String, str_eq, Bool, true, false, not, ◌&&◌,
  ◌||◌, Option, none, some, ◌==◌, leb, if◌then◌else◌,
}
use auto_options_call_debit.Common.Outcome.{Result, ok, err, domain_error, ◌>>=◌, ◌>>◌, raise_if}
use auto_options_call_debit.Domain.Money.{Decimal, finite, special, Datetime, require_aware}

pub data Right : Type 0 where
  put call : Right

pub data Direction : Type 0 where
  bull_put_credit bear_call_credit : Direction

abbrev pub right_eq : Right → Right → Bool
right_eq put put = true
right_eq call call = true
right_eq _ _ = false

-- What is passed for an `int` parameter: Python's `bool` is an `int` too.
pub data IntArg : Type 0 where
  int : ℤ → IntArg
  bool : Bool → IntArg

-- The arguments of `Contract(...)`. A date is the number of its day.
pub record ContractArgs : Type 0 where
  pub contract_id : ℕ
  pub root : String
  pub right : Right
  pub strike_points : Decimal
  pub expiration_local_date : ℕ
  pub exercise_style : String
  pub settlement_style : String
  pub multiplier : IntArg
  pub price_increment : Decimal
  pub listed_at_utc : Option Datetime
  pub first_verified_observation_utc : Option Datetime
  pub last_trading_at_utc : Option Datetime
  pub settlement_event_at_utc : Option Datetime
  pub settlement_value_symbol : Option String

-- A contract whose constructor has returned.
pub record Contract : Type 0 where
  pub contract_id : ℕ
  pub root : String
  pub right : Right
  pub strike_points : ℤ
  pub expiration_local_date : ℕ
  pub exercise_style : String
  pub settlement_style : String
  pub multiplier : ℕ
  pub price_increment : ℤ
  pub listed_at_utc : Option ℕ
  pub first_verified_observation_utc : Option ℕ
  pub last_trading_at_utc : Option ℕ
  pub settlement_event_at_utc : Option ℕ
  pub settlement_value_symbol : Option String

-- `isinstance(multiplier, bool) or multiplier <= 0`
unfoldable pub positive_multiplier : IntArg → Result ℕ
positive_multiplier (int (pos n)) = if n == 0 then err (domain_error "BAD_MULTIPLIER") else ok n
positive_multiplier (int (negsuc n)) = err (domain_error "BAD_MULTIPLIER")
positive_multiplier (bool b) = err (domain_error "BAD_MULTIPLIER")

unfoldable pub positive_price : Decimal → Result ℤ
positive_price (finite v) = if leb_ℤ v (pos 0) then err (domain_error "BAD_PRICE") else ok v
positive_price special = err (domain_error "BAD_PRICE")

unfoldable pub aware_or_none : Option Datetime → Result (Option ℕ)
aware_or_none none = ok none
aware_or_none (some d) = require_aware d >>= λ t. ok (some t)

-- `Contract.__post_init__`
unfoldable pub make_contract : ContractArgs → Result Contract
make_contract a = do
  raise_if (not (str_eq a.root "SPX" || str_eq a.root "SPXW")) (domain_error "UNSUPPORTED_ROOT")
  m ← positive_multiplier a.multiplier
  strike ← positive_price a.strike_points
  increment ← positive_price a.price_increment
  raise_if (not (str_eq a.exercise_style "EUROPEAN" && str_eq a.settlement_style "PM"))
      (domain_error "UNSUPPORTED_SETTLEMENT_CONVENTION")
  listed ← aware_or_none a.listed_at_utc
  observed ← aware_or_none a.first_verified_observation_utc
  last ← aware_or_none a.last_trading_at_utc
  settled ← aware_or_none a.settlement_event_at_utc
  ok (record {
    contract_id = a.contract_id;
    root = a.root;
    right = a.right;
    strike_points = strike;
    expiration_local_date = a.expiration_local_date;
    exercise_style = a.exercise_style;
    settlement_style = a.settlement_style;
    multiplier = m;
    price_increment = increment;
    listed_at_utc = listed;
    first_verified_observation_utc = observed;
    last_trading_at_utc = last;
    settlement_event_at_utc = settled;
    settlement_value_symbol = a.settlement_value_symbol;
  })

reached : Option ℕ → ℕ → Bool
reached none t = false
reached (some s) t = leb s t

-- `Contract.available_at`
unfoldable pub available_at : Contract → ℕ → Bool
unfolding reached
available_at c t = elim c.first_verified_observation_utc [
  | some observed ↦ leb observed t
  | none ↦ reached c.listed_at_utc t
]

pub record CreditSpread : Type 0 where
  pub short : Contract
  pub long : Contract
  pub direction : Direction

-- The attributes in which the two legs must agree.
legs_match : Contract → Contract → Bool
legs_match s l =
    str_eq s.root l.root
    && (right_eq s.right l.right
        && ((s.expiration_local_date == l.expiration_local_date)
            && (str_eq s.exercise_style l.exercise_style
                && (str_eq s.settlement_style l.settlement_style
                    && ((s.multiplier == l.multiplier)
                        && eqb_ℤ s.price_increment l.price_increment)))))

structure : Direction → Contract → Contract → Result (Unit {0})
structure bull_put_credit s l =
    raise_if (not (right_eq s.right put) || not (ltb_ℤ l.strike_points s.strike_points))
      (domain_error "BAD_BULL_PUT_STRUCTURE")
structure bear_call_credit s l =
    raise_if (not (right_eq s.right call) || not (ltb_ℤ s.strike_points l.strike_points))
      (domain_error "BAD_BEAR_CALL_STRUCTURE")

-- `CreditSpread.__post_init__`
unfoldable pub make_spread : Contract → Contract → Direction → Result CreditSpread
unfolding legs_match structure
make_spread s l d = do
  raise_if (not (legs_match s l)) (domain_error "LEG_MISMATCH")
  raise_if (s.contract_id == l.contract_id) (domain_error "SAME_CONTRACT_LEGS")
  structure d s l
  ok (record { short = s; long = l; direction = d })

unfoldable pub width_points : CreditSpread → ℤ
unfolding abs ◌-ℤ◌
width_points p = abs (p.short.strike_points -ℤ p.long.strike_points)

abbrev pub spread_multiplier : CreditSpread → ℕ
spread_multiplier p = p.short.multiplier

abbrev pub spread_expiration : CreditSpread → ℕ
spread_expiration p = p.short.expiration_local_date

-- `CreditSpread.listed_and_observable`
unfoldable pub listed_and_observable : CreditSpread → ℕ → Bool
unfolding available_at
listed_and_observable p t = available_at p.short t && available_at p.long t
