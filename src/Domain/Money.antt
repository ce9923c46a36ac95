-- ===== src/Domain/Money.antt =====
-- Decimal values and instants (domain/types.py, engine/accounting.py).
pub mod Rounding
use auto_options_call_debit.Common.{ℕ, suc, ◌+◌, ◌*◌, ◌/◌, ℤ, pos, negsuc, neg, Bool, true, false}
use auto_options_call_debit.Common.Outcome.{Result, ok, err, domain_error}

-- A `Decimal` as it may reach a constructor: finite, or a NaN or an infinity. A finite value is
-- counted in units of a millionth; the sums and multiples that the engine takes stay exact.
pub data Decimal : Type 0 where
  finite : ℤ → Decimal
  special : Decimal

-- `value.is_finite()`
abbrev pub is_finite : Decimal → Bool
is_finite (finite v) = true
is_finite special = false

-- `CENTS = Decimal("0.01")`, in those units.
abbrev pub cent : ℕ
cent = 10000

-- `quantize(CENTS, rounding=ROUND_HALF_UP)` of a value that is not negative.
unfoldable pub round_cents : ℕ → ℕ
round_cents n = (n + 5000) / cent * cent

-- ROUND_HALF_UP takes a tie away from zero, on both sides of it.
unfoldable pub quantize : ℤ → ℤ
unfolding round_cents neg
quantize (pos n) = pos (round_cents n)
quantize (negsuc n) = neg (pos (round_cents (suc n)))

unfoldable pub usd : Decimal → Result ℤ
unfolding quantize
usd (finite v) = ok (quantize v)
usd special = err (domain_error "NONFINITE_MONEY")

pub points : Decimal → Result ℤ
points (finite v) = ok v
points special = err (domain_error "NONFINITE_PRICE")

-- A `datetime` that knows its UTC offset, as microseconds since a fixed origin, or one that does not.
pub data Datetime : Type 0 where
  aware : ℕ → Datetime
  naive : ℕ → Datetime

unfoldable pub require_aware : Datetime → Result ℕ
require_aware (aware t) = ok t
require_aware (naive t) = err (domain_error "NAIVE_TIME")
