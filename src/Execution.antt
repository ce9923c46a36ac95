-- ===== src/Execution.antt =====
-- The package-limit execution model (engine/execution.py).
pub mod Fills
pub mod Decided
mod Tests
use auto_options_call_debit.Common.{
  ℤ, pos, ltb_ℤ, leb_ℤ, ◌-ℤ◌, ℕ, zero, Bool, not, ◌&&◌, Option, none, some, ltb, leb, ◌==◌,
  if◌then◌else◌,
}
use auto_options_call_debit.Common.Outcome.{
  ◌>>=◌, ◌>>◌, raise_if, Error, Result, domain_error, ok, err,
}
use auto_options_call_debit.Domain.Money.{require_aware, Decimal, Datetime, finite, special, aware}
use auto_options_call_debit.Domain.Quote.{usable_at, Quote}

pub data Intent : Type 0 where
  open_package close_package : Intent

-- The arguments of `PackageOrder(...)`.
pub record PackageArgs : Type 0 where
  pub order_id : ℕ
  pub intent : Intent
  pub limit_points : Decimal
  pub submitted_at_utc : Datetime
  pub first_eligible_at_utc : Datetime

pub record PackageOrder : Type 0 where
  pub order_id : ℕ
  pub intent : Intent
  pub limit_points : ℤ
  pub submitted_at_utc : ℕ
  pub first_eligible_at_utc : ℕ

abbrev bad_limit : Error
bad_limit = domain_error "NONPOSITIVE_LIMIT"

-- A limit of zero is for closing only.
limit_of : Intent → Decimal → Result ℤ
limit_of i special = err bad_limit
limit_of open_package (finite v) = if leb_ℤ v (pos 0) then err bad_limit else ok v
limit_of close_package (finite v) = if ltb_ℤ v (pos 0) then err bad_limit else ok v

-- `PackageOrder.__post_init__`
unfoldable pub make_package : PackageArgs → Result PackageOrder
unfolding limit_of require_aware
make_package a = do
  submitted ← require_aware a.submitted_at_utc
  eligible ← require_aware a.first_eligible_at_utc
  raise_if (leb eligible submitted) (domain_error "NO_EXECUTION_DELAY")
  limit ← limit_of a.intent a.limit_points
  ok (record {
    order_id = a.order_id;
    intent = a.intent;
    limit_points = limit;
    submitted_at_utc = submitted;
    first_eligible_at_utc = eligible;
  })

pub data FillStatus : Type 0 where
  filled limit_not_met quote_missing quote_unusable : FillStatus
  size_inadequate not_yet_eligible expired : FillStatus

pub record FillOutcome : Type 0 where
  pub status : FillStatus
  pub package_price_points : Option ℤ
  pub fill_at_utc : Option ℕ

abbrev pub no_fill : FillStatus → FillOutcome
no_fill s = record { status = s; package_price_points = none; fill_at_utc = none }

unfoldable pub package_open_credit : Quote → Quote → ℤ
package_open_credit s l = s.bid_points -ℤ l.ask_points

unfoldable pub package_close_debit : Quote → Quote → ℤ
package_close_debit s l = s.ask_points -ℤ l.bid_points

leg_sizes_ok : Intent → Quote → Quote → Bool
leg_sizes_ok open_package s l =
    leb_ℤ (pos 1) s.bid_size_contracts && leb_ℤ (pos 1) l.ask_size_contracts
leg_sizes_ok close_package s l =
    leb_ℤ (pos 1) s.ask_size_contracts && leb_ℤ (pos 1) l.bid_size_contracts

-- The last part of `try_fill`: the price against the limit.
at_limit : Intent → ℤ → Quote → Quote → ℕ → FillOutcome
unfolding package_open_credit package_close_debit
at_limit open_package limit s l at =
    let price = package_open_credit s l in
    if leb_ℤ limit price
    then record { status = filled; package_price_points = some price; fill_at_utc = some at }
    else no_fill limit_not_met
at_limit close_package limit s l at =
    let price = package_close_debit s l in
    if leb_ℤ price limit
    then record { status = filled; package_price_points = some price; fill_at_utc = some at }
    else no_fill limit_not_met

-- `try_fill` once both quotes are there.
fill_pair : PackageOrder → Quote → Quote → ℕ → Result FillOutcome
unfolding leg_sizes_ok at_limit
fill_pair o s l at =
    if s.contract_id == l.contract_id
    then err (domain_error "SAME_LEG_QUOTES")
    else if not (usable_at s at && usable_at l at)
    then ok (no_fill quote_unusable)
    else if not (s.snapshot_at_utc == l.snapshot_at_utc)
    then ok (no_fill quote_unusable)
    else if not (leg_sizes_ok o.intent s l)
    then ok (no_fill size_inadequate)
    else ok (at_limit o.intent o.limit_points s l at)

fill_quotes : PackageOrder → Option Quote → Option Quote → ℕ → Result FillOutcome
unfolding fill_pair
fill_quotes o (some s) (some l) at = fill_pair o s l at
fill_quotes o _ _ at = ok (no_fill quote_missing)

-- `try_fill`, at an aware time
unfoldable pub try_fill : PackageOrder → Option Quote → Option Quote → ℕ → Result FillOutcome
unfolding fill_quotes
try_fill o s l at =
    if ltb at o.first_eligible_at_utc
    then ok (no_fill not_yet_eligible)
    else if ltb o.first_eligible_at_utc at
    then ok (no_fill expired)
    else fill_quotes o s l at
