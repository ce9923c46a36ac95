-- ===== src/Scheduler/Orders.antt =====
-- The orders that are due at a minute (engine/scheduler.py).
pub mod Logged
use auto_options_call_debit.Common.Lists.{sorted}
use auto_options_call_debit.Common.Action.{pure, raise, lift, gets, guard_not, ◌>>=◌, ◌>>◌}
use auto_options_call_debit.Common.{
  ℤ, pos, pos_part, neg_part, ltb_ℤ, leb_ℤ, ◌-ℤ◌, ◌*ℤ◌, ℕ, ◌+◌, ◌%◌, Bool, true, false, not, ◌&&◌,
  ◌||◌, Option, none, some, ltb, leb, ◌==◌, if◌then◌else◌, bool_ne,
}
use auto_options_call_debit.Common.Outcome.{data_pause}
use auto_options_call_debit.Common.Dict.{values}
use auto_options_call_debit.Domain.Money.{quantize, finite, aware}
use auto_options_call_debit.Domain.Contract.{width_points, spread_multiplier}
use auto_options_call_debit.Domain.State.{is_pending, OrderIntent, Order, open_order, close_order}
use auto_options_call_debit.Execution.{
  make_package, try_fill, Intent, PackageArgs, FillStatus, open_package, close_package, filled,
  limit_not_met, quote_missing, quote_unusable, size_inadequate, expired,
}
use auto_options_call_debit.Scheduler.{Work, for_each}
use auto_options_call_debit.Scheduler.Market.{expire_order, apply_fill, Market}

-- `value % increment == 0`, of an increment that is positive
unfoldable pub on_increment : ℤ → ℤ → Bool
on_increment v increment =
    ltb_ℤ (pos 0) increment && (((pos_part v + neg_part v) % pos_part increment) == 0)

abbrev pub package_intent : OrderIntent → Intent
package_intent open_order = open_package
package_intent close_order = close_package

abbrev pub order_args : Order → PackageArgs
order_args o = record {
  order_id = o.order_id;
  intent = package_intent o.intent;
  limit_points = finite o.limit_points;
  submitted_at_utc = aware o.submitted_at_utc;
  first_eligible_at_utc = aware o.first_eligible_at_utc;
}

-- `maximum is not None and risk > maximum`
exceeds : Option ℤ → ℤ → Bool
exceeds none risk = false
exceeds (some maximum) risk = ltb_ℤ maximum risk

-- `last_trading is not None and t >= last_trading`
ended : Option ℕ → ℕ → Bool
ended none t = false
ended (some last) t = leb last t

abbrev is_opening : OrderIntent → Bool
is_opening open_order = true
is_opening close_order = false

-- The key `(o.intent is OrderIntent.OPEN, o.order_id)`
closes_first : Order → Order → Bool
closes_first a b =
    (not (is_opening a.intent) && is_opening b.intent)
    || (not (bool_ne (is_opening a.intent) (is_opening b.intent)) && ltb a.order_id b.order_id)

module _ (m : Market) where
  -- An opening fill: its credit, its risk, then the fill.
  open_fill : Order → ℤ → ℕ → Work
  unfolding exceeds
  open_fill o credit t = do
    guard_not (leb_ℤ credit (pos 0) || leb_ℤ (width_points o.spread) credit)
        (data_pause "INVALID_OPEN_CREDIT")
    if exceeds m.max_risk ((width_points o.spread -ℤ credit) *ℤ spread_multiplier o.spread)
        then expire_order m o t
        else apply_fill m o credit (quantize (m.opening_fee *ℤ 2)) t

  by_intent : Order → ℤ → ℕ → OrderIntent → Work
  unfolding open_fill
  by_intent o price t open_order = open_fill o price t
  by_intent o price t close_order = apply_fill m o price (quantize (m.closing_fee *ℤ 2)) t

  -- The branches on the outcome's status. A filled outcome carries its price.
  unfoldable pub on_outcome : Order → ℕ → FillStatus → Option ℤ → Work
  unfolding by_intent
  on_outcome o t filled (some price) = do
    guard_not (not (on_increment price o.spread.short.price_increment))
        (data_pause "PACKAGE_PRICE_INCREMENT")
    by_intent o price t o.intent
  on_outcome o t limit_not_met price = expire_order m o t
  on_outcome o t expired price = expire_order m o t
  on_outcome o t size_inadequate price = expire_order m o t
  on_outcome o t quote_missing price = raise (data_pause "QUOTE_MISSING")
  on_outcome o t quote_unusable price = raise (data_pause "QUOTE_UNUSABLE")
  on_outcome o t _ _ = pure tt

  unfoldable pub attempt : Order → ℕ → Work
  unfolding on_outcome
  attempt o t = do
    (short, long) ← lift (m.pair o.spread t)
    pkg ← lift (make_package (order_args o))
    outcome ← lift (try_fill pkg (some short) (some long) t)
    on_outcome o t outcome.status outcome.package_price_points

  -- The body of the loop of `_resolve_orders`
  unfoldable pub resolve_order : ℕ → Order → Work
  unfolding attempt ended
  resolve_order t o =
      if not (is_pending o.status) || ltb t o.first_eligible_at_utc
      then pure tt
      else if ltb o.first_eligible_at_utc t || ended o.spread.short.last_trading_at_utc t
      then expire_order m o t
      else attempt o t

  -- `_resolve_orders`
  unfoldable pub resolve_orders : ℕ → Work
  unfolding closes_first
  resolve_orders t = do
    orders ← gets (λ e. sorted closes_first (values e.state.orders))
    for_each orders (resolve_order t)
