-- ===== src/Ledger/Fold.antt =====
-- `fold` and `replay` (engine/ledger.py). A `fold` that raises has still made the assignments above
-- the raise.
pub mod Sequence
use auto_options_call_debit.Common.{
  ℤ, pos, ℕ, ◌+◌, true, false, not, Option, none, some, List, [], ◌∷◌, ◌==◌,
}
use auto_options_call_debit.Common.Outcome.{Result, domain_error, key_error, ok, err}
use auto_options_call_debit.Common.Action.{
  ◌>>=◌, ◌>>◌, Action, pure, lift, gets, need, guard_not, modify,
}
use auto_options_call_debit.Common.Dict.{Dict, lookup, insert}
use auto_options_call_debit.Domain.Money.{quantize, finite}
use auto_options_call_debit.Domain.Contract.{spread_multiplier}
use auto_options_call_debit.Domain.State.{
  Order, Position, Reservation, Agent, pending, still_open, res_seeking,
}
use auto_options_call_debit.Accounting.{
  apply_entry_fill, apply_exit_fill, apply_settlement, hold_reservation, release_reservation,
  AccountSnapshot,
}
use auto_options_call_debit.Ledger.Payload.{spread_of}
use auto_options_call_debit.Ledger.Event.{
  position_closed, position_settled, position_opened, Body, Event, EngineState, reservation_held,
  reservation_status, reservation_released, agent_created, agent_state, order_submitted,
  order_resolved, manager_paused, manager_resumed, other,
}

abbrev pub Step : Type 0
Step = Action EngineState (Unit {0})

-- `d[k]`
item : {V : Type 0} → (EngineState → Dict V) → ℕ → Action EngineState V
item d k s = need (lookup k (d s)) key_error s

put_reservation : ℕ → Reservation → Step
put_reservation k r = modify (λ s. record s { reservations = insert k r s.reservations })

put_agent : ℕ → Agent → Step
put_agent k a = modify (λ s. record s { agents = insert k a s.agents })

put_order : ℕ → Order → Step
put_order k o = modify (λ s. record s { orders = insert k o s.orders })

put_position : ℕ → Position → Step
put_position k p = modify (λ s. record s { positions = insert k p s.positions })

-- `st.account = change(st.account)`
set_account : (AccountSnapshot → Result AccountSnapshot) → Step
set_account change = do
  account ← gets (λ s. s.account)
  changed ← lift (change account)
  modify (λ s. record s { account = changed })

-- `p.get(key, old)`
get_key : Option ℕ → Option ℕ → Option ℕ
get_key none old = old
get_key (some new) old = some new

unfoldable pub apply_body : Body → Step
unfolding item put_reservation put_agent put_order put_position set_account get_key
apply_body (reservation_held r a d reserve at until) = do
  put_reservation r (record {
    reservation_id = r;
    agent_id = a;
    direction = d;
    reserve_usd = reserve;
    created_at_utc = at;
    expires_at_utc = until;
    status = res_seeking;
  })
  set_account (λ account. hold_reservation account (finite reserve))
apply_body (reservation_status k status) = do
  r ← item (λ s. s.reservations) k
  put_reservation r.reservation_id (record r { status = status })
apply_body (reservation_released k status) = do
  r ← item (λ s. s.reservations) k
  put_reservation r.reservation_id (record r { status = status })
  set_account (λ account. release_reservation account (finite r.reserve_usd))
apply_body (agent_created a) = put_agent a.agent_id a
apply_body (agent_state k state next reservation position) = do
  a ← item (λ s. s.agents) k
  put_agent a.agent_id (record a {
    state = state;
    next_review_at_utc = next;
    reservation_id = get_key reservation a.reservation_id;
    position_id = get_key position a.position_id;
  })
apply_body (order_submitted k agent spread intent limit at eligible) = do
  parsed ← lift (spread_of spread)
  put_order k (record {
    order_id = k;
    agent_id = agent;
    spread = parsed;
    intent = intent;
    limit_points = limit;
    submitted_at_utc = at;
    first_eligible_at_utc = eligible;
    status = pending;
  })
apply_body (order_resolved k status) = do
  o ← item (λ s. s.orders) k
  put_order k (record o { status = status })
apply_body (position_opened k agent spread credit fees at day reserve) = do
  parsed ← lift (spread_of spread)
  put_position k (record {
    position_id = k;
    agent_id = agent;
    spread = parsed;
    entry_credit_points = credit;
    entry_fees_usd = fees;
    entry_at_utc = at;
    entry_ny_date = day;
    reserve_usd = reserve;
    status = still_open;
  })
  set_account
      (λ account. ok (apply_entry_fill account credit (spread_multiplier parsed) fees reserve))
apply_body (position_closed k debit fees status) = do
  p ← item (λ s. s.positions) k
  put_position p.position_id (record p { status = status })
  set_account
      (λ account. apply_exit_fill account debit (spread_multiplier p.spread) fees p.reserve_usd)
apply_body (position_settled k liability fees status) = do
  p ← item (λ s. s.positions) k
  put_position p.position_id (record p { status = status })
  set_account (λ account.
      apply_settlement account liability (spread_multiplier p.spread) fees p.reserve_usd)
apply_body manager_paused = modify (λ s. record s { paused = true })
apply_body manager_resumed = modify (λ s. record s { paused = false })
apply_body (other type) = pure tt

unfoldable pub fold : Event → Step
fold ev = do
  s ← gets (λ s. s)
  guard_not (not (ev.run_id == s.run_id)) (domain_error "CROSS_RUN_EVENT")
  guard_not (not (ev.seq == s.seq + 1)) (domain_error "EVENT_SEQUENCE_MISMATCH")
  modify (λ s. record s { seq = ev.seq })
  apply_body ev.body

unfoldable pub fold_all : List Event → Step
fold_all [] = pure tt
fold_all (ev ∷ evs) = fold ev >> fold_all evs

unfoldable pub initial_state : ℕ → ℤ → EngineState
initial_state run cash = record {
  run_id = run;
  account = record { cash = quantize cash; reserved = quantize (pos 0); fees_paid = pos 0 };
  agents = [];
  positions = [];
  orders = [];
  reservations = [];
  paused = false;
  seq = 0;
}

unfoldable pub finished : Result (Unit {0}) × EngineState → Result EngineState
finished (ok _, s) = ok s
finished (err e, s) = err e

unfoldable pub replay : ℕ → ℤ → List Event → Result EngineState
replay run cash events = finished (fold_all events (initial_state run cash))
