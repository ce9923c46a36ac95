-- ===== src/Scheduler/Setting/Tests.antt =====
-- The quotes of a spread in a small archive.
use auto_options_call_debit.Common.{false}
use auto_options_call_debit.Domain.State.{Order, open_order, pending}
use auto_options_call_debit.Ledger.Fold.{initial_state}
use auto_options_call_debit.Scheduler.{Engine}
use auto_options_call_debit.Common.Outcome.{Result, ok}
use auto_options_call_debit.Common.{pos, ℕ, Option, none, some, [], ◌==◌, if◌then◌else◌}
use auto_options_call_debit.Common.Outcome.{ok}
use auto_options_call_debit.Domain.Quote.{Quote}
use auto_options_call_debit.Domain.Tests.{bull_put, quote}
use auto_options_call_debit.Execution.{PackageOrder, open_package}
use auto_options_call_debit.Scheduler.Setting.{Setting}

abbrev rows : ℕ → ℕ → Option (Result Quote)
rows id t =
    if id == bull_put.short.contract_id
    then some (ok (quote bull_put.short.contract_id 250 260))
    else some (ok (quote bull_put.long.contract_id 110 120))

abbrev archive : Setting
archive = record {
  zone = record { instant = λ day seconds. seconds; date = λ t. 0 };
  sessions = [];
  review_minutes = 30;
  quote_row = rows;
  settlement_for = λ day. none;
  quote_age = some 300;
  event_age = some 60;
  opening_fee = pos 650000;
  closing_fee = pos 650000;
  settlement_fee = pos 650000;
  max_risk = none;
}

abbrev order : Order
order = record {
  order_id = 7;
  agent_id = 2;
  spread = bull_put;
  intent = open_order;
  limit_points = pos 1200000;
  submitted_at_utc = 40;
  first_eligible_at_utc = 100;
  status = pending;
}

abbrev pkg : PackageOrder
pkg = record {
  order_id = 7;
  intent = open_package;
  limit_points = pos 1200000;
  submitted_at_utc = 40;
  first_eligible_at_utc = 100;
}

abbrev engine : Engine
engine = record {
  state = initial_state 1 (pos 1000000000);
  buffer = [];
  id_counter = 7;
  manager_due = false;
  valuation = none;
}

abbrev short_quote : Quote
short_quote = quote bull_put.short.contract_id 250 260

abbrev long_quote : Quote
long_quote = quote bull_put.long.contract_id 110 120
