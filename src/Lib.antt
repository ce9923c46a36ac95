-- ===== src/Lib.antt =====
-- spx-research: the financial engine of a synthetic SPX credit-spread simulation, in Python, under
-- src/spx_research/.
--
-- A run is a log of events. The scheduler (engine/scheduler.py) walks simulated minutes, resolves
-- orders by the execution model (engine/execution.py), settles expired spreads (engine/settlement.py),
-- asks policies for decisions and checks them (engine/policy.py), and emits events. Each event is
-- folded into the engine's state (engine/ledger.py), whose cash and reserves obey the accounting rules
-- (engine/accounting.py), and is committed to a hash-chained store (persistence/events.py). The domain
-- types (domain/types.py, domain/state.py) check their own structure when they are built.
--
-- Files:
--   Common      integers, dicts, lists, exceptions as values, actions on a state
--   Domain      domain/types.py and domain/state.py: Decimal amounts, contracts, spreads, quotes, and
--               the aggregates of a run; `make_contract`, `make_spread` and `make_quote` are the
--               `__post_init__` checks of the classes
--   Accounting  engine/accounting.py, function by function
--   Settlement  engine/settlement.py
--   Execution   engine/execution.py: `try_fill`
--   Ledger      engine/ledger.py: `fold`, `replay` and the payloads of spreads, whose
--               amounts, times and enumerations are the values that their texts denote
--   Policy      engine/policy.py: `validate_spread_proposal` and `validate_manager_proposal`; and
--               research/mechanical.py: `decide`, whose loop on the free slots is recursion on them
--   Scheduler   engine/scheduler.py: Scheduler.antt has `_emit` and the ids, Market `_expire_order` and
--               `_apply_fill`, Orders `_resolve_orders`, Close `_settle_due` and `_session_close`, Decisions
--               `_apply_manager` and `_apply_spread`, Barrier `commit_actions`, Session the work of the
--               phases, Valuing `_record_valuation`, Phase `_atomic`, Runs the runs that these phases
--               lead to. `Market` and `Desk` are what they ask of the profile, the calendar and
--               the archive; Setting builds a `Market`
--               from a calendar and the archive's quotes (`_pair`, `_last_trading_time`).
--   Calendar    temporal/calendar.py, with `_next_grid` of engine/scheduler.py. The loop of
--               `review_times` has the close, in microseconds, for fuel: a step is at least one.
--   Quality     data/validation.py: `validate_quote` and `validate_pair`
--   Budget      llm/budget.py
--   Knowledge   epistemics/types.py (Knowledge, Vocabulary), epistemics/harness.py (Atoms: `check_atom`;
--               Packet: `compile`; Proposals: `validate`), epistemics/store.py (Observations) and
--               epistemics/reducer.py (Beliefs). The recursion of `check_atom` has fuel, one more than
--               there are atoms. A text is kept with what `Decimal` reads in it; a proposal's JSON is
--               read to the depth at which the code looks at it.
--   Runtime     persistence/runtime.py: Runtime.antt has the rows and tables, Attempts the decisions and
--               paid attempts, Barriers the runs, cursors and barriers. The value of an operation is
--               the next tables, so that one that raises leaves them as they were; Memory has the undo
--               list by which the in-memory store keeps that promise, for its rows, journal, events,
--               outbox and observations.
--   Pipeline    agents/graphs.py, for a live gateway and without a run store: `_call_model`, `_validate`,
--               `_route` and the loop of the graph, whose fuel is one more than `max_retries`, since each
--               retry follows on one more attempt (Settled); what a call leaves reserved (Reservation);
--               `_manager_allocation` (Allocation). The gateway is a parameter that may answer each call
--               in another way; the pauses between attempts are left out.
--   Store       persistence/events.py: `append_batch` and `tip`; `with_hashes` and `event_hash` of
--               domain/state.py; the check of a stored chain in `Engine.run` of engine/scheduler.py
--
-- How values are read. A finite Decimal is an integer number of millionths: the sums, differences and
-- multiples by a contract multiplier that the engine takes are exact in it, and `usd` rounds it to whole
-- cents. Amounts stay far below the 28 digits of the default decimal context. NaN and the infinities
-- appear where a guard tests for them. An aware datetime is a number of microseconds since a fixed
-- origin, a date the number of its day. Identifiers are only compared and ordered; an identifier is the
-- number behind its prefix, and as the numbers are padded to five digits their order as texts is that of
-- the numbers below 100000. An exception is an error value; a method that mutates an object returns
-- the object beside its outcome, also after a raise.
--
-- Not modelled: SQL stores, DuckDB archives, files, sockets, the command line, reports over floats.
-- SHA-256, HMAC and canonical JSON are parameters.
pub mod Accounting
pub mod Budget
pub mod Calendar
pub mod Common
pub mod Domain
pub mod Execution
pub mod Knowledge
pub mod Ledger
pub mod Pipeline
pub mod Policy
pub mod Quality
pub mod Runtime
pub mod Scheduler
pub mod Settlement
pub mod Store
