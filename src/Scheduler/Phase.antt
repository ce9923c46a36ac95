-- ===== src/Scheduler/Phase.antt =====
-- A phase whose effects are committed at once or not at all (engine/scheduler.py).
pub mod Resume
pub mod Chain
use auto_options_call_debit.Common.{String, List, [], ◌∷◌}
use auto_options_call_debit.Common.Outcome.{Result, err, ok}
use auto_options_call_debit.Common.Dict.{Dict}
use auto_options_call_debit.Ledger.Event.{
  Body, Event, reservation_held, reservation_status, reservation_released, agent_created,
  agent_state, order_submitted, order_resolved, position_opened, position_closed, position_settled,
  manager_paused, manager_resumed, other,
}
use auto_options_call_debit.Store.{append_batch, Linked, Hashing, unset}
use auto_options_call_debit.Scheduler.{Work, Engine}

-- The type of an event, by its payload.
abbrev pub type_of : Body → String
type_of (reservation_held r a d reserve at until) = "RESERVATION_HELD"
type_of (reservation_status k status) = "RESERVATION_STATUS"
type_of (reservation_released k status) = "RESERVATION_RELEASED"
type_of (agent_created a) = "AGENT_CREATED"
type_of (agent_state k state next r p) = "AGENT_STATE"
type_of (order_submitted k a spread intent limit at eligible) = "ORDER_SUBMITTED"
type_of (order_resolved k status) = "ORDER_RESOLVED"
type_of (position_opened k a spread credit fees at day reserve) = "POSITION_OPENED"
type_of (position_closed k debit fees status) = "POSITION_CLOSED"
type_of (position_settled k liability fees status) = "POSITION_SETTLED"
type_of manager_paused = "MANAGER_PAUSED"
type_of manager_resumed = "MANAGER_RESUMED"
type_of (other type) = type

-- An event before it is linked, and what `fold` reads of a linked one.
abbrev pub unlinked : Event → Linked Body
unlinked ev = record {
  run_id = ev.run_id;
  seq = ev.seq;
  sim_time_utc = ev.sim_time_utc;
  phase = ev.phase;
  type = type_of ev.body;
  payload = ev.body;
  payload_hash = unset;
  previous_hash = unset;
  event_hash = unset;
}

abbrev pub bare : Linked Body → Event
bare e = record {
  run_id = e.run_id;
  seq = e.seq;
  sim_time_utc = e.sim_time_utc;
  phase = e.phase;
  body = e.payload;
}

abbrev pub all_unlinked : List Event → List (Linked Body)
all_unlinked [] = []
all_unlinked (ev ∷ evs) = unlinked ev ∷ all_unlinked evs

abbrev pub all_bare : List (Linked Body) → List Event
all_bare [] = []
all_bare (e ∷ es) = bare e ∷ all_bare es

-- The engine with the store that it commits to.
pub record Run : Type 0 where
  pub engine : Engine
  pub store : Dict (List (Linked Body))

-- After the store has taken or refused the batch of the phase.
committed :
    Run → Engine → Result (List (Linked Body)) × Dict (List (Linked Body)) → Result (Unit {0}) × Run
committed run e (err x, store) = (err x, record run { store = store })
committed run e (ok cs, store) =
    (ok tt, record { engine = record e { buffer = [] }; store = store })

module _ (h : Hashing Body) where
  -- A staged phase is committed, or its effects are dropped.
  commit_staged : Run → Result (Unit {0}) × Engine → Result (Unit {0}) × Run
  unfolding committed
  commit_staged run (err x, e) = (err x, run)
  commit_staged run (ok u, e) =
      committed run e (append_batch h (all_unlinked e.buffer) run.engine.state.seq run.store)

  -- `_atomic`, over a store with `append_batch`
  unfoldable pub atomic : Work → Run → Result (Unit {0}) × Run
  unfolding commit_staged
  atomic work run = commit_staged run (work (record run.engine { buffer = [] }))
