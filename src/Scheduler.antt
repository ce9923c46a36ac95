-- ===== src/Scheduler.antt =====
-- The engine's own state, the events that it emits, and the atomic phase (engine/scheduler.py). Of a
-- payload an event keeps what `fold` reads.
pub mod Market
pub mod Setting
pub mod Orders
pub mod Close
pub mod Decisions
pub mod Barrier
pub mod Valuing
pub mod Session
pub mod Phase
pub mod Runs
pub mod Logged
use auto_options_call_debit.Common.{ℤ}
use auto_options_call_debit.Common.Dict.{Dict, lookup}
use auto_options_call_debit.Common.{
  ℕ, ◌+◌, String, Bool, true, Option, none, some, List, [], ◌∷◌, ◌++◌, if◌then◌else◌,
}
use auto_options_call_debit.Common.Action.{Action, pure, raise, need, ◌>>=◌, ◌>>◌}
use auto_options_call_debit.Common.Outcome.{key_error, ok}
use auto_options_call_debit.Domain.State.{AgentState, archived}
use auto_options_call_debit.Ledger.Event.{Body, Event, EngineState, agent_state}
use auto_options_call_debit.Ledger.Fold.{fold}

-- `_current_valuation`, of which the entries of the positions and the amounts at mid prices are not kept;
-- an amount is none where a position has no price. `_equity` reads the last field.
pub record Valuation : Type 0 where
  pub as_of : ℕ
  pub cash : ℤ
  pub reserved : ℤ
  pub fees_paid : ℤ
  pub liquidation_liability : Option ℤ
  pub estimated_closing_fees : ℤ
  pub net_liquidation_equity : Option ℤ

-- The attributes of `Engine` that a phase changes: the state, `_buffer` while a phase runs,
-- `_id_counter`, `_manager_due` and `_current_valuation`.
pub record Engine : Type 0 where
  pub state : EngineState
  pub buffer : List Event
  pub id_counter : ℕ
  pub manager_due : Bool
  pub valuation : Option Valuation

abbrev pub Work : Type 0
Work = Action Engine (Unit {0})

-- `Event(self.run_id, self.state.seq + 1, t, phase, type_, payload)`
unfoldable pub next_event : EngineState → ℕ → String → Body → Event
next_event s t phase body = record {
  run_id = s.run_id;
  seq = s.seq + 1;
  sim_time_utc = t;
  phase = phase;
  body = body;
}

-- `_emit` while a phase is buffered.
unfoldable pub emit : ℕ → String → Body → Work
emit t phase body e =
    let event = next_event e.state t phase body in
    let (outcome, folded) = fold event e.state in
    (outcome, record e { state = folded; buffer = e.buffer ++ (event ∷ []) })

-- `_new_id`, without the prefix
unfoldable pub new_id : Action Engine ℕ
new_id e = (ok (e.id_counter + 1), record e { id_counter = e.id_counter + 1 })

unfoldable pub set_manager_due : Work
set_manager_due e = (ok tt, record e { manager_due = true })

unfoldable pub set_valuation : (EngineState → Valuation) → Work
set_valuation f e = (ok tt, record e { valuation = some (f e.state) })

-- `_agent_state`; the last argument is the optional position.
unfoldable pub agent_state_event : ℕ → AgentState → ℕ → ℕ → Option ℕ → Work
agent_state_event agent state t next position =
    emit t "AGENT" (agent_state agent state next none position)

-- `_retire_agent`
unfoldable pub retire_agent : ℕ → ℕ → AgentState → Work
retire_agent agent t final = do
  emit t "AGENT" (agent_state agent final t none none)
  emit t "AGENT" (agent_state agent archived t none none)

-- `d[k]` on the engine's state, and `d[k or ""]`
unfoldable pub state_item : {V : Type 0} → (EngineState → Dict V) → ℕ → Action Engine V
state_item d k e = need (lookup k (d e.state)) key_error e

unfoldable pub state_item_or : {V : Type 0} → (EngineState → Dict V) → Option ℕ → Action Engine V
unfolding state_item
state_item_or d none = raise key_error
state_item_or d (some k) = state_item d k

unfoldable pub for_each : {A : Type 0} → List A → (A → Work) → Work
for_each [] body = pure tt
for_each (x ∷ xs) body = body x >> for_each xs body
