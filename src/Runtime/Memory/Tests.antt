-- ===== src/Runtime/Memory/Tests.antt =====
-- A transaction that adds a run, changes another, appends an event, and then delivers an atom that is
-- missing.
use auto_options_call_debit.Knowledge.Observations.{conflicts}
use auto_options_call_debit.Common.{pos, true, none, some}
use auto_options_call_debit.Common.Outcome.{harness_error}
use auto_options_call_debit.Domain.Money.{finite, aware}
use auto_options_call_debit.Knowledge.{aware_check, addressed, Atom, text_value, public}
use auto_options_call_debit.Knowledge.Observations.{
  delivery_key, first_delivery, delivery, put_atom, deliver, record_delivery,
}
use auto_options_call_debit.Runtime.Barriers.{runtime_time, Observed}
use auto_options_call_debit.Runtime.Memory.{without_atom, observe_all}
use auto_options_call_debit.Runtime.Memory.Loops.{deliver_each}
use auto_options_call_debit.Runtime.Memory.Calls.{
  typed_atom, add_outbox, then_call, with_ledger, remember_deliveries, remember_assessments,
  add_known, add_typed, add_atoms, add_observed,
}
use auto_options_call_debit.Knowledge.Observations.{empty_ledger}
use auto_options_call_debit.Runtime.Memory.{
  position_of, without_key, row_at, set_at, without_last, cut, replaced, extended, shortened, table,
  set_table, undo_one, rollback, remember, Table, Memory, Block, Backing, put, note, append, done,
  calls,
}
use auto_options_call_debit.Runtime.Memory.Calls.{
  put_over, put_at, add_events, append_events_to, then_outbox, write, proceed, run_body, closed,
  transaction,
}
use auto_options_call_debit.Runtime.Memory.{runtime_runs}
use auto_options_call_debit.Common.{◌≡◌, refl, false, [], ◌∷◌, ◌==◌, if◌then◌else◌}
use auto_options_call_debit.Common.Outcome.{ledger_error, err, ok}
use auto_options_call_debit.Common.Lists.{length}
use auto_options_call_debit.Runtime.Memory.Atomic.{atomically}
use auto_options_call_debit.Runtime.Memory.Refines.{transaction_atomic}
use auto_options_call_debit.Common.{ℕ}

-- A row is its run and a value; a batch is accepted at the length of the log.
abbrev backing : Backing (ℕ × ℕ) ℕ
backing = record {
  key_of = λ name row. (row.0, 0);
  linked_batch = λ seq stored batch.
      if length stored == seq then ok batch else err (ledger_error "STALE_LEDGER_SEQUENCE");
}

abbrev no_rows : Table (ℕ × ℕ)
no_rows = record { rows = []; index = [] }

abbrev one_row : Table (ℕ × ℕ)
one_row = record { rows = (1, 10) ∷ []; index = ((1, 0), 0) ∷ [] }

abbrev store : Memory (ℕ × ℕ) ℕ ℕ
store = record {
  runs = one_row;
  decisions = no_rows;
  attempts = no_rows;
  barriers = no_rows;
  journal = [];
  events = 7 ∷ [];
  outbox = [];
  ledger = empty_ledger ℕ;
}

writes : Block (ℕ × ℕ) ℕ ℕ ℕ → Block (ℕ × ℕ) ℕ ℕ ℕ
writes rest =
    calls (put runtime_runs (2, 20))
      (calls (put runtime_runs (1, 11)) (calls (note 1 "STARTED") rest))

abbrev rate : Atom
rate = record {
  atom_id = 4;
  metric = "policy_rate_bps";
  value = text_value "500" (some (finite (pos 500)));
  unit = "basis_points";
  kind = "OBSERVATION";
  published_at = aware 100;
  available_at = aware 110;
  subject_at = aware 90;
  source_checked = true;
  recipients = public ∷ [];
  dependencies = [];
  transform = none;
}

-- The atom is delivered, and then one that is not there.
abbrev told : Observed
told = record {
  atoms = rate ∷ [];
  deliveries = delivery 1 0 7 4 (aware 120) ∷ delivery 1 0 7 5 (aware 120) ∷ [];
}

abbrev refused : Block (ℕ × ℕ) ℕ ℕ ℕ
refused = writes (calls (append 1 (8 ∷ []) (9 ∷ [])) (calls (observe_all told []) (done 0)))

-- The writes, the journal entry, the event, the atom and its delivery are undone.
undone :
    transaction backing false refused store ≡ (err (harness_error "MISSING_OBSERVATION"), store)
unfolding writes transaction closed run_body proceed write put_at put_over remember position_of
    row_at table set_table replaced extended append_events_to add_events then_outbox rollback
    undo_one shortened without_key without_last set_at cut add_outbox add_observed then_call
    remember_deliveries remember_assessments add_atoms add_typed typed_atom runtime_time add_known
    with_ledger put_atom aware_check deliver_each deliver addressed first_delivery record_delivery
    without_atom empty_ledger delivery_key conflicts
undone = refl

transaction_atomic_example :
    transaction backing false refused store ≡ atomically backing false refused store
transaction_atomic_example = transaction_atomic backing false refused store
