-- ===== src/Runtime/Memory.antt =====
-- The transactions of the in-memory store (`_MemoryTransaction` and `InMemoryRunStore._transaction` of
-- persistence/runtime.py). A body may read the store at any point, and writes to it by `put`, `journal`,
-- `append` and `observations` (Calls). A row is its value, and an entry of the journal its run and kind:
-- copying a row and encoding a payload are left out, and so is that they may raise.
pub mod Loops
pub mod Calls
pub mod Atomic
pub mod Grown
pub mod Forgotten
pub mod Keeping
pub mod Observing
pub mod Undone
pub mod Writes
pub mod Refines
mod Tests
use auto_options_call_debit.Knowledge.Observations.{ObservationLedger, AssessmentRecord}
use auto_options_call_debit.Runtime.Barriers.{Observed}
use auto_options_call_debit.Common.Dict.{Dict}
use auto_options_call_debit.Common.{
  suc, String, Bool, ◌&&◌, Option, none, some, List, [], ◌∷◌, ◌++◌, ◌==◌, if◌then◌else◌,
}
use auto_options_call_debit.Common.Outcome.{Error, Result, ledger_error, key_error, err, ok}
use auto_options_call_debit.Common.Lists.{length}
use auto_options_call_debit.Common.{ℕ, zero}

pub data TableName : Type 0 where
  runtime_runs runtime_decisions runtime_attempts runtime_barriers : TableName

-- The run and, but for a run, the identifier
abbrev pub Key : Type 0
Key = ℕ × ℕ

abbrev pub key_eq : Key → Key → Bool
key_eq a b = (a.0 == b.0) && (a.1 == b.1)

pub record Table (Row : Type 0) : Type 0 where
  pub rows : List Row
  pub index : List (Key × ℕ)

-- The events are those of the run of the transaction.
pub record Memory (Row P J : Type 0) : Type 0 where
  pub runs : Table Row
  pub decisions : Table Row
  pub attempts : Table Row
  pub barriers : Table Row
  pub journal : List (ℕ × String)
  pub events : List P
  pub outbox : List J
  pub ledger : ObservationLedger J

-- One of the functions in the list `undo`
pub data Undo (Row : Type 0) : Type 0 where
  put_back : TableName → ℕ → Row → Undo Row
  take_off : TableName → Key → Undo Row
  pop_journal : Undo Row
  cut_events : ℕ → Undo Row
  cut_outbox : ℕ → Undo Row
  cut_deliveries : ℕ → Undo Row
  cut_assessments : ℕ → Undo Row
  forget_atom : ℕ → Undo Row

-- The undo list has its last entry first.
pub record MemoryTransaction (Row P J : Type 0) : Type 0 where
  pub readonly : Bool
  pub undo : List (Undo Row)
  pub memory : Memory Row P J

-- A call of the transaction
pub data Write (Row P J : Type 0) : Type 0 where
  put : TableName → Row → Write Row P J
  note : ℕ → String → Write Row P J
  append : ℕ → List P → List J → Write Row P J
  observe_all : Observed → List AssessmentRecord → Write Row P J

-- The body of a `with` statement: it returns, raises, makes a call, or reads the store.
pub data Block (Row P J V : Type 0) : Type 0 where
  done : V → Block Row P J V
  fails : Error → Block Row P J V
  calls : Write Row P J → Block Row P J V → Block Row P J V
  reads : (Memory Row P J → Block Row P J V) → Block Row P J V

-- The fields of a row that are its key, and what `append_batch` adds to the stored events, or raises.
pub record Backing (Row P : Type 0) : Type 0 where
  pub key_of : TableName → Row → Key
  pub linked_batch : ℕ → List P → List P → Result (List P)

unfoldable pub position_of : Key → List (Key × ℕ) → Option ℕ
position_of key [] = none
position_of key (entry ∷ index) = if key_eq entry.0 key then some entry.1 else position_of key index

unfoldable pub without_key : Key → List (Key × ℕ) → List (Key × ℕ)
without_key key [] = []
without_key key (entry ∷ index) =
    if key_eq entry.0 key then index else entry ∷ without_key key index

module _ {A : Type 0} where
  unfoldable pub row_at : ℕ → List A → Option A
  row_at n [] = none
  row_at zero (x ∷ xs) = some x
  row_at (suc n) (x ∷ xs) = row_at n xs

  unfoldable pub set_at : ℕ → A → List A → List A
  set_at n a [] = []
  set_at zero a (x ∷ xs) = a ∷ xs
  set_at (suc n) a (x ∷ xs) = x ∷ set_at n a xs

  -- `rows.pop()`
  unfoldable pub without_last : List A → List A
  without_last [] = []
  without_last (x ∷ []) = []
  without_last (x ∷ y ∷ ys) = x ∷ without_last (y ∷ ys)

  -- `del rows[n:]`
  unfoldable pub cut : ℕ → List A → List A
  cut zero xs = []
  cut (suc n) [] = []
  cut (suc n) (x ∷ xs) = x ∷ cut n xs

-- `_atoms.pop(atom_id, None)`
unfoldable pub without_atom : {V : Type 0} → ℕ → Dict V → Dict V
without_atom id [] = []
without_atom id (entry ∷ rest) = if id == entry.0 then rest else entry ∷ without_atom id rest

module _ {Row : Type 0} where
  unfoldable pub replaced : ℕ → Row → Table Row → Table Row
  replaced p row t = record t { rows = set_at p row t.rows }

  unfoldable pub extended : Key → Row → Table Row → Table Row
  extended key row t = record {
    rows = t.rows ++ row ∷ [];
    index = t.index ++ (key, length t.rows) ∷ [];
  }

  unfoldable pub shortened : Key → Table Row → Table Row
  shortened key t = record { rows = without_last t.rows; index = without_key key t.index }

-- What a call comes to: it returns or raises, and leaves a session.
abbrev pub Outcome : Type 0 → Type 0 → Type 0 → Type 0
Outcome Row P J = Result (Unit {0}) × MemoryTransaction Row P J

module _ {Row P J : Type 0} where
  unfoldable pub table : TableName → Memory Row P J → Table Row
  table runtime_runs m = m.runs
  table runtime_decisions m = m.decisions
  table runtime_attempts m = m.attempts
  table runtime_barriers m = m.barriers

  unfoldable pub set_table : TableName → Table Row → Memory Row P J → Memory Row P J
  set_table runtime_runs t m = record m { runs = t }
  set_table runtime_decisions t m = record m { decisions = t }
  set_table runtime_attempts t m = record m { attempts = t }
  set_table runtime_barriers t m = record m { barriers = t }

  unfoldable pub undo_one : Undo Row → Memory Row P J → Memory Row P J
  undo_one (put_back name p old) m = set_table name (replaced p old (table name m)) m
  undo_one (take_off name key) m = set_table name (shortened key (table name m)) m
  undo_one pop_journal m = record m { journal = without_last m.journal }
  undo_one (cut_events n) m = record m { events = cut n m.events }
  undo_one (cut_outbox n) m = record m { outbox = cut n m.outbox }
  undo_one (cut_deliveries n) m = record m {
    ledger = record (m.ledger) { deliveries = cut n m.ledger.deliveries };
  }
  undo_one (cut_assessments n) m = record m {
    ledger = record (m.ledger) { assessments = cut n m.ledger.assessments };
  }
  undo_one (forget_atom id) m = record m {
    ledger = record (m.ledger) { atoms = without_atom id m.ledger.atoms };
  }

  unfoldable pub rollback : List (Undo Row) → Memory Row P J → Memory Row P J
  rollback [] m = m
  rollback (u ∷ undo) m = rollback undo (undo_one u m)

  -- `_remember`, and then the write
  unfoldable pub remember : Undo Row → Memory Row P J → MemoryTransaction Row P J → Outcome Row P J
  remember u next tx =
      if tx.readonly
      then (err (ledger_error "READ_ONLY_TRANSACTION"), tx)
      else (ok tt, record tx { undo = u ∷ tx.undo; memory = next })
