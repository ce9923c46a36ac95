-- ===== src/Runtime/Memory/Calls.antt =====
-- The calls of a transaction of the in-memory store, with the undo list that they leave, and the
-- transaction itself (persistence/runtime.py).
use auto_options_call_debit.Common.{Bool, Option, none, some, List, [], ◌∷◌, ◌++◌, if◌then◌else◌}
use auto_options_call_debit.Common.Outcome.{
  ◌>>◌, Result, ledger_error, harness_error, key_error, err, ok,
}
use auto_options_call_debit.Common.Lists.{length}
use auto_options_call_debit.Common.Dict.{lookup}
use auto_options_call_debit.Knowledge.{Atom, Delivery}
use auto_options_call_debit.Knowledge.Observations.{
  atom_eq, put_atom, AssessmentRecord, ObservationLedger,
}
use auto_options_call_debit.Runtime.Barriers.{runtime_time, Observed}
use auto_options_call_debit.Runtime.Memory.{
  Key, position_of, row_at, replaced, extended, Outcome, table, set_table, rollback, remember,
  TableName, Memory, MemoryTransaction, Write, Block, Backing, put_back, take_off, pop_journal,
  cut_events, cut_outbox, cut_deliveries, cut_assessments, forget_atom, put, note, append,
  observe_all, done, fails, calls, reads,
}
use auto_options_call_debit.Runtime.Memory.Loops.{deliver_each, assess_each}
use auto_options_call_debit.Common.{ℕ}

-- `_typed_atom`
unfoldable pub typed_atom : Atom → Result (Unit {0})
typed_atom a = do
  runtime_time a.published_at
  runtime_time a.available_at
  runtime_time a.subject_at

module _ {Row P J : Type 0} where
  -- `put`, by the row that the index leads to
  unfoldable pub put_over :
      TableName → Row → ℕ → Option Row → MemoryTransaction Row P J → Outcome Row P J
  put_over name row p none tx = (err key_error, tx)
  put_over name row p (some old) tx =
      remember (put_back name p old)
        (set_table name (replaced p row (table name tx.memory)) tx.memory) tx

  unfoldable pub put_at :
      Key → TableName → Row → Option ℕ → MemoryTransaction Row P J → Outcome Row P J
  put_at key name row none tx =
      remember (take_off name key)
        (set_table name (extended key row (table name tx.memory)) tx.memory) tx
  put_at key name row (some p) tx = put_over name row p (row_at p (table name tx.memory).rows) tx

  unfoldable pub add_events : Result (List P) → MemoryTransaction Row P J → Outcome Row P J
  add_events (err e) tx = (err e, tx)
  add_events (ok linked) tx =
      (ok tt, record tx { memory = record (tx.memory) { events = tx.memory.events ++ linked } })

  unfoldable pub append_events_to :
      Backing Row P → ℕ → List P → MemoryTransaction Row P J → Outcome Row P J
  append_events_to b seq [] tx = (ok tt, tx)
  append_events_to b seq (e ∷ es) tx =
      if tx.readonly
      then (err (ledger_error "READ_ONLY_TRANSACTION"), tx)
      else add_events (b.linked_batch seq tx.memory.events (e ∷ es))
          (record tx { undo = cut_events (length tx.memory.events) ∷ tx.undo })

  unfoldable pub add_outbox : List J → MemoryTransaction Row P J → Outcome Row P J
  add_outbox [] tx = (ok tt, tx)
  add_outbox (x ∷ xs) tx =
      remember (cut_outbox (length tx.memory.outbox))
        (record (tx.memory) { outbox = tx.memory.outbox ++ x ∷ xs }) tx

  unfoldable pub then_outbox : Outcome Row P J → List J → Outcome Row P J
  then_outbox (err e, tx) more = (err e, tx)
  then_outbox (ok _, tx) more = add_outbox more tx

  -- A call, and what follows on it if it returned
  unfoldable pub then_call :
      Outcome Row P J → (MemoryTransaction Row P J → Outcome Row P J) → Outcome Row P J
  then_call (err e, tx) rest = (err e, tx)
  then_call (ok _, tx) rest = rest tx

  -- A method of the ledger of observations: what it wrote stays also if it raised.
  unfoldable pub with_ledger :
      {A : Type 0} → Result A × ObservationLedger J → MemoryTransaction Row P J → Outcome Row P J
  with_ledger (err e, led) tx = (err e, record tx { memory = record (tx.memory) { ledger = led } })
  with_ledger (ok _, led) tx = (ok tt, record tx { memory = record (tx.memory) { ledger = led } })

  -- `if observations.get("deliveries")`, and `if assessments`
  unfoldable pub remember_deliveries : List Delivery → MemoryTransaction Row P J → Outcome Row P J
  remember_deliveries [] tx = (ok tt, tx)
  remember_deliveries (d ∷ ds) tx =
      remember (cut_deliveries (length tx.memory.ledger.deliveries)) tx.memory tx

  unfoldable pub remember_assessments :
      List AssessmentRecord → MemoryTransaction Row P J → Outcome Row P J
  remember_assessments [] tx = (ok tt, tx)
  remember_assessments (r ∷ rs) tx =
      remember (cut_assessments (length tx.memory.ledger.assessments)) tx.memory tx

  -- An atom that is new, or known
  unfoldable pub add_known : Atom → Option Atom → MemoryTransaction Row P J → Outcome Row P J
  add_known a none tx =
      then_call (remember (forget_atom a.atom_id) tx.memory tx)
        (λ later. with_ledger (put_atom a later.memory.ledger) later)
  add_known a (some previous) tx =
      if atom_eq previous a
      then with_ledger (put_atom a tx.memory.ledger) tx
      else (err (harness_error "ATOM_IDENTITY_CONFLICT"), tx)

  unfoldable pub add_typed : Result (Unit {0}) → Atom → MemoryTransaction Row P J → Outcome Row P J
  add_typed (err e) a tx = (err e, tx)
  add_typed (ok _) a tx = add_known a (lookup a.atom_id tx.memory.ledger.atoms) tx

  unfoldable pub add_atoms : List Atom → MemoryTransaction Row P J → Outcome Row P J
  add_atoms [] tx = (ok tt, tx)
  add_atoms (a ∷ others) tx = then_call (add_typed (typed_atom a) a tx) (add_atoms others)

  -- `observations`
  unfoldable pub add_observed :
      Observed → List AssessmentRecord → MemoryTransaction Row P J → Outcome Row P J
  add_observed obs recs tx = then_call (remember_deliveries obs.deliveries tx) (λ t1.
      then_call (remember_assessments recs t1) (λ t2. then_call (add_atoms obs.atoms t2) (λ t3.
        then_call (with_ledger (deliver_each obs.deliveries t3.memory.ledger) t3)
          (λ t4. with_ledger (assess_each recs t4.memory.ledger) t4))))

  unfoldable pub write : Backing Row P → Write Row P J → MemoryTransaction Row P J → Outcome Row P J
  write b (put name row) tx =
      put_at (b.key_of name row) name row
        (position_of (b.key_of name row) (table name tx.memory).index) tx
  write b (note run kind) tx =
      remember pop_journal (record (tx.memory) { journal = tx.memory.journal ++ (run, kind) ∷ [] })
        tx
  write b (append seq batch more) tx = then_outbox (append_events_to b seq batch tx) more
  write b (observe_all obs recs) tx = add_observed obs recs tx

module _ {Row P J V : Type 0} where
  -- A call that raised ends the body.
  unfoldable pub proceed :
      Outcome Row P J
      → (MemoryTransaction Row P J → Result V × MemoryTransaction Row P J)
      → Result V × MemoryTransaction Row P J
  proceed (err e, tx) rest = (err e, tx)
  proceed (ok _, tx) rest = rest tx

  unfoldable pub run_body :
      Backing Row P
      → Block Row P J V
      → MemoryTransaction Row P J
      → Result V × MemoryTransaction Row P J
  run_body b (done v) tx = (ok v, tx)
  run_body b (fails e) tx = (err e, tx)
  run_body b (calls w rest) tx = proceed (write b w tx) (run_body b rest)
  run_body b (reads rest) tx = run_body b (rest tx.memory) tx

  unfoldable pub closed : Result V × MemoryTransaction Row P J → Result V × Memory Row P J
  closed (err e, tx) = (err e, rollback tx.undo tx.memory)
  closed (ok v, tx) = (ok v, tx.memory)

  -- `InMemoryRunStore._transaction`
  unfoldable pub transaction :
      Backing Row P → Bool → Block Row P J V → Memory Row P J → Result V × Memory Row P J
  transaction b readonly body m =
      closed (run_body b body (record { readonly = readonly; undo = []; memory = m }))
