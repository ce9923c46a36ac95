-- ===== src/Runtime/Memory/Atomic.antt =====
-- What a transaction promises: all of its writes or none (persistence/runtime.py). Here a body computes
-- the next store, and nothing is ever undone.
use auto_options_call_debit.Common.Outcome.{harness_error}
use auto_options_call_debit.Common.Dict.{lookup}
use auto_options_call_debit.Knowledge.{Atom}
use auto_options_call_debit.Knowledge.Observations.{
  atom_eq, put_atom, AssessmentRecord, ObservationLedger,
}
use auto_options_call_debit.Runtime.Barriers.{Observed}
use auto_options_call_debit.Runtime.Memory.{observe_all}
use auto_options_call_debit.Runtime.Memory.Loops.{deliver_each, assess_each}
use auto_options_call_debit.Runtime.Memory.Calls.{typed_atom}
use auto_options_call_debit.Common.{Bool, Option, none, some, List, [], ◌∷◌, ◌++◌, if◌then◌else◌}
use auto_options_call_debit.Common.Outcome.{◌>>=◌, Result, ledger_error, key_error, err, ok}
use auto_options_call_debit.Runtime.Memory.{
  Key, position_of, row_at, table, set_table, replaced, extended, TableName, Memory, Write, Block,
  Backing, put, note, append, done, fails, calls, reads,
}
use auto_options_call_debit.Common.{ℕ}

module _ {Row P J : Type 0} where
  unfoldable pub allowed : Bool → Memory Row P J → Result (Memory Row P J)
  allowed readonly m = if readonly then err (ledger_error "READ_ONLY_TRANSACTION") else ok m

  unfoldable pub over_row :
      Bool → TableName → Row → ℕ → Option Row → Memory Row P J → Result (Memory Row P J)
  over_row readonly name row p none m = err key_error
  over_row readonly name row p (some old) m =
      allowed readonly (set_table name (replaced p row (table name m)) m)

  unfoldable pub with_row :
      Bool → Key → TableName → Row → Option ℕ → Memory Row P J → Result (Memory Row P J)
  with_row readonly key name row none m =
      allowed readonly (set_table name (extended key row (table name m)) m)
  with_row readonly key name row (some p) m =
      over_row readonly name row p (row_at p (table name m).rows) m

  unfoldable pub with_linked : Result (List P) → Memory Row P J → Result (Memory Row P J)
  with_linked (err e) m = err e
  with_linked (ok linked) m = ok (record m { events = m.events ++ linked })

  unfoldable pub with_batch :
      Backing Row P → Bool → ℕ → List P → Memory Row P J → Result (Memory Row P J)
  with_batch b readonly seq [] m = ok m
  with_batch b readonly seq (e ∷ es) m =
      if readonly
      then err (ledger_error "READ_ONLY_TRANSACTION")
      else with_linked (b.linked_batch seq m.events (e ∷ es)) m

  unfoldable pub with_outbox : Bool → List J → Memory Row P J → Result (Memory Row P J)
  with_outbox readonly [] m = ok m
  with_outbox readonly (x ∷ xs) m = allowed readonly (record m { outbox = m.outbox ++ x ∷ xs })

  unfoldable pub with_any : {A : Type 0} → Bool → List A → Memory Row P J → Result (Memory Row P J)
  with_any readonly [] m = ok m
  with_any readonly (x ∷ xs) m = allowed readonly m

  -- The store with the ledger of observations that a method leaves if it returns
  unfoldable pub with_returned :
      {A : Type 0} → Result A × ObservationLedger J → Memory Row P J → Result (Memory Row P J)
  with_returned (err e, led) m = err e
  with_returned (ok _, led) m = ok (record m { ledger = led })

  unfoldable pub with_known : Bool → Atom → Option Atom → Memory Row P J → Result (Memory Row P J)
  with_known readonly a none m =
      allowed readonly m >>= λ next. with_returned (put_atom a next.ledger) next
  with_known readonly a (some previous) m =
      if atom_eq previous a
      then with_returned (put_atom a m.ledger) m
      else err (harness_error "ATOM_IDENTITY_CONFLICT")

  unfoldable pub with_typed :
      Bool → Result (Unit {0}) → Atom → Memory Row P J → Result (Memory Row P J)
  with_typed readonly (err e) a m = err e
  with_typed readonly (ok _) a m = with_known readonly a (lookup a.atom_id m.ledger.atoms) m

  unfoldable pub with_atoms : Bool → List Atom → Memory Row P J → Result (Memory Row P J)
  with_atoms readonly [] m = ok m
  with_atoms readonly (a ∷ others) m =
      with_typed readonly (typed_atom a) a m >>= λ next. with_atoms readonly others next

  unfoldable pub with_observed :
      Bool → Observed → List AssessmentRecord → Memory Row P J → Result (Memory Row P J)
  with_observed readonly obs recs m = with_any readonly obs.deliveries m >>= λ m1.
      with_any readonly recs m1 >>= λ m2. with_atoms readonly obs.atoms m2 >>= λ m3.
      with_returned (deliver_each obs.deliveries m3.ledger) m3 >>= λ m4.
      with_returned (assess_each recs m4.ledger) m4

  unfoldable pub written :
      Backing Row P → Bool → Write Row P J → Memory Row P J → Result (Memory Row P J)
  written b readonly (put name row) m =
      with_row readonly (b.key_of name row) name row
        (position_of (b.key_of name row) (table name m).index) m
  written b readonly (note run kind) m =
      allowed readonly (record m { journal = m.journal ++ (run, kind) ∷ [] })
  written b readonly (append seq batch more) m =
      with_batch b readonly seq batch m >>= λ next. with_outbox readonly more next
  written b readonly (observe_all obs recs) m = with_observed readonly obs recs m

module _ {Row P J V : Type 0} where
  unfoldable pub computed :
      Backing Row P → Bool → Block Row P J V → Memory Row P J → Result (V × Memory Row P J)
  computed b readonly (done v) m = ok (v, m)
  computed b readonly (fails e) m = err e
  computed b readonly (calls w rest) m =
      written b readonly w m >>= λ next. computed b readonly rest next
  computed b readonly (reads rest) m = computed b readonly (rest m) m

  -- The next store, or the store as it was
  unfoldable pub all_or_none :
      Memory Row P J → Result (V × Memory Row P J) → Result V × Memory Row P J
  all_or_none m (err e) = (err e, m)
  all_or_none m (ok next) = (ok next.0, next.1)

  unfoldable pub atomically :
      Backing Row P → Bool → Block Row P J V → Memory Row P J → Result V × Memory Row P J
  atomically b readonly body m = all_or_none m (computed b readonly body m)
