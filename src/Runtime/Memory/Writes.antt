-- ===== src/Runtime/Memory/Writes.antt =====
-- Each call of a transaction, against the atomic one, with the undo list that it leaves
-- (persistence/runtime.py).
use auto_options_call_debit.Knowledge.{Delivery}
use auto_options_call_debit.Knowledge.Observations.{AssessmentRecord, ObservationLedger}
use auto_options_call_debit.Runtime.Memory.{
  Key, position_of, row_at, Outcome, table, undo_one, rollback, remember, TableName, Memory, Undo,
  MemoryTransaction, Write, Backing, put_back, take_off, pop_journal, cut_events, cut_outbox, put,
  note, append, observe_all,
}
use auto_options_call_debit.Runtime.Memory.Calls.{
  put_over, put_at, add_events, append_events_to, add_outbox, then_outbox, write,
}
use auto_options_call_debit.Runtime.Memory.Grown.{grow, grow_nothing}
use auto_options_call_debit.Runtime.Memory.Keeping.{CanGrow, Kept, back_of}
use auto_options_call_debit.Runtime.Memory.Observing.{add_observed-Kept}
use auto_options_call_debit.Common.{
  ◌≡◌, refl, ap, ◌∙◌, inl, inr, Bool, Option, none, some, List, [], ◌∷◌, Bool-cases,
}
use auto_options_call_debit.Common.Outcome.{◌>>=◌, Error, Result, ledger_error, key_error, err, ok}
use auto_options_call_debit.Common.Lists.{length}
use auto_options_call_debit.Runtime.Memory.Atomic.{
  allowed, over_row, with_row, with_linked, with_batch, with_outbox, written,
}
use auto_options_call_debit.Runtime.Memory.Undone.{
  put_back_lem, take_off_lem, outbox_back, events_back, none_cut, journal_back,
}
use mathlib.Core.Path.{subst}
use auto_options_call_debit.Common.{ℕ}
use auto_options_call_debit.Common.{if◌then◌else◌, true, false}

module _ {Row P J : Type 0} where
  -- The outcome of a call is what the atomic one comes to, and its undo list leads back.
  unfoldable pub Matches :
      MemoryTransaction Row P J → Outcome Row P J → Result (Memory Row P J) → Type 0
  Matches tx (err e, after) plain =
      (rollback after.undo after.memory ≡ rollback tx.undo tx.memory) × (plain ≡ err e)
  Matches tx (ok _, after) plain =
      (rollback after.undo after.memory ≡ rollback tx.undo tx.memory)
      × (plain ≡ ok after.memory)
      × (after.readonly ≡ tx.readonly)

  remember-Matches :
      (u : Undo Row) (next : Memory Row P J) (tx : MemoryTransaction Row P J)
      → undo_one u next ≡ tx.memory
      → Matches tx (remember u next tx) (allowed tx.readonly next)
  unfolding Matches remember allowed rollback
  remember-Matches u next tx back = elim (Bool-cases tx.readonly) [
    | inl readonly ↦ rw readonly (refl, refl)
    | inr writes ↦ rw writes (ap (rollback tx.undo) back, refl, refl)
  ]

  unchanged : (tx : MemoryTransaction Row P J) (e : Error) → Matches tx (err e, tx) (err e)
  unfolding Matches
  unchanged tx e = (refl, refl)

  passed : (tx : MemoryTransaction Row P J) → Matches tx (ok tt, tx) (ok tx.memory)
  unfolding Matches
  passed tx = (refl, refl, refl)

  -- What leads back from a later session leads back from an earlier one.
  carried :
      (tx after : MemoryTransaction Row P J)
      → rollback after.undo after.memory ≡ rollback tx.undo tx.memory
      → after.readonly ≡ tx.readonly
      → (outcome : Outcome Row P J) (plain : Result (Memory Row P J)) → Matches after outcome plain
      → Matches tx outcome plain
  unfolding Matches
  carried tx after back same (err e, last) plain (later, raised) = (later ∙ back, raised)
  carried tx after back same (ok _, last) plain (later, returned, kept) =
      (later ∙ back, returned, kept ∙ same)

  put_over-Matches :
      (name : TableName) (row : Row) (p : ℕ) (found : Option Row) (tx : MemoryTransaction Row P J)
      → row_at p (table name tx.memory).rows ≡ found
      → Matches tx (put_over name row p found tx) (over_row tx.readonly name row p found tx.memory)
  unfolding put_over over_row
  put_over-Matches name row p none tx h = unchanged tx key_error
  put_over-Matches name row p (some old) tx h =
      remember-Matches (put_back name p old) _ tx (put_back_lem name p old row tx.memory h)

  put_at-Matches :
      (key : Key) (name : TableName) (row : Row) (found : Option ℕ) (tx : MemoryTransaction Row P J)
      → position_of key (table name tx.memory).index ≡ found
      → Matches tx
          (put_at key name row found tx)
          (with_row tx.readonly key name row found tx.memory)
  unfolding put_at with_row
  put_at-Matches key name row none tx h =
      remember-Matches (take_off name key) _ tx (take_off_lem name key row tx.memory h)
  put_at-Matches key name row (some p) tx h = put_over-Matches name row p _ tx refl

  add_outbox-Matches :
      (more : List J) (tx : MemoryTransaction Row P J)
      → Matches tx (add_outbox more tx) (with_outbox tx.readonly more tx.memory)
  unfolding add_outbox with_outbox
  add_outbox-Matches [] tx = passed tx
  add_outbox-Matches (x ∷ xs) tx =
      remember-Matches (cut_outbox (length tx.memory.outbox)) _ tx (outbox_back (x ∷ xs) tx.memory)

  add_events-Matches :
      (linked : Result (List P)) (tx : MemoryTransaction Row P J)
      → Matches tx
          (add_events linked (record tx { undo = cut_events (length tx.memory.events) ∷ tx.undo }))
          (with_linked linked tx.memory)
  unfolding Matches add_events with_linked rollback
  add_events-Matches (err e) tx = (ap (rollback tx.undo) (none_cut tx.memory), refl)
  add_events-Matches (ok linked) tx =
      (ap (rollback tx.undo) (events_back linked tx.memory), refl, refl)

  choice-Matches :
      (test : Bool) (tx : MemoryTransaction Row P J) (o o' : Outcome Row P J)
      (p p' : Result (Memory Row P J))
      → Matches tx o p
      → Matches tx o' p'
      → Matches tx (if test then o else o') (if test then p else p')
  choice-Matches true tx o o' p p' first second = first
  choice-Matches false tx o o' p p' first second = second

  append_events_to-Matches :
      (b : Backing Row P) (seq : ℕ) (batch : List P) (tx : MemoryTransaction Row P J)
      → Matches tx (append_events_to b seq batch tx) (with_batch b tx.readonly seq batch tx.memory)
  unfolding append_events_to with_batch
  append_events_to-Matches b seq [] tx = passed tx
  append_events_to-Matches b seq (e ∷ es) tx =
      choice-Matches tx.readonly tx _ _ _ _ (unchanged tx (ledger_error "READ_ONLY_TRANSACTION"))
        (add_events-Matches (b.linked_batch seq tx.memory.events (e ∷ es)) tx)

  then_outbox-Matches :
      (tx : MemoryTransaction Row P J) (outcome : Outcome Row P J) (plain : Result (Memory Row P J))
      (more : List J)
      → Matches tx outcome plain
      → Matches tx (then_outbox outcome more) (plain >>= λ next. with_outbox tx.readonly more next)
  unfolding Matches then_outbox
  then_outbox-Matches tx (err e, after) plain more (back, raised) = rw raised (back, refl)
  then_outbox-Matches tx (ok _, after) plain more (back, returned, same) = rw returned (
      subst (λ (ro : Bool). Matches tx (add_outbox more after) (with_outbox ro more after.memory))
        same
        (carried tx after back same (add_outbox more after)
          (with_outbox after.readonly more after.memory) (add_outbox-Matches more after)))

  Kept-Matches :
      (tx : MemoryTransaction Row P J) (o : Outcome Row P J) (plain : Result (Memory Row P J))
      → Kept false false (rollback tx.undo tx.memory) tx.readonly o plain
      → Matches tx o plain
  unfolding Kept Matches
  Kept-Matches tx (err e, after) plain (back, raised) = (back, raised)
  Kept-Matches tx (ok _, after) plain (grows, returned, same) =
      (back_of false false (rollback tx.undo tx.memory) after grows, returned, same)

  -- Nothing is to be added: the undo list leads back.
  nothing_grows :
      (tx : MemoryTransaction Row P J) → CanGrow false false (rollback tx.undo tx.memory) tx
  nothing_grows tx ds rs no_ds no_rs =
      ap
        (λ (t : List Delivery).
          rollback tx.undo (record (tx.memory) { ledger = grow t rs tx.memory.ledger }))
        (no_ds refl)
      ∙ ap
          (λ (t : List AssessmentRecord).
            rollback tx.undo (record (tx.memory) { ledger = grow [] t tx.memory.ledger }))
          (no_rs refl)
      ∙ ap (λ (l : ObservationLedger J). rollback tx.undo (record (tx.memory) { ledger = l }))
          (grow_nothing tx.memory.ledger)

  pub write-Matches :
      (b : Backing Row P) (w : Write Row P J) (tx : MemoryTransaction Row P J)
      → Matches tx (write b w tx) (written b tx.readonly w tx.memory)
  unfolding write written
  write-Matches b (put name row) tx = put_at-Matches (b.key_of name row) name row _ tx refl
  write-Matches b (note run kind) tx =
      remember-Matches pop_journal _ tx (journal_back run kind tx.memory)
  write-Matches b (append seq batch more) tx =
      then_outbox-Matches tx (append_events_to b seq batch tx)
        (with_batch b tx.readonly seq batch tx.memory) more
        (append_events_to-Matches b seq batch tx)
  write-Matches b (observe_all obs recs) tx =
      Kept-Matches tx _ _
        (add_observed-Kept (rollback tx.undo tx.memory) obs recs tx (nothing_grows tx))
