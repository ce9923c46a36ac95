-- ===== src/Runtime/Memory/Keeping.antt =====
-- What the steps of `observations` keep: the undo list leads back, also after more was added
-- (persistence/runtime.py).
use auto_options_call_debit.Common.{
  ◌≡◌, refl, sym, ap, ◌∙◌, Bool, true, false, List, [], ◌∷◌, ◌++◌, if◌then◌else◌,
}
use auto_options_call_debit.Knowledge.{Delivery}
use auto_options_call_debit.Knowledge.Observations.{AssessmentRecord, ObservationLedger}
use auto_options_call_debit.Runtime.Memory.{
  Outcome, undo_one, rollback, remember, Memory, Undo, MemoryTransaction,
}
use auto_options_call_debit.Runtime.Memory.Calls.{
  then_call, with_ledger, remember_deliveries, remember_assessments,
}
use auto_options_call_debit.Runtime.Memory.Atomic.{allowed, with_any, with_returned}
use auto_options_call_debit.Runtime.Memory.Grown.{append_nil, any, grow, grow_nothing}
use auto_options_call_debit.Runtime.Memory.Undone.{cut-append}
use auto_options_call_debit.Common.Outcome.{◌>>=◌, Error, Result, err, ok}
use mathlib.Core.Path.{subst}

module _ {Row P J : Type 0} where
  -- The undo list leads back to `base` also after deliveries were added, where the first test holds, and
  -- assessments, where the second one does.
  abbrev pub CanGrow : Bool → Bool → Memory Row P J → MemoryTransaction Row P J → Type 0
  CanGrow d r base tx =
      (ds : List Delivery) (rs : List AssessmentRecord)
      → (d ≡ false → ds ≡ [])
      → (r ≡ false → rs ≡ [])
      → rollback tx.undo (record (tx.memory) { ledger = grow ds rs tx.memory.ledger }) ≡ base

  unfoldable pub Kept :
      Bool → Bool → Memory Row P J → Bool → Outcome Row P J → Result (Memory Row P J) → Type 0
  Kept d r base readonly (err e, after) plain =
      (rollback after.undo after.memory ≡ base) × (plain ≡ err e)
  Kept d r base readonly (ok _, after) plain =
      CanGrow d r base after × (plain ≡ ok after.memory) × (after.readonly ≡ readonly)

  pub back_of :
      (d r : Bool) (base : Memory Row P J) (tx : MemoryTransaction Row P J)
      → CanGrow d r base tx
      → rollback tx.undo tx.memory ≡ base
  back_of d r base tx grows =
      ap (λ (l : ObservationLedger J). rollback tx.undo (record (tx.memory) { ledger = l }))
        (sym (grow_nothing tx.memory.ledger))
      ∙ grows [] [] (λ _. refl) (λ _. refl)

  pub then_call-Kept :
      (d r d' r' : Bool) (base : Memory Row P J) (readonly : Bool) (o : Outcome Row P J)
      (f : MemoryTransaction Row P J → Outcome Row P J) (p : Result (Memory Row P J))
      (q : Bool → Memory Row P J → Result (Memory Row P J))
      → Kept d r base readonly o p
      → ((t : MemoryTransaction Row P J)
          → CanGrow d r base t
          → Kept d' r' base t.readonly (f t) (q t.readonly t.memory))
      → Kept d' r' base readonly (then_call o f) (p >>= q readonly)
  unfolding Kept then_call
  then_call-Kept d r d' r' base readonly (err e, after) f p q (back, raised) deeper =
      rw raised (back, refl)
  then_call-Kept d r d' r' base readonly (ok _, after) f p q (grows, returned, same) deeper =
      rw returned (
        subst (λ (z : Bool). Kept d' r' base z (f after) (q z after.memory)) same
          (deeper after grows))

  pub choice-Kept :
      (d r : Bool) (base : Memory Row P J) (readonly : Bool) (test : Bool) (o o' : Outcome Row P J)
      (p p' : Result (Memory Row P J))
      → Kept d r base readonly o p
      → Kept d r base readonly o' p'
      → Kept d r base readonly (if test then o else o') (if test then p else p')
  choice-Kept d r base readonly true o o' p p' first second = first
  choice-Kept d r base readonly false o o' p p' first second = second

  pub refused-Kept :
      (d r : Bool) (base : Memory Row P J) (tx : MemoryTransaction Row P J) (e : Error)
      → CanGrow d r base tx
      → Kept d r base tx.readonly (err e, tx) (err e)
  unfolding Kept
  refused-Kept d r base tx e grows = (back_of d r base tx grows, refl)

  pub passed-Kept :
      (d r : Bool) (base : Memory Row P J) (tx : MemoryTransaction Row P J)
      → CanGrow d r base tx
      → Kept d r base tx.readonly (ok tt, tx) (ok tx.memory)
  unfolding Kept
  passed-Kept d r base tx grows = (grows, refl, refl)

  remembered-Kept :
      (d r : Bool) (base : Memory Row P J) (tx : MemoryTransaction Row P J) (u : Undo Row)
      → rollback tx.undo tx.memory ≡ base
      → CanGrow d r base (record tx { undo = u ∷ tx.undo })
      → Kept d r base tx.readonly (remember u tx.memory tx) (allowed tx.readonly tx.memory)
  unfolding remember allowed Kept
  remembered-Kept d r base tx u back grows =
      choice-Kept d r base tx.readonly tx.readonly _ _ _ _ (back, refl) (grows, refl, refl)

  pub remember_deliveries-Kept :
      (r : Bool) (base : Memory Row P J) (ds : List Delivery) (tx : MemoryTransaction Row P J)
      → CanGrow false r base tx
      → Kept
          (any ds)
          r
          base
          tx.readonly
          (remember_deliveries ds tx)
          (with_any tx.readonly ds tx.memory)
  unfolding remember_deliveries with_any rollback undo_one
  remember_deliveries-Kept r base [] tx grows = passed-Kept false r base tx grows
  remember_deliveries-Kept r base (d ∷ ds) tx grows =
      remembered-Kept true r base tx _ (back_of false r base tx grows) (λ xs ys nd nr.
        ap
          (λ (t : List Delivery). rollback tx.undo (record (tx.memory) {
            ledger = record (tx.memory.ledger) {
              deliveries = t;
              assessments = tx.memory.ledger.assessments ++ ys;
            };
          }))
          (cut-append tx.memory.ledger.deliveries xs ∙ sym (append_nil tx.memory.ledger.deliveries))
        ∙ grows [] ys (λ _. refl) nr)

  pub remember_assessments-Kept :
      (d : Bool) (base : Memory Row P J) (rs : List AssessmentRecord)
      (tx : MemoryTransaction Row P J)
      → CanGrow d false base tx
      → Kept d
          (any rs)
          base
          tx.readonly
          (remember_assessments rs tx)
          (with_any tx.readonly rs tx.memory)
  unfolding remember_assessments with_any rollback undo_one
  remember_assessments-Kept d base [] tx grows = passed-Kept d false base tx grows
  remember_assessments-Kept d base (r ∷ rs) tx grows =
      remembered-Kept d true base tx _ (back_of d false base tx grows) (λ xs ys nd nr.
        ap
          (λ (t : List AssessmentRecord). rollback tx.undo (record (tx.memory) {
            ledger = record (tx.memory.ledger) {
              deliveries = tx.memory.ledger.deliveries ++ xs;
              assessments = t;
            };
          }))
          (cut-append tx.memory.ledger.assessments ys
            ∙ sym (append_nil tx.memory.ledger.assessments))
        ∙ grows xs [] nd (λ _. refl))

  pub ledger-Kept :
      {A : Type 0}
      → (d r : Bool) (base : Memory Row P J) (tx : MemoryTransaction Row P J)
        (p : Result A × ObservationLedger J)
      → CanGrow d r base (record tx { memory = record (tx.memory) { ledger = p.1 } })
      → Kept d r base tx.readonly (with_ledger p tx) (with_returned p tx.memory)
  unfolding with_ledger with_returned Kept
  ledger-Kept d r base tx (err e, led) grows =
      (back_of d r base (record tx { memory = record (tx.memory) { ledger = led } }) grows, refl)
  ledger-Kept d r base tx (ok _, led) grows = (grows, refl, refl)
