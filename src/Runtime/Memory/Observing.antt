-- ===== src/Runtime/Memory/Observing.antt =====
-- The undo list of `observations` leads back, whichever of its steps raises (persistence/runtime.py).
use auto_options_call_debit.Common.{
  ◌≡◌, refl, ap, ◌∙◌, Bool, true, false, Option, none, some, List, [], ◌∷◌, ◌++◌, if◌then◌else◌,
}
use auto_options_call_debit.Common.Dict.{lookup}
use auto_options_call_debit.Knowledge.{Atom}
use auto_options_call_debit.Knowledge.Observations.{
  atom_eq, put_atom, AssessmentRecord, ObservationLedger,
}
use auto_options_call_debit.Runtime.Barriers.{Observed}
use auto_options_call_debit.Runtime.Memory.{
  undo_one, rollback, remember, Memory, MemoryTransaction, forget_atom,
}
use auto_options_call_debit.Runtime.Memory.Loops.{deliver_each, assess_each}
use auto_options_call_debit.Runtime.Memory.Calls.{
  typed_atom, then_call, with_ledger, remember_deliveries, remember_assessments, add_known,
  add_typed, add_atoms, add_observed,
}
use auto_options_call_debit.Runtime.Memory.Atomic.{
  allowed, with_any, with_returned, with_known, with_typed, with_atoms, with_observed,
}
use auto_options_call_debit.Runtime.Memory.Grown.{
  both_empty, any, grow, grow-grow, Grows, deliver_each-Grows, assess_each-Grows,
}
use auto_options_call_debit.Runtime.Memory.Forgotten.{put_new, put_known}
use auto_options_call_debit.Runtime.Memory.Keeping.{
  CanGrow, Kept, then_call-Kept, refused-Kept, passed-Kept, remember_deliveries-Kept,
  remember_assessments-Kept, ledger-Kept,
}
use auto_options_call_debit.Common.Action.{Action}
use auto_options_call_debit.Common.Outcome.{◌>>=◌, Result, err, ok, ledger_error, harness_error}

module _ {Row P J : Type 0} where
  new_atom-Kept :
      (d r : Bool) (base : Memory Row P J) (a : Atom) (tx : MemoryTransaction Row P J) (test : Bool)
      → lookup a.atom_id tx.memory.ledger.atoms ≡ none
      → CanGrow d r base tx
      → Kept d r base tx.readonly
          (then_call
            (if test then (err (ledger_error "READ_ONLY_TRANSACTION"), tx) else (
              ok tt,
              record tx { undo = forget_atom a.atom_id ∷ tx.undo; memory = tx.memory },
            ))
            (λ later. with_ledger (put_atom a later.memory.ledger) later))
          ((if test then err (ledger_error "READ_ONLY_TRANSACTION") else ok tx.memory) >>= λ next.
            with_returned (put_atom a next.ledger) next)
  unfolding then_call rollback undo_one
  new_atom-Kept d r base a tx true absent grows = refused-Kept d r base tx _ grows
  new_atom-Kept d r base a tx false absent grows =
      ledger-Kept d r base (record tx { undo = forget_atom a.atom_id ∷ tx.undo })
        (put_atom a tx.memory.ledger)
        (λ xs ys nd nr.
          ap
            (λ (l : ObservationLedger J).
              rollback tx.undo (record (tx.memory) { ledger = grow xs ys l }))
            (put_new a tx.memory.ledger absent)
          ∙ grows xs ys nd nr)

  known_atom-Kept :
      (d r : Bool) (base : Memory Row P J) (a previous : Atom) (tx : MemoryTransaction Row P J)
      (test : Bool)
      → atom_eq previous a ≡ test
      → lookup a.atom_id tx.memory.ledger.atoms ≡ some previous
      → CanGrow d r base tx
      → Kept d r base tx.readonly
          (if test
            then with_ledger (put_atom a tx.memory.ledger) tx
            else (err (harness_error "ATOM_IDENTITY_CONFLICT"), tx))
          (if test
            then with_returned (put_atom a tx.memory.ledger) tx.memory
            else err (harness_error "ATOM_IDENTITY_CONFLICT"))
  known_atom-Kept d r base a previous tx true same found grows =
      ledger-Kept d r base tx (put_atom a tx.memory.ledger) (λ xs ys nd nr.
        ap
          (λ (l : ObservationLedger J).
            rollback tx.undo (record (tx.memory) { ledger = grow xs ys l }))
          (put_known a previous tx.memory.ledger found same)
        ∙ grows xs ys nd nr)
  known_atom-Kept d r base a previous tx false same found grows = refused-Kept d r base tx _ grows

  add_known-Kept :
      (d r : Bool) (base : Memory Row P J) (a : Atom) (found : Option Atom)
      (tx : MemoryTransaction Row P J)
      → lookup a.atom_id tx.memory.ledger.atoms ≡ found
      → CanGrow d r base tx
      → Kept d r base tx.readonly (add_known a found tx) (with_known tx.readonly a found tx.memory)
  unfolding add_known with_known remember allowed
  add_known-Kept d r base a none tx absent grows =
      new_atom-Kept d r base a tx tx.readonly absent grows
  add_known-Kept d r base a (some previous) tx found grows =
      known_atom-Kept d r base a previous tx (atom_eq previous a) refl found grows

  add_typed-Kept :
      (d r : Bool) (base : Memory Row P J) (typed : Result (Unit {0})) (a : Atom)
      (tx : MemoryTransaction Row P J)
      → CanGrow d r base tx
      → Kept d r base tx.readonly (add_typed typed a tx) (with_typed tx.readonly typed a tx.memory)
  unfolding add_typed with_typed
  add_typed-Kept d r base (err e) a tx grows = refused-Kept d r base tx e grows
  add_typed-Kept d r base (ok _) a tx grows = add_known-Kept d r base a _ tx refl grows

  add_atoms-Kept :
      (d r : Bool) (base : Memory Row P J) (atoms : List Atom) (tx : MemoryTransaction Row P J)
      → CanGrow d r base tx
      → Kept d r base tx.readonly (add_atoms atoms tx) (with_atoms tx.readonly atoms tx.memory)
  unfolding add_atoms with_atoms
  add_atoms-Kept d r base [] tx grows = passed-Kept d r base tx grows
  add_atoms-Kept d r base (a ∷ others) tx grows =
      then_call-Kept d r d r base tx.readonly (add_typed (typed_atom a) a tx) (add_atoms others)
        (with_typed tx.readonly (typed_atom a) a tx.memory)
        (λ readonly next. with_atoms readonly others next)
        (add_typed-Kept d r base (typed_atom a) a tx grows) (add_atoms-Kept d r base others)

  -- A loop over the ledger uses up what may grow.
  loop-Kept :
      (d r d' r' da ra : Bool) (base : Memory Row P J)
      (act : Action (ObservationLedger J) (Unit {0})) (tx : MemoryTransaction Row P J)
      → Grows da ra act
      → (d ≡ false → (da ≡ false) × (d' ≡ false))
      → (r ≡ false → (ra ≡ false) × (r' ≡ false))
      → CanGrow d r base tx
      → Kept d' r' base tx.readonly
          (with_ledger (act tx.memory.ledger) tx)
          (with_returned (act tx.memory.ledger) tx.memory)
  unfolding Grows
  loop-Kept d r d' r' da ra base act tx adds fewer_d fewer_r grows =
      let led : ObservationLedger J = tx.memory.ledger in
      let (xs, ys, nd, nr, is) = adds led in
      ledger-Kept d' r' base tx (act led) (λ xs' ys' nd' nr'.
        ap (λ (l : ObservationLedger J). rollback tx.undo (record (tx.memory) { ledger = l }))
          (ap (grow xs' ys') is ∙ grow-grow xs xs' ys ys' led)
        ∙ grows (xs ++ xs') (ys ++ ys')
            (λ off. both_empty xs xs' (nd (fewer_d off).0) (nd' (fewer_d off).1))
            (λ off. both_empty ys ys' (nr (fewer_r off).0) (nr' (fewer_r off).1)))

  pub add_observed-Kept :
      (base : Memory Row P J) (obs : Observed) (recs : List AssessmentRecord)
      (tx : MemoryTransaction Row P J)
      → CanGrow false false base tx
      → Kept false false base tx.readonly
          (add_observed obs recs tx)
          (with_observed tx.readonly obs recs tx.memory)
  unfolding add_observed with_observed
  add_observed-Kept base obs recs tx grows =
      let ds = any obs.deliveries in
      let rs = any recs in
      then_call-Kept ds false false false base tx.readonly (remember_deliveries obs.deliveries tx) _
        (with_any tx.readonly obs.deliveries tx.memory) (after_deliveries obs recs)
        (remember_deliveries-Kept false base obs.deliveries tx grows)
        (λ t1 g1.
          then_call-Kept ds rs false false base t1.readonly (remember_assessments recs t1) _
            (with_any t1.readonly recs t1.memory) (after_assessments obs recs)
            (remember_assessments-Kept ds base recs t1 g1)
            (λ t2 g2.
              then_call-Kept ds rs false false base t2.readonly (add_atoms obs.atoms t2) _
                (with_atoms t2.readonly obs.atoms t2.memory) (λ _. after_atoms obs recs)
                (add_atoms-Kept ds rs base obs.atoms t2 g2)
                (λ t3 g3.
                  then_call-Kept false rs false false base t3.readonly
                    (with_ledger (deliver_each obs.deliveries t3.memory.ledger) t3) _
                    (with_returned (deliver_each obs.deliveries t3.memory.ledger) t3.memory)
                    (λ _ m. with_returned (assess_each recs m.ledger) m)
                    (loop-Kept ds rs false rs ds false base (deliver_each obs.deliveries) t3
                      (deliver_each-Grows J obs.deliveries) (λ off. (off, refl))
                      (λ off. (refl, off)) g3)
                    (λ t4 g4.
                      loop-Kept false rs false false false rs base (assess_each recs) t4
                        (assess_each-Grows J recs) (λ off. (refl, refl)) (λ off. (off, refl)) g4))))
    where
      after_atoms : Observed → List AssessmentRecord → Memory Row P J → Result (Memory Row P J)
      after_atoms o rs' m = with_returned (deliver_each o.deliveries m.ledger) m >>= λ m4.
          with_returned (assess_each rs' m4.ledger) m4

      after_assessments :
          Observed → List AssessmentRecord → Bool → Memory Row P J → Result (Memory Row P J)
      after_assessments o rs' readonly m = with_atoms readonly o.atoms m >>= after_atoms o rs'

      after_deliveries :
          Observed → List AssessmentRecord → Bool → Memory Row P J → Result (Memory Row P J)
      after_deliveries o rs' readonly m =
          with_any readonly rs' m >>= after_assessments o rs' readonly
