-- ===== src/Knowledge/Observations/Again.antt =====
-- Repeated calls of the ledger's operations.
use auto_options_call_debit.Knowledge.Observations.Sound.{IsFirst-new}
use auto_options_call_debit.Common.{
  ℕ, ◌≡◌, refl, ◌⊎◌, inl, inr, some, arith, ltb, Bool-cases, Option-cases,
}
use auto_options_call_debit.Common.Outcome.{Error, harness_error, err, ok}
use auto_options_call_debit.Common.Dict.{lookup}
use auto_options_call_debit.Domain.Money.{Datetime, aware, naive}
use auto_options_call_debit.Knowledge.{aware_check, instant, addressed, Delivery}
use auto_options_call_debit.Knowledge.Observations.{
  first_delivery, deliver, ObservationLedger, record_delivery,
}

module _ {Payload : Type 0} where
  known_returned :
      (s : ObservationLedger Payload) (run branch actor_id atom_id : ℕ) (at : Datetime)
      (d : Delivery)
      → first_delivery s.deliveries run branch actor_id atom_id ≡ some d
      → (deliver run branch actor_id atom_id at s ≡ (ok d, s))
        ⊎ ((e : Error) × (deliver run branch actor_id atom_id at s ≡ (err e, s)))
  unfolding deliver aware_check record_delivery
  known_returned s run branch actor_id atom_id (naive t) d known = inr (_, refl)
  known_returned s run branch actor_id atom_id (aware t) d known =
      elim (Option-cases (lookup atom_id s.atoms)) [
        | inl missing ↦ inr (harness_error "MISSING_OBSERVATION", ground (arith, missing))
        | inr (a, found) ↦ elim (Bool-cases (ltb t (instant a.available_at))) [
          | inl early ↦
              inr (harness_error "DELIVERY_BEFORE_AVAILABILITY", ground (arith, found, early))
          | inr available ↦ elim (Bool-cases (addressed actor_id a.recipients)) [
            | inr other ↦
                inr (harness_error "WRONG_RECIPIENT", ground (arith, found, available, other))
            | inl mine ↦ inl (ground (arith, found, available, mine, known))
          ]
        ]
      ]

  returned_known :
      (s : ObservationLedger Payload) (run branch actor_id atom_id : ℕ) (at : Datetime)
      (d : Delivery)
      → (deliver run branch actor_id atom_id at s).0 ≡ ok d
      → first_delivery
          (deliver run branch actor_id atom_id at s).1.deliveries
          run
          branch
          actor_id
          atom_id
        ≡ some d
  unfolding deliver aware_check record_delivery
  returned_known s run branch actor_id atom_id (naive t) d returned = cc
  returned_known s run branch actor_id atom_id (aware t) d returned =
      ground (arith, returned, IsFirst-new s.deliveries run branch actor_id atom_id (aware t))

  -- Once an atom was delivered to an actor, a further delivery of it at any time returns the delivery of
  -- the first call, or raises, and leaves the ledger as the first call did.
  pub deliver-deliver :
      (s : ObservationLedger Payload) (run branch actor_id atom_id : ℕ) (at later : Datetime)
      (d : Delivery)
      → (deliver run branch actor_id atom_id at s).0 ≡ ok d
      → let after : ObservationLedger Payload = (deliver run branch actor_id atom_id at s).1 in
        (deliver run branch actor_id atom_id later after ≡ (ok d, after))
        ⊎ ((e : Error) × (deliver run branch actor_id atom_id later after ≡ (err e, after)))
  deliver-deliver s run branch actor_id atom_id at later d returned =
      known_returned (deliver run branch actor_id atom_id at s).1 run branch actor_id atom_id later
        d (returned_known s run branch actor_id atom_id at d returned)
