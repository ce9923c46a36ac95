-- ===== src/Knowledge/Observations/Sound.antt =====
-- What holds of every ledger that the operations lead to.
use auto_options_call_debit.Common.{sym, ap, ◌∙◌, ◌==◌}
use auto_options_call_debit.Common.Lists.{All-append, All-map}
use auto_options_call_debit.Common.Dict.{lookup-insert_self, lookup-insert_ne}
use auto_options_call_debit.Common.Equality.{nat-TellsApart}
use auto_options_call_debit.Knowledge.Observations.{delivery_key}
use auto_options_call_debit.Knowledge.Observations.Same.{atom-TellsApart}
use auto_options_call_debit.Common.{refl, inl, inr, ltb, Bool-cases, Option-cases}
use auto_options_call_debit.Knowledge.Observations.{delivery}
use auto_options_call_debit.Common.{
  ℕ, ◌≤◌, ◌≡◌, ◌⊎◌, true, false, none, some, List, [], ◌∷◌, ◌++◌, arith,
}
use auto_options_call_debit.Common.Dict.{Dict, lookup, insert}
use auto_options_call_debit.Common.Lists.{All}
use auto_options_call_debit.Domain.Money.{Datetime, naive, aware}
use auto_options_call_debit.Knowledge.{aware_check, instant, addressed, Atom, Delivery}
use auto_options_call_debit.Knowledge.Observations.{
  empty_ledger, conflicts, first_delivery, put_atom, deliver, put_assessment, quarantine,
  AssessmentRecord, Incident, ObservationLedger, record_delivery,
}

-- A delivered atom is in the ledger, was available before it was delivered, and is addressed to the
-- actor; and no actor has two deliveries of an atom.
abbrev pub IsDelivered : Dict Atom → Delivery → Type 0
IsDelivered atoms d =
    (a : Atom) × (lookup d.atom_id atoms ≡ some a)
    × (instant a.available_at ≤ instant d.delivered_at)
    × (addressed d.actor_id a.recipients ≡ true)

abbrev pub IsFirst : List Delivery → Delivery → Type 0
IsFirst deliveries d = first_delivery deliveries d.run_id d.branch_id d.actor_id d.atom_id ≡ some d

IsDelivered-insert :
    (atoms : Dict Atom) (a : Atom) (d : Delivery)
    → conflicts (lookup a.atom_id atoms) a ≡ false
    → IsDelivered atoms d
    → IsDelivered (insert a.atom_id a atoms) d
unfolding conflicts
IsDelivered-insert atoms a d agrees (b, found, available, mine) =
    elim (Bool-cases (d.atom_id == a.atom_id)) [
      | inl same ↦
          let is_a : d.atom_id ≡ a.atom_id = nat-TellsApart _ _ same in
          let held : lookup a.atom_id atoms ≡ some b =
            ap (λ (k : ℕ). lookup k atoms) (sym is_a) ∙ found in
          let equal : b ≡ a = atom-TellsApart b a (ground (arith, held, agrees)) in
          (
            b,
            ap (λ (k : ℕ). lookup k (insert a.atom_id a atoms)) is_a
                ∙ lookup-insert_self a.atom_id a atoms
                ∙ ap some (sym equal),
            available,
            mine,
          )
      | inr other ↦ (
        b,
        lookup-insert_ne d.atom_id a.atom_id a atoms (λ e. ground (arith, e, other)) ∙ found,
        available,
        mine,
      )
    ]

first-append :
    (ds : List Delivery) (n : Delivery) (run branch actor_id atom_id : ℕ)
    → (first_delivery (ds ++ n ∷ []) run branch actor_id atom_id
        ≡ (elim (first_delivery ds run branch actor_id atom_id) [
          | some d ↦ some d
          | none ↦ first_delivery (n ∷ []) run branch actor_id atom_id
        ]))
unfolding first_delivery
first-append [] n run branch actor_id atom_id = refl
first-append (d ∷ ds) n run branch actor_id atom_id =
    elim (Bool-cases (delivery_key d run branch actor_id atom_id)) [
      | inl same ↦ rw same refl
      | inr other ↦ rw other (first-append ds n run branch actor_id atom_id)
    ]

IsFirst-append : (ds : List Delivery) (n d : Delivery) → IsFirst ds d → IsFirst (ds ++ n ∷ []) d
IsFirst-append ds n d first =
    rw (first-append ds n d.run_id d.branch_id d.actor_id d.atom_id, first) refl

key_self :
    (run branch actor_id atom_id : ℕ) (at : Datetime)
    → delivery_key (delivery run branch actor_id atom_id at) run branch actor_id atom_id ≡ true
unfolding delivery_key
key_self run branch actor_id atom_id at = ground arith

pub IsFirst-new :
    (ds : List Delivery) (run branch actor_id atom_id : ℕ) (at : Datetime)
    → first_delivery ds run branch actor_id atom_id ≡ none
    → IsFirst
        (ds ++ delivery run branch actor_id atom_id at ∷ [])
        (delivery run branch actor_id atom_id at)
unfolding first_delivery
IsFirst-new ds run branch actor_id atom_id at new =
    rw
      (
        first-append ds (delivery run branch actor_id atom_id at) run branch actor_id atom_id,
        new,
        key_self run branch actor_id atom_id at,
      )
      refl

module _ {Payload : Type 0} where
  -- The ledgers that the operations lead to, each of which may also raise.
  pub data Reach : ObservationLedger Payload → Type 0 where
    empty : Reach (empty_ledger Payload)
    after_atom : (s : ObservationLedger Payload) (a : Atom) → Reach s → Reach (put_atom a s).1
    after_delivery :
        (s : ObservationLedger Payload) (run branch actor_id atom_id : ℕ) (at : Datetime)
        → Reach s
        → Reach (deliver run branch actor_id atom_id at s).1
    after_assessment :
        (s : ObservationLedger Payload) (rec : AssessmentRecord)
        → Reach s
        → Reach (put_assessment rec s).1
    after_incident :
        (s : ObservationLedger Payload) (incident : Incident Payload)
        → Reach s
        → Reach (quarantine incident s)

  abbrev pub IsSound : ObservationLedger Payload → Type 0
  IsSound s = All (IsDelivered s.atoms) s.deliveries × All (IsFirst s.deliveries) s.deliveries

  put_atom-cases :
      (a : Atom) (s : ObservationLedger Payload)
      → ((put_atom a s).1 ≡ s)
        ⊎ ((conflicts (lookup a.atom_id s.atoms) a ≡ false)
            × ((put_atom a s).1 ≡ record s { atoms = insert a.atom_id a s.atoms }))
  unfolding put_atom aware_check
  put_atom-cases a s = ground arith

  deliver-cases :
      (s : ObservationLedger Payload) (run branch actor_id atom_id : ℕ) (at : Datetime)
      → ((deliver run branch actor_id atom_id at s).1 ≡ s)
        ⊎ (IsDelivered s.atoms (delivery run branch actor_id atom_id at)
            × (first_delivery s.deliveries run branch actor_id atom_id ≡ none)
            × ((deliver run branch actor_id atom_id at s).1 ≡ record s {
              deliveries = s.deliveries ++ delivery run branch actor_id atom_id at ∷ [];
            }))
  unfolding deliver aware_check record_delivery
  deliver-cases s run branch actor_id atom_id (naive t) = inl refl
  deliver-cases s run branch actor_id atom_id (aware t) =
      elim (Option-cases (lookup atom_id s.atoms)) [
        | inl missing ↦ inl (ground (arith, missing))
        | inr (a, found) ↦ elim (Bool-cases (ltb t (instant a.available_at))) [
          | inl early ↦ inl (ground (arith, found, early))
          | inr available ↦ elim (Bool-cases (addressed actor_id a.recipients)) [
            | inr other ↦ inl (ground (arith, found, available, other))
            | inl mine ↦
                elim (Option-cases (first_delivery s.deliveries run branch actor_id atom_id)) [
                  | inr (d, earlier) ↦ inl (ground (arith, found, available, mine, earlier))
                  | inl first ↦ inr (
                    (a, found, ground (arith, available), mine),
                    first,
                    ground (arith, found, available, mine, first),
                  )
                ]
          ]
        ]
      ]

  put_assessment-cases :
      (rec : AssessmentRecord) (s : ObservationLedger Payload)
      → ((put_assessment rec s).1 ≡ s)
        ⊎ ((put_assessment rec s).1 ≡ record s { assessments = s.assessments ++ rec ∷ [] })
  unfolding put_assessment aware_check
  put_assessment-cases rec s = ground arith

  quarantine-IsSound :
      (s : ObservationLedger Payload) (incident : Incident Payload)
      → IsSound s
      → IsSound (quarantine incident s)
  unfolding quarantine
  quarantine-IsSound s incident sound = sound

  -- In every ledger that the operations lead to, whether they return or raise, each delivery is of an
  -- atom that the ledger holds, that was available by the time of the delivery and that is addressed to
  -- the actor, and no actor has two deliveries of one atom.
  pub Reach-IsSound : (s : ObservationLedger Payload) → Reach s → IsSound s
  unfolding empty_ledger
  Reach-IsSound _ empty = (tt, tt)
  Reach-IsSound _ (after_atom s a r) =
      let (delivered, firsts) = Reach-IsSound s r in
      elim (put_atom-cases a s) [
        | inl same ↦ rw same (delivered, firsts)
        | inr (agrees, changed) ↦ rw changed (
          All-map (IsDelivered s.atoms) (IsDelivered (insert a.atom_id a s.atoms)) s.deliveries
              (λ d h. IsDelivered-insert s.atoms a d agrees h) delivered,
          firsts,
        )
      ]
  Reach-IsSound _ (after_delivery s run branch actor_id atom_id at r) =
      let (delivered, firsts) = Reach-IsSound s r in
      elim (deliver-cases s run branch actor_id atom_id at) [
        | inl same ↦ rw same (delivered, firsts)
        | inr (mine, new, changed) ↦ rw changed (
          All-append (IsDelivered s.atoms) s.deliveries
              (delivery run branch actor_id atom_id at ∷ []) delivered (mine, tt),
          All-append (IsFirst (s.deliveries ++ delivery run branch actor_id atom_id at ∷ []))
              s.deliveries (delivery run branch actor_id atom_id at ∷ [])
              (All-map (IsFirst s.deliveries)
                (IsFirst (s.deliveries ++ delivery run branch actor_id atom_id at ∷ []))
                s.deliveries
                (λ d h. IsFirst-append s.deliveries (delivery run branch actor_id atom_id at) d h)
                firsts)
              (IsFirst-new s.deliveries run branch actor_id atom_id at new, tt),
        )
      ]
  Reach-IsSound _ (after_assessment s rec r) =
      let sound : IsSound s = Reach-IsSound s r in
      elim (put_assessment-cases rec s) [
        | inl same ↦ rw same sound
        | inr changed ↦ rw changed sound
      ]
  Reach-IsSound _ (after_incident s incident r) = quarantine-IsSound s incident (Reach-IsSound s r)
