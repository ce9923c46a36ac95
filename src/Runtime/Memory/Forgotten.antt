-- ===== src/Runtime/Memory/Forgotten.antt =====
-- Forgetting an atom takes back its storing (persistence/runtime.py, epistemics/store.py).
use auto_options_call_debit.Knowledge.Observations.Same.{atom-TellsApart}
use auto_options_call_debit.Knowledge.Observations.{atom_eq}
use auto_options_call_debit.Common.{◌∙◌, true}
use auto_options_call_debit.Common.{
  ◌≡◌, refl, sym, ap, ◌⊎◌, inl, inr, none, some, [], ◌∷◌, arith, ◌==◌, Bool-cases,
}
use auto_options_call_debit.Common.Dict.{Dict, lookup, insert}
use auto_options_call_debit.Knowledge.{aware_check, Atom}
use auto_options_call_debit.Knowledge.Observations.{put_atom, ObservationLedger}
use auto_options_call_debit.Runtime.Memory.{without_atom}
use auto_options_call_debit.Common.{ℕ}

module _ {V : Type 0} where
  without_absent : (k : ℕ) (d : Dict V) → lookup k d ≡ none → without_atom k d ≡ d
  unfolding without_atom
  without_absent k [] h = refl
  without_absent k (e ∷ d) h = elim (Bool-cases (k == e.0)) [
    | inl hit ↦ cc
    | inr miss ↦ rw miss (ap (λ (t : Dict V). e ∷ t) (without_absent k d (ground (arith, miss, h))))
  ]

  without-insert :
      (k : ℕ) (v : V) (d : Dict V) → lookup k d ≡ none → without_atom k (insert k v d) ≡ d
  unfolding without_atom
  without-insert k v [] h = ground arith
  without-insert k v (e ∷ d) h = elim (Bool-cases (k == e.0)) [
    | inl hit ↦ cc
    | inr miss ↦
        rw (miss, miss)
          (ap (λ (t : Dict V). e ∷ t) (without-insert k v d (ground (arith, miss, h))))
  ]

  insert_found : (k : ℕ) (v : V) (d : Dict V) → lookup k d ≡ some v → insert k v d ≡ d
  insert_found k v [] h = cc
  insert_found k v ((j, w) ∷ d) h = elim (Bool-cases (k == j)) [
    | inl hit ↦
        let key : k ≡ j = ground (arith, hit) in
        let value : w ≡ v = ground (arith, hit, h) in
        rw hit (ap (λ (e : ℕ × V). e ∷ d) (pair_eq key (sym value)))
    | inr miss ↦
        rw miss (ap (λ (t : Dict V). (j, w) ∷ t) (insert_found k v d (ground (arith, miss, h))))
  ]
    where
      pair_eq : {j' : ℕ} {w' : V} → k ≡ j' → v ≡ w' → ◌≡◌ {A = ℕ × V} (k, v) (j', w')
      pair_eq p q = cc

module _ {J : Type 0} where
  -- What `put_atom` leaves
  put_cases :
      (a : Atom) (led : ObservationLedger J)
      → ((put_atom a led).1 ≡ led)
        ⊎ ((put_atom a led).1 ≡ record led { atoms = insert a.atom_id a led.atoms })
  unfolding put_atom aware_check
  put_cases a led = ground arith

  forgot : ℕ → ObservationLedger J → ObservationLedger J
  forgot id led = record led { atoms = without_atom id led.atoms }

  pub put_new :
      (a : Atom) (led : ObservationLedger J)
      → lookup a.atom_id led.atoms ≡ none
      → record ((put_atom a led).1) { atoms = without_atom a.atom_id ((put_atom a led).1).atoms }
        ≡ led
  unfolding forgot
  put_new a led absent = elim (put_cases a led) [
    | inl same ↦
        ap (forgot a.atom_id) same
        ∙ ap (λ (t : Dict Atom). record led { atoms = t })
            (without_absent a.atom_id led.atoms absent)
    | inr stored ↦
        ap (forgot a.atom_id) stored
        ∙ ap (λ (t : Dict Atom). record led { atoms = t })
            (without-insert a.atom_id a led.atoms absent)
  ]

  pub put_known :
      (a previous : Atom) (led : ObservationLedger J)
      → lookup a.atom_id led.atoms ≡ some previous
      → atom_eq previous a ≡ true
      → (put_atom a led).1 ≡ led
  put_known a previous led found same_atom = elim (put_cases a led) [
    | inl same ↦ same
    | inr stored ↦
        stored
        ∙ ap (λ (t : Dict Atom). record led { atoms = t })
            (insert_found a.atom_id a led.atoms
              (found ∙ ap some (atom-TellsApart previous a same_atom)))
  ]
