-- ===== src/Knowledge/Atoms.antt =====
-- The check of one atom and of all that it depends on (`Harness.check_atom` of epistemics/harness.py).
pub mod Terminates
pub mod Known
pub mod Derived
use auto_options_call_debit.Common.{
  ℤ, pos, eqb_ℤ, ◌+ℤ◌, ◌-ℤ◌, ℕ, zero, suc, String, Bool, true, false, not, ◌&&◌, ◌||◌, Option, none,
  some, List, [], ◌∷◌, ◌++◌, str_eq, ltb, if◌then◌else◌,
}
use auto_options_call_debit.Common.Outcome.{
  ◌>>=◌, ◌>>◌, raise_if, or_raise, Result, harness_error, key_error, no_fuel, err, ok,
}
use auto_options_call_debit.Common.Dict.{Dict, lookup}
use auto_options_call_debit.Common.Lists.{length, member, among}
use auto_options_call_debit.Domain.Money.{Decimal, finite, special}
use auto_options_call_debit.Knowledge.{
  aware_check, instant, addressed, Value, Atom, Context, text_value, not_text,
}
use auto_options_call_debit.Knowledge.Vocabulary.{registration, kinds}

-- The checks up to the recipients and the subject of an atom.
unfoldable pub provenance : Context → Atom → Result (Unit {0})
provenance ctx a = do
  published ← aware_check a.published_at
  available ← aware_check a.available_at
  subject ← aware_check a.subject_at
  as_of ← aware_check ctx.as_of
  raise_if (not (among a.kind kinds) || not a.source_checked) (harness_error "UNVERIFIED_SOURCE")
  raise_if (ltb available published) (harness_error "BACKDATED_AVAILABILITY")
  raise_if (ltb as_of available) (harness_error "FUTURE_DEPENDENCY")
  raise_if (not (addressed ctx.actor_id a.recipients)) (harness_error "WRONG_RECIPIENT")
  raise_if (str_eq a.kind "OBSERVATION" && ltb as_of subject) (harness_error "FUTURE_REALIZATION")

finite_text : Option Decimal → Result (Unit {0})
finite_text none = err (harness_error "UNAPPROVED_TEXT")
finite_text (some special) = err (harness_error "NONFINITE_VALUE")
finite_text (some (finite v)) = ok tt

-- A value among the texts of its metric, or a finite decimal.
allowed_value : Option (List String) → Value → Result (Unit {0})
unfolding finite_text
allowed_value texts not_text = err (harness_error "INVALID_VALUE")
allowed_value (some texts) (text_value text number) =
    raise_if (not (among text texts)) (harness_error "UNAPPROVED_TEXT")
allowed_value none (text_value text number) = finite_text number

-- The checks of an atom's metric, unit and value.
unfoldable pub in_vocabulary : Atom → Result (Unit {0})
unfolding allowed_value
in_vocabulary a = do
  entry ← or_raise (registration a.metric) (harness_error "UNAPPROVED_VOCABULARY")
  raise_if (not (str_eq a.unit entry.0)) (harness_error "UNAPPROVED_VOCABULARY")
  allowed_value entry.1 a.value

-- `atoms[p]` for each dependency
unfoldable pub parents_of : Dict Atom → List ℕ → Result (List Atom)
parents_of atoms [] = ok []
parents_of atoms (p ∷ ps) = do
  parent ← or_raise (lookup p atoms) key_error
  rest ← parents_of atoms ps
  ok (parent ∷ rest)

unit_differs : String → List Atom → Bool
unit_differs unit [] = false
unit_differs unit (parent ∷ parents) =
    if str_eq parent.unit unit then unit_differs unit parents else true

-- `Decimal(value)`. A decimal here has passed its own check, so it is finite.
unfoldable pub number_of : Value → Result ℤ
number_of (text_value text (some (finite v))) = ok v
number_of _ = err (harness_error "NONNUMERIC_DERIVATION")

unfoldable pub numbers_of : List Atom → Result (List ℤ)
unfolding number_of
numbers_of [] = ok []
numbers_of (parent ∷ parents) = do v ← number_of parent.value; vs ← numbers_of parents; ok (v ∷ vs)

-- `sum(values, Decimal(0))`
unfoldable pub sum_of : ℤ → List ℤ → ℤ
sum_of total [] = total
sum_of total (v ∷ vs) = sum_of (total +ℤ v) vs

unfoldable pub pair_difference : List ℤ → Option ℤ
pair_difference (a ∷ b ∷ []) = some (a -ℤ b)
pair_difference _ = none

unfoldable pub only : List ℤ → Option ℤ
only (a ∷ []) = some a
only _ = none

-- The value that a transform gives, where it is applied to as many values as it takes.
unfoldable pub expected : String → List ℤ → Option ℤ
unfolding pair_difference only sum_of
expected transform vs =
    if str_eq transform "SUBTRACT"
    then pair_difference vs
    else if str_eq transform "SUM"
    then some (sum_of (pos 0) vs)
    else if str_eq transform "COPY"
    then only vs
    else none

-- A derived atom has the value that its transform gives of its parents' values.
unfoldable pub recomputed : Dict Atom → Atom → String → Result (Unit {0})
unfolding unit_differs
recomputed atoms a transform = do
  parents ← parents_of atoms a.dependencies
  raise_if (unit_differs a.unit parents) (harness_error "UNIT_MISMATCH")
  vs ← numbers_of parents
  wanted ← or_raise (expected transform vs) (harness_error "INVALID_DERIVATION_ARITY")
  v ← number_of a.value
  raise_if (not (eqb_ℤ v wanted)) (harness_error "WRONG_DERIVED_VALUE")

unfoldable pub derived : Dict Atom → Atom → Option String → List ℕ → Result (Unit {0})
derived atoms a (some transform) (p ∷ ps) =
    if among transform ("SUBTRACT" ∷ "SUM" ∷ "COPY" ∷ [])
    then recomputed atoms a transform
    else err (harness_error "UNREGISTERED_DERIVATION")
derived atoms a _ _ = err (harness_error "UNREGISTERED_DERIVATION")

underived : Option String → List ℕ → Result (Unit {0})
underived none [] = ok tt
underived _ _ = err (harness_error "UNDECLARED_DERIVATION")

-- The check of an atom's transform against its dependencies.
unfoldable pub derivation : Dict Atom → Atom → Result (Unit {0})
unfolding underived
derivation atoms a =
    if str_eq a.kind "DERIVED"
    then derived atoms a a.transform a.dependencies
    else underived a.transform a.dependencies

-- The loop on the dependencies; `check` is the recursive call.
unfoldable pub each_dependency :
    (ℕ → Result (Unit {0})) → Dict Atom → Atom → List ℕ → Result (Unit {0})
each_dependency check atoms a [] = ok tt
each_dependency check atoms a (p ∷ ps) = do
  check p
  parent ← or_raise (lookup p atoms) key_error
  raise_if (ltb (instant a.available_at) (instant parent.available_at))
      (harness_error "BACKDATED_DERIVATION")
  each_dependency check atoms a ps

unfoldable pub check_found :
    (ℕ → Result (Unit {0})) → Dict Atom → Context → Option Atom → Result (Unit {0})
check_found check atoms ctx none = err (harness_error "MISSING_DEPENDENCY")
check_found check atoms ctx (some a) = do
  provenance ctx a
  in_vocabulary a
  each_dependency check atoms a a.dependencies
  derivation atoms a

-- `Harness.check_atom`, where the fuel is the depth of recursion
unfoldable pub check_within : ℕ → Dict Atom → Context → ℕ → List ℕ → Result (Unit {0})
check_within zero atoms ctx atom_id path = err no_fuel
check_within (suc fuel) atoms ctx atom_id path =
    if member atom_id path
    then err (harness_error "DEPENDENCY_CYCLE")
    else check_found (λ p. check_within fuel atoms ctx p (path ++ atom_id ∷ [])) atoms ctx
        (lookup atom_id atoms)

-- A path without repetition is no longer than the dictionary.
unfoldable pub check_atom : Dict Atom → Context → ℕ → Result (Unit {0})
check_atom atoms ctx atom_id = check_within (suc (length atoms)) atoms ctx atom_id []
