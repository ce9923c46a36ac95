-- ===== src/Knowledge/Atoms/Terminates.antt =====
-- The recursion of the check ends: each call visits one more atom of the dictionary.
use auto_options_call_debit.Common.{zero, inl, inr, Bool-cases, Option-cases}
use auto_options_call_debit.Knowledge.Atoms.{check_within, check_atom}
use auto_options_call_debit.Common.{
  ℕ, suc, ◌≤◌, ◌<◌, String, ◌≡◌, ◌≢◌, Bool, true, false, Option, none, some, List, [], ◌∷◌, ◌++◌,
  arith, ◌==◌, if◌then◌else◌,
}
use auto_options_call_debit.Common.Outcome.{
  ◌>>=◌, raise_if, or_raise, Result, harness_error, key_error, no_fuel, err, ok,
}
use auto_options_call_debit.Common.Dict.{Dict, lookup}
use auto_options_call_debit.Common.Lists.{length, member}
use auto_options_call_debit.Domain.Money.{Datetime, finite, special, aware, naive}
use auto_options_call_debit.Knowledge.{aware_check, Value, Atom, Context, text_value, not_text}
use auto_options_call_debit.Knowledge.Atoms.{
  provenance, in_vocabulary, parents_of, number_of, numbers_of, recomputed, derived, derivation,
  each_dependency, check_found, underived, allowed_value, finite_text,
}

-- A call that was given enough fuel.
unfoldable pub Ends {ℓ} : {A : Type ℓ} → Result A → Type ℓ
Ends call = call ≢ err no_fuel

module _ {ℓ κ} {A : Type ℓ} {B : Type κ} where
  pub >>=-Ends :
      (call : Result A) (rest : A → Result B)
      → Ends call
      → ((v : A) → Ends (rest v))
      → Ends (call >>= rest)
  unfolding Ends
  >>=-Ends (err e) rest first last = λ stuck. first (cc)
  >>=-Ends (ok v) rest first last = last v

pub ok-Ends {ℓ} : {A : Type ℓ} (v : A) → Ends (ok v)
unfolding Ends
ok-Ends v = λ stuck. cc

pub raised-Ends {ℓ} : (A : Type ℓ) (code : String) → Ends {A = A} (err (harness_error code))
unfolding Ends
raised-Ends A code = λ stuck. cc

pub raise_if-Ends : (b : Bool) (code : String) → Ends (raise_if b (harness_error code))
raise_if-Ends true code = raised-Ends _ code
raise_if-Ends false code = ok-Ends tt

pub or_raise-Ends {ℓ} :
    {A : Type ℓ} (o : Option A) (code : String) → Ends (or_raise o (harness_error code))
or_raise-Ends none code = raised-Ends _ code
or_raise-Ends (some v) code = ok-Ends v

pub found-Ends {ℓ} : {A : Type ℓ} (o : Option A) → Ends (or_raise o key_error)
unfolding Ends
found-Ends none = λ stuck. cc
found-Ends (some v) = ok-Ends v

pub aware_check-Ends : (t : Datetime) → Ends (aware_check t)
unfolding aware_check
aware_check-Ends (aware t) = ok-Ends t
aware_check-Ends (naive t) = raised-Ends _ "NAIVE_TIME"

pub if-Ends {ℓ} :
    {A : Type ℓ} (b : Bool) (c d : Result A) → Ends c → Ends d → Ends (if b then c else d)
if-Ends true c d first second = first
if-Ends false c d first second = second

pub ruleset ends = (
  >>=-Ends, ok-Ends, raised-Ends, raise_if-Ends, or_raise-Ends, found-Ends, aware_check-Ends,
  if-Ends,
)

provenance-Ends : (ctx : Context) (a : Atom) → Ends (provenance ctx a)
unfolding provenance
provenance-Ends ctx a = search ends depth 30

allowed_value-Ends : (texts : Option (List String)) (v : Value) → Ends (allowed_value texts v)
unfolding allowed_value finite_text
allowed_value-Ends texts not_text = search ends
allowed_value-Ends (some texts) (text_value text number) = search ends
allowed_value-Ends none (text_value text none) = search ends
allowed_value-Ends none (text_value text (some special)) = search ends
allowed_value-Ends none (text_value text (some (finite v))) = search ends

in_vocabulary-Ends : (a : Atom) → Ends (in_vocabulary a)
unfolding in_vocabulary
in_vocabulary-Ends a = search (ends, allowed_value-Ends) depth 30

parents_of-Ends : (atoms : Dict Atom) (ps : List ℕ) → Ends (parents_of atoms ps)
unfolding parents_of
parents_of-Ends atoms [] = search ends
parents_of-Ends atoms (p ∷ ps) = search (ends, parents_of-Ends atoms ps) depth 20

number_of-Ends : (v : Value) → Ends (number_of v)
unfolding number_of
number_of-Ends not_text = search ends
number_of-Ends (text_value text none) = search ends
number_of-Ends (text_value text (some special)) = search ends
number_of-Ends (text_value text (some (finite v))) = search ends

numbers_of-Ends : (parents : List Atom) → Ends (numbers_of parents)
unfolding numbers_of
numbers_of-Ends [] = search ends
numbers_of-Ends (p ∷ ps) = search (ends, number_of-Ends, numbers_of-Ends ps) depth 20

recomputed-Ends :
    (atoms : Dict Atom) (a : Atom) (transform : String) → Ends (recomputed atoms a transform)
unfolding recomputed
recomputed-Ends atoms a transform =
    search (ends, parents_of-Ends, numbers_of-Ends, number_of-Ends) depth 30

derived-Ends :
    (atoms : Dict Atom) (a : Atom) (transform : Option String) (ps : List ℕ)
    → Ends (derived atoms a transform ps)
unfolding derived
derived-Ends atoms a none ps = search ends
derived-Ends atoms a (some transform) [] = search ends
derived-Ends atoms a (some transform) (p ∷ ps) = search (ends, recomputed-Ends)

underived-Ends : (transform : Option String) (ps : List ℕ) → Ends (underived transform ps)
unfolding underived
underived-Ends none [] = search ends
underived-Ends none (p ∷ ps) = search ends
underived-Ends (some transform) ps = search ends

derivation-Ends : (atoms : Dict Atom) (a : Atom) → Ends (derivation atoms a)
unfolding derivation
derivation-Ends atoms a = search (ends, derived-Ends, underived-Ends)

each_dependency-Ends :
    (check : ℕ → Result (Unit {0})) (atoms : Dict Atom) (a : Atom) (ps : List ℕ)
    → ((p : ℕ) → Ends (check p))
    → Ends (each_dependency check atoms a ps)
unfolding each_dependency
each_dependency-Ends check atoms a [] deeper = search ends
each_dependency-Ends check atoms a (p ∷ ps) deeper =
    search (ends, deeper, each_dependency-Ends check atoms a ps deeper) depth 20

check_found-Ends :
    (check : ℕ → Result (Unit {0})) (atoms : Dict Atom) (ctx : Context) (a : Atom)
    → ((p : ℕ) → Ends (check p))
    → Ends (check_found check atoms ctx (some a))
unfolding check_found
check_found-Ends check atoms ctx a deeper =
    search
      (
        ends,
        provenance-Ends,
        in_vocabulary-Ends,
        derivation-Ends,
        each_dependency-Ends check atoms a a.dependencies deeper,
      )
      depth 20

-- The atoms that a path has not visited yet.
unvisited : Dict Atom → List ℕ → ℕ
unvisited [] path = 0
unvisited (entry ∷ atoms) path =
    if member entry.0 path then unvisited atoms path else suc (unvisited atoms path)

unvisited_le : (atoms : Dict Atom) (path : List ℕ) → unvisited atoms path ≤ length atoms
unfolding unvisited
unvisited_le [] path = omega arith
unvisited_le (entry ∷ atoms) path = ground (arith, unvisited_le atoms path)

member-append :
    (x y : ℕ) (path : List ℕ) → member x (path ++ y ∷ []) ≡ (if member x path then true else x == y)
member-append x y [] = ground arith
member-append x y (z ∷ path) = ground (arith, member-append x y path)

visit_le :
    (atoms : Dict Atom) (path : List ℕ) (x : ℕ)
    → unvisited atoms (path ++ x ∷ []) ≤ unvisited atoms path
unfolding unvisited
visit_le [] path x = omega arith
visit_le (entry ∷ atoms) path x =
    ground (arith, visit_le atoms path x, member-append entry.0 x path)

visit_lt :
    (atoms : Dict Atom) (path : List ℕ) (x : ℕ) (a : Atom)
    → lookup x atoms ≡ some a
    → member x path ≡ false
    → unvisited atoms (path ++ x ∷ []) < unvisited atoms path
unfolding unvisited
visit_lt [] path x a found new = ground arith
visit_lt (entry ∷ atoms) path x a found new = ground (
  arith,
  visit_le atoms path x,
  member-append entry.0 x path,
  visit_lt atoms path x a,
  found,
  new,
)

missing-Ends :
    (fuel : ℕ) (atoms : Dict Atom) (ctx : Context) (x : ℕ) (path : List ℕ)
    → Ends (check_found (λ p. check_within fuel atoms ctx p (path ++ x ∷ [])) atoms ctx none)
unfolding check_found
missing-Ends fuel atoms ctx x path = raised-Ends _ "MISSING_DEPENDENCY"

-- Fuel above the number of atoms that the path has not visited is enough for the check.
check_within-Ends :
    (fuel : ℕ) (atoms : Dict Atom) (ctx : Context) (x : ℕ) (path : List ℕ)
    → unvisited atoms path < fuel
    → Ends (check_within fuel atoms ctx x path)
unfolding check_within
check_within-Ends zero atoms ctx x path enough = ground (arith, enough)
check_within-Ends (suc fuel) atoms ctx x path enough = elim (Bool-cases (member x path)) [
  | inl seen ↦ rw seen (raised-Ends _ "DEPENDENCY_CYCLE")
  | inr new ↦ elim (Option-cases (lookup x atoms)) [
    | inl missing ↦ rw (new, missing) (missing-Ends fuel atoms ctx x path)
    | inr (a, found) ↦
        rw (new, found)
          (check_found-Ends (λ p. check_within fuel atoms ctx p (path ++ x ∷ [])) atoms ctx a
            (λ p.
              check_within-Ends fuel atoms ctx p (path ++ x ∷ [])
                (omega (arith, visit_lt atoms path x a found new))))
  ]
]

-- The check of an atom always ends: the fuel that it is given, one more than there are atoms, is
-- enough, whatever the atoms depend on.
pub check_atom-Ends : (atoms : Dict Atom) (ctx : Context) (x : ℕ) → Ends (check_atom atoms ctx x)
unfolding check_atom
check_atom-Ends atoms ctx x =
    check_within-Ends (suc (length atoms)) atoms ctx x [] (omega (arith, unvisited_le atoms []))
