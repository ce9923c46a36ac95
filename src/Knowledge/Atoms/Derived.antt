-- ===== src/Knowledge/Atoms/Derived.antt =====
-- What the check of a derived atom says of its value (`Harness.check_atom` of epistemics/harness.py).
use mathlib.Core.Path.{subst}
use text.Mathlib.TextEquality.{eq_iff}
use auto_options_call_debit.Common.{
  ℤ, pos, eqb_ℤ, eq_of_parts, int_laws, eqb_ℤ→eq, ◌+ℤ◌, ◌-ℤ◌, String, ◌≡◌, refl, sym, ap, ◌∙◌, ◌⊎◌,
  inl, inr, true, not, Option, none, some, List, [], ◌∷◌, arith, str_eq,
}
use auto_options_call_debit.Common.Outcome.{raise_if, or_raise, >>=-eq-ok, Error, key_error, ok}
use auto_options_call_debit.Common.Dict.{Dict, lookup}
use auto_options_call_debit.Common.Lists.{length}
use auto_options_call_debit.Domain.Money.{finite, special}
use auto_options_call_debit.Knowledge.{Value, Atom, Context, text_value, not_text}
use auto_options_call_debit.Knowledge.Atoms.{
  parents_of, number_of, numbers_of, sum_of, pair_difference, only, expected, recomputed, derived,
  derivation, check_atom, unit_differs,
}
use auto_options_call_debit.Knowledge.Atoms.Known.{found_ok, checked, raised_none}
use auto_options_call_debit.Common.{ℕ}

-- What the check of a derivation has computed.
abbrev Recomputes : Dict Atom → Atom → Type 0
Recomputes atoms a =
    (transform : String) × (parents : List Atom) × (vs : List ℤ) × (v : ℤ) × (a.transform
      ≡ some transform)
    × (parents_of atoms a.dependencies ≡ ok parents)
    × (numbers_of parents ≡ ok vs)
    × (expected transform vs ≡ some v)
    × (number_of a.value ≡ ok v)

same_value :
    (v wanted : ℤ) (code : Error) → raise_if (not (eqb_ℤ v wanted)) code ≡ ok tt → v ≡ wanted
same_value v wanted code h = eqb_ℤ→eq v wanted (ground (arith, h))

recomputed-Recomputes :
    (atoms : Dict Atom) (a : Atom) (transform : String)
    → a.transform ≡ some transform
    → recomputed atoms a transform ≡ ok tt
    → Recomputes atoms a
unfolding recomputed
recomputed-Recomputes atoms a transform declared passed =
    let (parents, found, after_parents) = >>=-eq-ok (parents_of atoms a.dependencies) _ passed in
    let (_, _, after_units) =
      >>=-eq-ok (raise_if (unit_differs a.unit parents) _) _ after_parents in
    let (vs, read, after_values) = >>=-eq-ok (numbers_of parents) _ after_units in
    let (wanted, applied, after_wanted) =
      >>=-eq-ok (or_raise (expected transform vs) _) _ after_values in
    let (v, own, last) = >>=-eq-ok (number_of a.value) _ after_wanted in
    (
      transform,
      parents,
      vs,
      v,
      declared,
      found,
      read,
      raised_none (expected transform vs) _ applied ∙ ap some (sym (same_value v wanted _ last)),
      own,
    )

derived-Recomputes :
    (atoms : Dict Atom) (a : Atom) (transform : Option String) (ps : List ℕ)
    → a.transform ≡ transform
    → derived atoms a transform ps ≡ ok tt
    → Recomputes atoms a
unfolding derived
derived-Recomputes atoms a none ps declared passed = cc
derived-Recomputes atoms a (some transform) [] declared passed = cc
derived-Recomputes atoms a (some transform) (p ∷ ps) declared passed =
    recomputed-Recomputes atoms a transform declared (ground (arith, passed))

derivation_passed :
    (atoms : Dict Atom) (a : Atom)
    → str_eq a.kind "DERIVED" ≡ true
    → derivation atoms a ≡ ok tt
    → derived atoms a a.transform a.dependencies ≡ ok tt
unfolding derivation
derivation_passed atoms a is_derived passed = ground (arith, is_derived, passed)

-- Which values the atoms under the identifiers have, one for each.
pub data AreValues (atoms : Dict Atom) : List ℕ → List ℤ → Type 0 where
  no_values : AreValues atoms [] []
  next_value :
      (p : ℕ) (ps : List ℕ) (b : Atom) (text : String) (x : ℤ) (xs : List ℤ)
      → lookup p atoms ≡ some b
      → b.value ≡ text_value text (some (finite x))
      → AreValues atoms ps xs
      → AreValues atoms (p ∷ ps) (x ∷ xs)

unfoldable pub sum_all : List ℤ → ℤ
sum_all [] = pos 0
sum_all (x ∷ xs) = x +ℤ sum_all xs

-- An atom's value is the difference of its two dependencies, the sum of all of them, or that of its only
-- one.
abbrev pub IsDerived : Dict Atom → Atom → Type 0
IsDerived atoms a =
    (text : String) × (v : ℤ) × (a.value ≡ text_value text (some (finite v)))
    × (((x y : ℤ) × (a.transform ≡ some "SUBTRACT")
          × AreValues atoms a.dependencies (x ∷ y ∷ [])
          × (v ≡ x -ℤ y))
        ⊎ (((xs : List ℤ) × (a.transform ≡ some "SUM")
              × AreValues atoms a.dependencies xs
              × (v ≡ sum_all xs))
            ⊎ ((a.transform ≡ some "COPY") × AreValues atoms a.dependencies (v ∷ []))))

number_read :
    (v : Value) (x : ℤ)
    → number_of v ≡ ok x
    → (text : String) × (v ≡ text_value text (some (finite x)))
unfolding number_of
number_read not_text x h = cc
number_read (text_value text none) x h = cc
number_read (text_value text (some special)) x h = cc
number_read (text_value text (some (finite y))) x h =
    let same : y ≡ x = cc in (text, ap (λ (z : ℤ). text_value text (some (finite z))) same)

values_read :
    (atoms : Dict Atom) (ps : List ℕ) (parents : List Atom) (xs : List ℤ)
    → parents_of atoms ps ≡ ok parents
    → numbers_of parents ≡ ok xs
    → AreValues atoms ps xs
unfolding parents_of numbers_of
values_read atoms [] parents xs found read =
    let none_found : parents ≡ [] = cc in
    let none_read : xs ≡ [] = cc in subst (AreValues atoms []) (sym none_read) no_values
values_read atoms (p ∷ ps) parents xs found read =
    let (b, at_p, after_b) = >>=-eq-ok (or_raise (lookup p atoms) key_error) _ found in
    let (others, found_others, made) = >>=-eq-ok (parents_of atoms ps) _ after_b in
    let same : parents ≡ b ∷ others = cc in
    let read_all : numbers_of (b ∷ others) ≡ ok xs = ap numbers_of (sym same) ∙ read in
    let (x, own, after_x) = >>=-eq-ok (number_of b.value) _ read_all in
    let (ys, read_others, last) = >>=-eq-ok (numbers_of others) _ after_x in
    let whole : x ∷ ys ≡ xs = cc in
    let (text, value) = number_read b.value x own in
    subst (AreValues atoms (p ∷ ps)) whole (
      next_value p ps b text x ys (raised_none (lookup p atoms) key_error at_p) value
        (values_read atoms ps others ys found_others read_others))

sum_of_lem : (t : ℤ) (xs : List ℤ) → sum_of t xs ≡ t +ℤ sum_all xs
unfolding sum_of sum_all
sum_of_lem t [] = eq_of_parts _ _ (omega int_laws)
sum_of_lem t (x ∷ xs) = sum_of_lem (t +ℤ x) xs ∙ eq_of_parts _ _ (omega int_laws)

zero_plus : (a : ℤ) → pos 0 +ℤ a ≡ a
zero_plus a = eq_of_parts _ _ (omega int_laws)

difference_of :
    (xs : List ℤ) (v : ℤ)
    → pair_difference xs ≡ some v
    → (x y : ℤ) × (xs ≡ x ∷ y ∷ []) × (v ≡ x -ℤ y)
unfolding pair_difference
difference_of [] v h = cc
difference_of (x ∷ []) v h = cc
difference_of (x ∷ y ∷ []) v h = (x, y, refl, cc)
difference_of (x ∷ y ∷ z ∷ zs) v h = cc

only_of : (xs : List ℤ) (v : ℤ) → only xs ≡ some v → xs ≡ v ∷ []
unfolding only
only_of [] v h = cc
only_of (x ∷ []) v h = let same : x ≡ v = cc in ap (λ (z : ℤ). z ∷ []) same
only_of (x ∷ y ∷ zs) v h = cc

-- The transform that was applied, and what it gave.
abbrev Applied : String → List ℤ → ℤ → Type 0
Applied transform xs v =
    ((transform ≡ "SUBTRACT") × (pair_difference xs ≡ some v))
    ⊎ (((transform ≡ "SUM") × (sum_of (pos 0) xs ≡ v))
        ⊎ ((transform ≡ "COPY") × (only xs ≡ some v)))

applied :
    (transform : String) (xs : List ℤ) (v : ℤ)
    → expected transform xs ≡ some v
    → Applied transform xs v
unfolding expected
applied transform xs v h =
    ground (arith, eq_iff transform "SUBTRACT", eq_iff transform "SUM", eq_iff transform "COPY")

explained :
    (atoms : Dict Atom) (a : Atom) (transform text : String) (xs : List ℤ) (v : ℤ)
    → a.transform ≡ some transform
    → a.value ≡ text_value text (some (finite v))
    → AreValues atoms a.dependencies xs
    → Applied transform xs v
    → IsDerived atoms a
explained atoms a transform text xs v declared value read (inl (subtract, given)) =
    let (x, y, pair, is) = difference_of xs v given in
    (
      text,
      v,
      value,
      inl (x, y, declared ∙ ap some subtract, subst (AreValues atoms a.dependencies) pair read, is),
    )
explained atoms a transform text xs v declared value read (inr (inl (sum, given))) = (
  text,
  v,
  value,
  inr (
      inl (
        xs,
        declared ∙ ap some sum,
        read,
        sym given ∙ sum_of_lem (pos 0) xs ∙ zero_plus (sum_all xs),
      )),
)
explained atoms a transform text xs v declared value read (inr (inr (copy, given))) = (
  text,
  v,
  value,
  inr (
      inr (
        declared ∙ ap some copy,
        subst (AreValues atoms a.dependencies) (only_of xs v given) read,
      )),
)

-- The value of a derived atom whose check passes is, as a number, that of its first dependency less that
-- of the second where its transform is "SUBTRACT", the total of those of all of them where it is "SUM",
-- and that of its only dependency where it is "COPY". It has no other transform.
pub check_atom-IsDerived :
    (atoms : Dict Atom) (ctx : Context) (x : ℕ) (a : Atom)
    → lookup x atoms ≡ some a
    → str_eq a.kind "DERIVED" ≡ true
    → check_atom atoms ctx x ≡ ok tt
    → IsDerived atoms a
unfolding check_atom
check_atom-IsDerived atoms ctx x a found is_derived passed =
    let (a', found', _, _, sound) =
      found_ok _ atoms ctx _ (checked (length atoms) atoms ctx x [] passed) in
    let same : a' ≡ a = cc in
    let (transform, parents, vs, v, declared, parents_found, read, given, own) =
      derived-Recomputes atoms a a.transform a.dependencies refl
        (derivation_passed atoms a is_derived (ap (derivation atoms) (sym same) ∙ sound)) in
    let (text, value) = number_read a.value v own in
    explained atoms a transform text vs v declared value
      (values_read atoms a.dependencies parents vs parents_found read)
      (applied transform vs v given)
