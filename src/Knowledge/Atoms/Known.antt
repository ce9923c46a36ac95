-- ===== src/Knowledge/Atoms/Known.antt =====
-- What a check that passes says of an atom and of all that it depends on.
use auto_options_call_debit.Common.{ap}
use auto_options_call_debit.Common.Outcome.{Error}
use auto_options_call_debit.Common.{zero, Option-cases}
use auto_options_call_debit.Common.Lists.{length}
use auto_options_call_debit.Knowledge.Atoms.{check_atom}
use auto_options_call_debit.Common.{
  ℕ, suc, ◌≤◌, ◌≡◌, refl, inl, inr, true, Option, none, some, List, [], ◌∷◌, ◌++◌, arith, ◌==◌,
  Bool-cases,
}
use auto_options_call_debit.Common.Outcome.{or_raise, >>=-eq-ok, Result, ok}
use auto_options_call_debit.Common.Dict.{Dict, lookup}
use auto_options_call_debit.Common.Lists.{member}
use auto_options_call_debit.Knowledge.{aware_check, instant, addressed, Atom, Context}
use auto_options_call_debit.Knowledge.Atoms.{
  provenance, in_vocabulary, derivation, each_dependency, check_found, check_within,
}

-- The atoms that one reaches by dependencies, itself included.
pub data DependsOn (atoms : Dict Atom) : ℕ → ℕ → Type 0 where
  itself : (x : ℕ) → DependsOn atoms x x
  through :
      (x p y : ℕ) (a : Atom)
      → lookup x atoms ≡ some a
      → member p a.dependencies ≡ true
      → DependsOn atoms p y
      → DependsOn atoms x y

-- The actor is entitled to the atom at the instant of the context.
abbrev pub Known : Context → Atom → Type 0
Known ctx a =
    (instant a.published_at ≤ instant a.available_at)
    × (instant a.available_at ≤ instant ctx.as_of)
    × (addressed ctx.actor_id a.recipients ≡ true)
    × (a.source_checked ≡ true)

provenance-Known : (ctx : Context) (a : Atom) → provenance ctx a ≡ ok tt → Known ctx a
unfolding provenance aware_check
provenance-Known ctx a passed = ground (arith, passed)

pub found_ok :
    (check : ℕ → Result (Unit {0})) (atoms : Dict Atom) (ctx : Context) (o : Option Atom)
    → check_found check atoms ctx o ≡ ok tt
    → (a : Atom) × (o ≡ some a)
      × Known ctx a
      × (each_dependency check atoms a a.dependencies ≡ ok tt)
      × (derivation atoms a ≡ ok tt)
unfolding check_found
found_ok check atoms ctx none passed = cc
found_ok check atoms ctx (some a) passed =
    let (_, first, second) = >>=-eq-ok (provenance ctx a) _ passed in
    let (_, _, third) = >>=-eq-ok (in_vocabulary a) _ second in
    let (_, each, last) = >>=-eq-ok (each_dependency check atoms a a.dependencies) _ third in
    (a, refl, provenance-Known ctx a first, each, last)

pub checked :
    (fuel : ℕ) (atoms : Dict Atom) (ctx : Context) (x : ℕ) (path : List ℕ)
    → check_within (suc fuel) atoms ctx x path ≡ ok tt
    → check_found (λ p. check_within fuel atoms ctx p (path ++ x ∷ [])) atoms ctx (lookup x atoms)
      ≡ ok tt
unfolding check_within
checked fuel atoms ctx x path passed = elim (Bool-cases (member x path)) [
  | inl seen ↦ ground (arith, seen, passed)
  | inr new ↦ ground (arith, new, passed)
]

first_ok :
    (check : ℕ → Result (Unit {0})) (atoms : Dict Atom) (a : Atom) (q : ℕ) (ps : List ℕ)
    → each_dependency check atoms a (q ∷ ps) ≡ ok tt
    → (check q ≡ ok tt)
      × ((b : Atom) × (lookup q atoms ≡ some b) × (instant b.available_at ≤ instant a.available_at))
      × (each_dependency check atoms a ps ≡ ok tt)
unfolding each_dependency
first_ok check atoms a q ps passed =
    let (_, first, second) = >>=-eq-ok (check q) _ passed in
    elim (Option-cases (lookup q atoms)) [
      | inl missing ↦ ground (arith, missing, second)
      | inr (b, found) ↦
          (first, (b, found, ground (arith, found, second)), ground (arith, found, second))
    ]

each_ok :
    (check : ℕ → Result (Unit {0})) (atoms : Dict Atom) (a : Atom) (ps : List ℕ) (p : ℕ)
    → each_dependency check atoms a ps ≡ ok tt
    → member p ps ≡ true
    → (check p ≡ ok tt)
      × ((b : Atom) × (lookup p atoms ≡ some b) × (instant b.available_at ≤ instant a.available_at))
unfolding each_dependency
each_ok check atoms a [] p passed here = cc
each_ok check atoms a (q ∷ ps) p passed here =
    let (first, parent, last) = first_ok check atoms a q ps passed in
    elim (Bool-cases (p == q)) [
      | inl same ↦ let is_q : p ≡ q = ground (arith, same) in rw is_q (first, parent)
      | inr other ↦ each_ok check atoms a ps p last (ground (arith, other, here))
    ]

no_later :
    (a c c' b : Atom)
    → c ≡ c'
    → instant c.available_at ≤ instant a.available_at
    → instant b.available_at ≤ instant c'.available_at
    → instant b.available_at ≤ instant a.available_at
no_later a c c' b same le le' =
    omega (arith, ap (λ (t : Atom). instant t.available_at) same, le, le')

within_reach :
    (fuel : ℕ) (atoms : Dict Atom) (ctx : Context) (x y : ℕ) (path : List ℕ)
    → check_within fuel atoms ctx x path ≡ ok tt
    → DependsOn atoms x y
    → (a b : Atom) × (lookup x atoms ≡ some a)
      × (lookup y atoms ≡ some b)
      × Known ctx b
      × (instant b.available_at ≤ instant a.available_at)
unfolding check_within
within_reach zero atoms ctx x y path passed d = cc
within_reach (suc fuel) atoms ctx x _ path passed (itself _) =
    let (a, found, known, _, _) = found_ok _ atoms ctx _ (checked fuel atoms ctx x path passed) in
    (a, a, found, found, known, omega arith)
within_reach (suc fuel) atoms ctx x y path passed (through _ p _ a' found' here rest) =
    let (a, found, known, each, _) =
      found_ok _ atoms ctx _ (checked fuel atoms ctx x path passed) in
    let same : a ≡ a' = cc in
    let (deeper, parent) = each_ok _ atoms a a.dependencies p each (rw same here) in
    let (c, found_p, le) = parent in
    let (c', b, found_c, found_b, knows, le') =
      within_reach fuel atoms ctx p y (path ++ x ∷ []) deeper rest in
    let same_c : c ≡ c' = cc in (a, b, found, found_b, knows, no_later a c c' b same_c le le')

-- An atom whose check passes is known to the actor, and so is every atom that it depends on, at any
-- depth: all of them are in the dictionary, from a checked source, addressed to the actor, published
-- before they were available, available at the instant of the context, and no later available than
-- the atom that depends on them.
pub check_atom-Known :
    (atoms : Dict Atom) (ctx : Context) (x y : ℕ)
    → check_atom atoms ctx x ≡ ok tt
    → DependsOn atoms x y
    → (a b : Atom) × (lookup x atoms ≡ some a)
      × (lookup y atoms ≡ some b)
      × Known ctx b
      × (instant b.available_at ≤ instant a.available_at)
unfolding check_atom
check_atom-Known atoms ctx x y passed d =
    within_reach (suc (length atoms)) atoms ctx x y [] passed d

pub raised_none {ℓ} :
    {A : Type ℓ} (o : Option A) (code : Error) {v : A} → or_raise o code ≡ ok v → o ≡ some v
raised_none none code h = cc
raised_none (some w) code h = cc
