-- ===== src/Common/Lists.antt =====
-- Lists measured by native numbers, and predicates on their elements.
use Prim.Native.Nat.{ℕ, suc, ◌+◌}
use mathlib.Core.Path.{◌≡◌}
use mathlib.Core.Bool.{Bool, true, false}
use text.Mathlib.Text.{◌==◌ as str_eq}
use Prim.Native.String.{String}
use mathlib.Core.List.{List, [], ◌∷◌, ◌++◌}
use native.Mathlib.Omega.{arith}
use auto_options_call_debit.Common.Tests.{◌==◌, if◌then◌else◌}

module _ {ℓ} {A : Type ℓ} where
  abbrev pub length : List A → ℕ
  length [] = 0
  length (x ∷ xs) = suc (length xs)

  -- `[x for x in xs if test(x)]`
  abbrev pub keep : (A → Bool) → List A → List A
  keep test [] = []
  keep test (x ∷ xs) = if test x then x ∷ keep test xs else keep test xs

  pub length-append : (xs ys : List A) → length (xs ++ ys) ≡ length xs + length ys
  length-append [] ys = omega arith
  length-append (x ∷ xs) ys = omega (arith, length-append xs ys)

-- `all(...)`, as a proposition
abbrev pub All {ℓ κ} : {A : Type ℓ} (Holds : A → Type κ) (items : List A) → Type κ
All Holds (item ∷ items) = Holds item × All Holds items
All Holds [] = Unit

pub All-append {ℓ κ} :
    {A : Type ℓ} (Holds : A → Type κ) (front back : List A)
    → All Holds front
    → All Holds back
    → All Holds (front ++ back)
All-append Holds (item ∷ front) back (first, others) last =
    (first, All-append Holds front back others last)
All-append Holds [] back none_first last = last

-- `x in xs`
abbrev pub member : ℕ → List ℕ → Bool
member x [] = false
member x (y ∷ ys) = if x == y then true else member x ys

-- `text in texts`
abbrev pub among : String → List String → Bool
among text [] = false
among text (other ∷ others) = if str_eq text other then true else among text others

pub All-map {ℓ κ μ} :
    {A : Type ℓ} (P : A → Type κ) (Q : A → Type μ) (items : List A)
    → ((item : A) → P item → Q item)
    → All P items
    → All Q items
All-map P Q [] weaker held = tt
All-map P Q (item ∷ items) weaker (first, others) =
    (weaker item first, All-map P Q items weaker others)

-- `sorted(values, key=...)`, where `before` says that a key is less than another.
unfoldable pub insert_sorted : {A : Type 0} → (A → A → Bool) → A → List A → List A
insert_sorted before x [] = x ∷ []
insert_sorted before x (y ∷ ys) = if before y x then y ∷ insert_sorted before x ys else x ∷ y ∷ ys

unfoldable pub sorted : {A : Type 0} → (A → A → Bool) → List A → List A
unfolding insert_sorted
sorted before [] = []
sorted before (x ∷ xs) = insert_sorted before x (sorted before xs)
