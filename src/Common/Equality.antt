-- ===== src/Common/Equality.antt =====
-- `==` of compound values, as Boolean tests that tell the values apart.
use auto_options_call_debit.Common.Tests.{◌==◌}
use Prim.Native.Nat.{ℕ}
use Prim.Native.String.{String}
use mathlib.Core.Path.{◌≡◌, refl, ap}
use mathlib.Core.Bool.{Bool, true, false, ◌&&◌, ◌||◌}
use mathlib.Core.Option.{Option, none, some}
use mathlib.Core.List.{List, [], ◌∷◌}
use text.Mathlib.Text.{◌==◌ as str_eq}
use text.Mathlib.TextEquality.{eq_iff}
use native.Mathlib.Omega.{arith}

module _ {ℓ} {A : Type ℓ} where
  abbrev pub TellsApart : (A → A → Bool) → Type ℓ
  TellsApart eq = (x y : A) → eq x y ≡ true → x ≡ y

  abbrev pub list_eq : (A → A → Bool) → List A → List A → Bool
  list_eq eq [] [] = true
  list_eq eq (x ∷ xs) (y ∷ ys) = eq x y && list_eq eq xs ys
  list_eq eq _ _ = false

  abbrev pub option_eq : (A → A → Bool) → Option A → Option A → Bool
  option_eq eq none none = true
  option_eq eq (some x) (some y) = eq x y
  option_eq eq _ _ = false

pub both_true : {a b : Bool} → (a && b) ≡ true → (a ≡ true) × (b ≡ true)
both_true {a = true} h = (refl, h)
both_true {a = false} h = cc

pub not_either : (a b : Bool) → (a || b) ≡ false → (a ≡ false) × (b ≡ false)
not_either true b h = cc
not_either false b h = (refl, h)

pub nat-TellsApart : TellsApart (λ (x y : ℕ). x == y)
nat-TellsApart x y h = ground (arith, h)

pub text-TellsApart : TellsApart (λ (x y : String). str_eq x y)
text-TellsApart x y h = (eq_iff x y).0 h

pub list-TellsApart {ℓ} : {A : Type ℓ} (eq : A → A → Bool) → TellsApart eq → TellsApart (list_eq eq)
list-TellsApart eq apart [] [] h = refl
list-TellsApart eq apart [] (y ∷ ys) h = cc
list-TellsApart eq apart (x ∷ xs) [] h = cc
list-TellsApart eq apart (x ∷ xs) (y ∷ ys) h =
    let (first, rest) = both_true h in
    let same : x ≡ y = apart x y first in
    let others : xs ≡ ys = list-TellsApart eq apart xs ys rest in cc

pub option-TellsApart {ℓ} :
    {A : Type ℓ} (eq : A → A → Bool) → TellsApart eq → TellsApart (option_eq eq)
option-TellsApart eq apart none none h = refl
option-TellsApart eq apart none (some y) h = cc
option-TellsApart eq apart (some x) none h = cc
option-TellsApart eq apart (some x) (some y) h = ap some (apart x y h)
