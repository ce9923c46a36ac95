-- ===== src/Common/Action.antt =====
-- Methods that mutate an object and may raise. What was written before a raise stays written, so the
-- state comes back beside the error too.

use mathlib.Core.Path.{◌≡◌, refl}
use mathlib.Core.Bool.{Bool, true, false}
use mathlib.Core.Option.{Option, none, some}
use auto_options_call_debit.Common.Outcome.{Error, Result, ok, err}

abbrev pub Action {ℓ κ} : Type ℓ → Type κ → Type (ℓ ⊔ κ)
Action S A = S → Result A × S

module _ {ℓ κ} {S : Type ℓ} {A : Type κ} where
  abbrev pub pure : A → Action S A
  pure a s = (ok a, s)

  abbrev pub raise : Error → Action S A
  raise e s = (err e, s)

  abbrev pub lift : Result A → Action S A
  lift r s = (r, s)

  abbrev pub gets : (S → A) → Action S A
  gets f s = (ok (f s), s)

  abbrev pub need : Option A → Error → Action S A
  need none e = raise e
  need (some a) e = pure a

module _ {ℓ} {S : Type ℓ} where
  abbrev pub modify : (S → S) → Action S (Unit {0})
  modify f s = (ok tt, f s)

  abbrev pub guard_not : Bool → Error → Action S (Unit {0})
  guard_not true e s = (err e, s)
  guard_not false e s = (ok tt, s)

infixl 5 ◌>>=◌ ◌>>◌
abbrev pub ◌>>=◌ {ℓ κ μ} :
    {S : Type ℓ} {A : Type κ} {B : Type μ} → Action S A → (A → Action S B) → Action S B
◌>>=◌ m f s = let (r, s') = m s in elim r [ ok a ↦ f a s' | err e ↦ (err e, s') ]

abbrev pub ◌>>◌ {ℓ κ μ} :
    {S : Type ℓ} {A : Type κ} {B : Type μ} → Action S A → Action S B → Action S B
m >> k = m >>= λ _. k

-- A composition that returned has run both of its actions.
pub bind_ok {ℓ κ μ} :
    {S : Type ℓ} {A : Type κ} {B : Type μ} (p : Result A × S) (f : A → Action S B) (start end : S)
    (b : B)
    → ((λ (_ : S). p) >>= f) start ≡ (ok b, end)
    → (a : A) × (next : S) × (p ≡ (ok a, next)) × (f a next ≡ (ok b, end))
bind_ok (ok a, next) f start end b h = (a, next, refl, h)
bind_ok (err x, next) f start end b h = cc
