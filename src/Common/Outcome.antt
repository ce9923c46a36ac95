-- ===== src/Common/Outcome.antt =====
-- Python's exceptions as values: a call returns, or raises an exception with its fixed code.
use mathlib.Core.Logic.{◌⊎◌, inl, inr}
use mathlib.Core.Path.{◌≡◌, refl}
use mathlib.Core.Bool.{Bool, true, false}
use mathlib.Core.Option.{Option, none, some}
use Prim.Native.String.{String}

-- The classes of exceptions that the modelled code raises.
pub data Error : Type 0 where
  domain_error : String → Error
  ledger_error : String → Error
  model_error : String → Error
  harness_error : String → Error
  calendar_error : String → Error
  rejection : String → Error
  data_pause : String → Error
  -- `d[k]` at a missing key
  key_error : Error
  -- a recursion that was given too little fuel: not an exception of the program
  no_fuel : Error

pub data Result {ℓ} (V : Type ℓ) : Type ℓ where
  err : Error → Result V
  ok : V → Result V

infixl 5 ◌>>◌
infixl 5 ◌>>=◌
-- The statements after a call run only if it returned.
abbrev pub ◌>>=◌ {ℓ κ} :
    {V : Type ℓ} {W : Type κ} (call : Result V) (rest : V → Result W) → Result W
err raised >>= rest = err raised
ok value >>= rest = rest value

abbrev pub ◌>>◌ {κ} : {W : Type κ} (call : Result (Unit {0})) (rest : Result W) → Result W
call >> rest = call >>= (λ done. rest)

-- `if test: raise e`
abbrev pub raise_if : Bool → Error → Result (Unit {0})
raise_if true e = err e
raise_if false e = ok tt

abbrev pub or_raise {ℓ} : {A : Type ℓ} → Option A → Error → Result A
or_raise none e = err e
or_raise (some a) e = ok a

-- A call that returned has passed each of its steps.
pub >>=-eq-ok {ℓ κ} :
    {V : Type ℓ} {W : Type κ} (call : Result V) (rest : V → Result W) {w : W}
    → (call >>= rest) ≡ ok w
    → (v : V) × (call ≡ ok v) × (rest v ≡ ok w)
>>=-eq-ok (err raised) rest returned = cc
>>=-eq-ok (ok v) rest returned = (v, refl, returned)

pub Result-cases {ℓ} :
    {V : Type ℓ} (call : Result V) → ((e : Error) × (call ≡ err e)) ⊎ ((v : V) × (call ≡ ok v))
Result-cases (err raised) = inl (raised, refl)
Result-cases (ok v) = inr (v, refl)
