-- ===== src/Common/Dict.antt =====
-- A Python dict as an association list in insertion order. Its keys are the program's identifiers,
-- which are only compared: an identifier is the number that follows its prefix.
use Prim.Native.Nat.{ℕ}
use mathlib.Core.Path.{◌≡◌, refl}
use mathlib.Core.Logic.{◌≢◌}
use mathlib.Core.Option.{Option, none, some}
use mathlib.Core.List.{List, [], ◌∷◌}
use native.Mathlib.Omega.{arith}
use auto_options_call_debit.Common.Tests.{◌==◌, if◌then◌else◌}

abbrev pub Dict {κ} : Type κ → Type κ
Dict Value = List (ℕ × Value)

module _ {κ} {V : Type κ} where
  -- `d.get(key)`
  abbrev pub lookup : ℕ → Dict V → Option V
  lookup key [] = none
  lookup key (item ∷ rest) = if key == item.0 then some item.1 else lookup key rest

  -- `d[key] = value`: in place if the key is there, at the end if not
  abbrev pub insert : ℕ → V → Dict V → Dict V
  insert key value [] = (key, value) ∷ []
  insert key value (item ∷ rest) =
      if key == item.0 then (key, value) ∷ rest else item ∷ insert key value rest

  -- `d.values()`
  abbrev pub values : Dict V → List V
  values [] = []
  values ((k, v) ∷ d) = v ∷ values d

  pub lookup-insert :
      (j k : ℕ) (v : V) (d : Dict V)
      → lookup j (insert k v d) ≡ (if j == k then some v else lookup j d)
  lookup-insert j k v [] = refl
  lookup-insert j k v (e ∷ d) = ground (arith, lookup-insert j k v d)

  pub lookup-insert_self : (k : ℕ) (v : V) (d : Dict V) → lookup k (insert k v d) ≡ some v
  lookup-insert_self k v d = ground (arith, lookup-insert k k v d)

  pub lookup-insert_ne :
      (j k : ℕ) (v : V) (d : Dict V) → j ≢ k → lookup j (insert k v d) ≡ lookup j d
  lookup-insert_ne j k v d h = ground (arith, lookup-insert j k v d)
