-- ===== src/Domain/Money/Rounding.antt =====
-- Rounding to whole cents.
use auto_options_call_debit.Common.{
  ℕ, one_sign, neg, ℤ, pos, negsuc, pos_part, neg_part, ◌≤ℤ◌, eq_of_parts, int_laws, ◌+ℤ◌, ◌-ℤ◌,
  suc, ◌+◌, ◌%◌, ◌≤◌, ◌≡◌, arith,
}
use auto_options_call_debit.Domain.Money.{cent, round_cents, quantize}

-- Some whole number of cents, of either sign.
abbrev pub IsCents : ℤ → Type 0
IsCents v = (pos_part v % cent ≡ 0) × (neg_part v % cent ≡ 0)

round_cents_bounds : (n : ℕ) → (n ≤ round_cents n + 5000) × (round_cents n ≤ n + 5000)
unfolding round_cents
round_cents_bounds n = (omega arith, omega arith)

round_cents-IsCents : (n : ℕ) → round_cents n % cent ≡ 0
unfolding round_cents
round_cents-IsCents n = omega arith

round_cents_self : (n : ℕ) → n % cent ≡ 0 → round_cents n ≡ n
unfolding round_cents
round_cents_self n h = omega arith

round_cents_mono : (m n : ℕ) → m ≤ n → round_cents m ≤ round_cents n
unfolding round_cents
round_cents_mono m n h = omega arith

neg_pos-IsCents : (n : ℕ) → n % cent ≡ 0 → IsCents (neg (pos n))
unfolding neg
neg_pos-IsCents n h = ground arith

pub quantize-IsCents : (v : ℤ) → IsCents (quantize v)
unfolding quantize
quantize-IsCents (pos n) = (round_cents-IsCents n, omega arith)
quantize-IsCents (negsuc n) = neg_pos-IsCents (round_cents (suc n)) (round_cents-IsCents (suc n))

-- The value with its parts rounded: what `quantize` is on either sign.
pub quantize_parts :
    (v : ℤ)
    → (pos_part (quantize v) ≡ round_cents (pos_part v))
      × (neg_part (quantize v) ≡ round_cents (neg_part v))
unfolding quantize round_cents neg
quantize_parts (pos n) = (omega arith, omega arith)
quantize_parts (negsuc n) = ground arith

-- The rounded amount is a whole number of cents and lies within half a cent of the value.
pub quantize_nearest :
    (v : ℤ) → IsCents (quantize v) × (quantize v ≤ℤ v +ℤ pos 5000) × (v ≤ℤ quantize v +ℤ pos 5000)
unfolding quantize ◌+ℤ◌
quantize_nearest v = (
  quantize-IsCents v,
  omega (
    int_laws,
    one_sign v,
    quantize_parts v,
    round_cents_bounds (pos_part v),
    round_cents_bounds (neg_part v),
  ),
  omega (
    int_laws,
    one_sign v,
    quantize_parts v,
    round_cents_bounds (pos_part v),
    round_cents_bounds (neg_part v),
  ),
)

-- Whole cents are left as they are.
pub quantize_self : (v : ℤ) → IsCents v → quantize v ≡ v
quantize_self v h = eq_of_parts (quantize v) v (
    omega (
      arith,
      quantize_parts v,
      round_cents_self (pos_part v) h.0,
      round_cents_self (neg_part v) h.1,
    ))

sign_mono : (v w : ℤ) → v ≤ℤ w → (pos_part v ≤ pos_part w) × (neg_part w ≤ neg_part v)
sign_mono v w h = ground arith

-- Rounding keeps the order of amounts.
pub quantize_mono : (v w : ℤ) → v ≤ℤ w → quantize v ≤ℤ quantize w
quantize_mono v w h = omega (
  arith,
  quantize_parts v,
  quantize_parts w,
  round_cents_mono (pos_part v) (pos_part w) (sign_mono v w h).0,
  round_cents_mono (neg_part w) (neg_part v) (sign_mono v w h).1,
)

-- A gain and the equal loss round to the same size.
pub quantize-neg : (v : ℤ) → quantize (neg v) ≡ neg (quantize v)
unfolding neg
quantize-neg v = ground (arith, quantize_parts v, quantize_parts (neg v))

pub IsCents-add : (v w : ℤ) → IsCents v → IsCents w → IsCents (v +ℤ w)
unfolding ◌+ℤ◌
IsCents-add v w h k = ground arith

pub IsCents-sub : (v w : ℤ) → IsCents v → IsCents w → IsCents (v -ℤ w)
unfolding ◌-ℤ◌
IsCents-sub v w h k = ground arith

pub ruleset cents_rules = (quantize-IsCents, IsCents-add, IsCents-sub)
