-- ===== src/Common/Int.antt =====
-- Signed integers over the native numbers, under the library's names. The Decimal amounts of the
-- program are such integers, counted in a fixed unit (Domain/Money).
use Prim.Native.Nat.{ℕ, suc, ◌+◌, ◌-◌, ◌*◌, ◌≤◌}
use mathlib.Core.Path.{◌≡◌, ap}
use mathlib.Core.Logic.{◌⊎◌}
use mathlib.Core.Bool.{Bool, true}
use native.Mathlib.Omega.{arith}
use auto_options_call_debit.Common.Tests.{ltb, leb, ◌==◌, if◌then◌else◌}

-- `negsuc n` is -(n + 1).
pub data ℤ : Type 0 where
  pos : ℕ → ℤ
  negsuc : ℕ → ℤ

abbrev pub pos_part : ℤ → ℕ
pos_part (pos n) = n
pos_part (negsuc n) = 0

abbrev pub neg_part : ℤ → ℕ
neg_part (pos n) = 0
neg_part (negsuc n) = suc n

-- a - b, as an integer.
abbrev pub sub_ℕ : ℕ → ℕ → ℤ
sub_ℕ a b = if leb b a then pos (a - b) else negsuc (b - a - 1)

infixl 65 ◌+ℤ◌ ◌-ℤ◌
infixl 70 ◌*ℤ◌
infix 50 ◌≤ℤ◌ ◌<ℤ◌
unfoldable pub ◌+ℤ◌ : ℤ → ℤ → ℤ
a +ℤ b = sub_ℕ (pos_part a + pos_part b) (neg_part a + neg_part b)

unfoldable pub ◌-ℤ◌ : ℤ → ℤ → ℤ
a -ℤ b = sub_ℕ (pos_part a + neg_part b) (neg_part a + pos_part b)

-- An amount times a count, such as the contract multiplier.
unfoldable pub ◌*ℤ◌ : ℤ → ℕ → ℤ
a *ℤ m = sub_ℕ (pos_part a * m) (neg_part a * m)

unfoldable pub neg : ℤ → ℤ
neg a = sub_ℕ (neg_part a) (pos_part a)

abbrev pub ◌≤ℤ◌ : ℤ → ℤ → Type 0
a ≤ℤ b = pos_part a + neg_part b ≤ pos_part b + neg_part a

abbrev pub ◌<ℤ◌ : ℤ → ℤ → Type 0
a <ℤ b = suc (pos_part a + neg_part b) ≤ pos_part b + neg_part a

abbrev pub ltb_ℤ : ℤ → ℤ → Bool
ltb_ℤ a b = ltb (pos_part a + neg_part b) (pos_part b + neg_part a)

abbrev pub leb_ℤ : ℤ → ℤ → Bool
leb_ℤ a b = leb (pos_part a + neg_part b) (pos_part b + neg_part a)

abbrev pub eqb_ℤ : ℤ → ℤ → Bool
eqb_ℤ a b = (pos_part a + neg_part b) == (pos_part b + neg_part a)

-- Python's `max`.
unfoldable pub max_ℤ : ℤ → ℤ → ℤ
max_ℤ a b = if ltb_ℤ a b then b else a

unfoldable pub abs : ℤ → ℤ
abs a = if ltb_ℤ a (pos 0) then neg a else a

pub +ℤ_parts :
    (a b : ℤ)
    → pos_part (a +ℤ b) + neg_part a + neg_part b ≡ neg_part (a +ℤ b) + pos_part a + pos_part b
unfolding ◌+ℤ◌
+ℤ_parts a b = ground arith

pub -ℤ_parts :
    (a b : ℤ)
    → pos_part (a -ℤ b) + neg_part a + pos_part b ≡ neg_part (a -ℤ b) + pos_part a + neg_part b
unfolding ◌-ℤ◌
-ℤ_parts a b = ground arith

pub *ℤ_parts :
    (a : ℤ) (m : ℕ) → pos_part (a *ℤ m) + neg_part a * m ≡ neg_part (a *ℤ m) + pos_part a * m
unfolding ◌*ℤ◌
*ℤ_parts a m = ground arith

pub neg_parts : (a : ℤ) → pos_part (neg a) + pos_part a ≡ neg_part (neg a) + neg_part a
unfolding neg
neg_parts a = ground arith

pub max_ℤ_cases : (a b : ℤ) → ((max_ℤ a b ≡ a) × (b ≤ℤ a)) ⊎ ((max_ℤ a b ≡ b) × (a ≤ℤ b))
unfolding max_ℤ
max_ℤ_cases a b = ground arith

pub one_sign : (a : ℤ) → (pos_part a ≡ 0) ⊎ (neg_part a ≡ 0)
one_sign a = ground arith

pub abs_parts : (a : ℤ) → (pos_part (abs a) ≡ pos_part a + neg_part a) × (neg_part (abs a) ≡ 0)
unfolding abs neg
abs_parts a = ground arith

-- `max(x, 0)` in parts.
pub max_zero :
    (a : ℤ) → (pos_part (max_ℤ a (pos 0)) ≡ pos_part a) × (neg_part (max_ℤ a (pos 0)) ≡ 0)
unfolding max_ℤ
max_zero a = ground arith

pub abs_cases : (a : ℤ) → ((abs a ≡ a) × (pos 0 ≤ℤ a)) ⊎ ((abs a ≡ neg a) × (a <ℤ pos 0))
unfolding abs
abs_cases a = ground arith

pub eq_of_parts : (a b : ℤ) → pos_part a + neg_part b ≡ pos_part b + neg_part a → a ≡ b
eq_of_parts a b h = ground arith

pub ruleset int_laws = (arith, +ℤ_parts, -ℤ_parts, *ℤ_parts, neg_parts, eq_of_parts)

pub eqb_ℤ→eq : (a b : ℤ) → eqb_ℤ a b ≡ true → a ≡ b
eqb_ℤ→eq a b h = eq_of_parts a b (ground arith)

pub +ℤ_cancel : (a b : ℤ) → a +ℤ b -ℤ b ≡ a
+ℤ_cancel a b = omega int_laws

-- Multiplication by a count distributes over sums and differences.
pub *ℤ-sub : (a b : ℤ) (m : ℕ) → (a -ℤ b) *ℤ m ≡ a *ℤ m -ℤ b *ℤ m
*ℤ-sub a b m = omega (int_laws, ap (λ (t : ℕ). t * m) (-ℤ_parts a b))

mul_mono : (a b m : ℕ) → a ≤ b → a * m ≤ b * m
mul_mono a b m h = grind arith

pub *ℤ_mono : (a b : ℤ) (m : ℕ) → a ≤ℤ b → a *ℤ m ≤ℤ b *ℤ m
*ℤ_mono a b m h = omega (int_laws, mul_mono (pos_part a + neg_part b) (pos_part b + neg_part a) m h)
