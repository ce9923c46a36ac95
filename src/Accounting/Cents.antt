-- ===== src/Accounting/Cents.antt =====
-- Accounts kept in whole cents, and the facts on rounding that the operations need.
use auto_options_call_debit.Common.{
  ℕ, suc, negsuc, ◌%◌, ◌+◌, ◌-◌, arith, ◌≤◌, ◌≡◌, neg, ℤ, pos, ◌≤ℤ◌, ◌+ℤ◌, ◌-ℤ◌, ◌≡◌,
}
use auto_options_call_debit.Domain.Money.{cent, round_cents, quantize}
use auto_options_call_debit.Domain.Money.Rounding.{IsCents, quantize_self, IsCents-add, IsCents-sub}
use auto_options_call_debit.Accounting.{available, AccountSnapshot}

-- Whole cents, and no more reserved than there is cash.
pub record IsFunded (s : AccountSnapshot) : Type 0 where
  pub cash_cents : IsCents s.cash
  pub reserved_cents : IsCents s.reserved
  pub fees_cents : IsCents s.fees_paid
  pub reserved_nonneg : pos 0 ≤ℤ s.reserved
  pub covered : s.reserved ≤ℤ s.cash

pub available_exact :
    (s : AccountSnapshot) → IsCents s.cash → IsCents s.reserved → available s ≡ s.cash -ℤ s.reserved
unfolding available
available_exact s c r = quantize_self (s.cash -ℤ s.reserved) (IsCents-sub s.cash s.reserved c r)

pub quantize-add : (v w : ℤ) → IsCents v → IsCents w → quantize (v +ℤ w) ≡ v +ℤ w
quantize-add v w h k = quantize_self (v +ℤ w) (IsCents-add v w h k)

pub quantize-sub : (v w : ℤ) → IsCents v → IsCents w → quantize (v -ℤ w) ≡ v -ℤ w
quantize-sub v w h k = quantize_self (v -ℤ w) (IsCents-sub v w h k)

-- With `c` in whole cents, rounding the rest of `c` and rounding what is taken from it fit together.
round_cover :
    (c w : ℕ)
    → c % cent ≡ 0
    → (w ≤ c → c ≤ round_cents (c - w) + round_cents w)
      × (c ≤ w → c + round_cents (w - c) ≤ round_cents w)
      × (round_cents (w + c) ≤ round_cents w + c)
unfolding round_cents
round_cover c w h = (λ k. omega arith, λ k. omega arith, omega arith)

-- A cost that is not in whole cents is never charged at more than its own rounded amount.
pub quantize_cover : (c w : ℤ) → IsCents c → pos 0 ≤ℤ w → c -ℤ quantize w ≤ℤ quantize (c -ℤ w)
unfolding quantize ◌-ℤ◌ neg
quantize_cover (pos c) (pos w) h k =
    ground (arith, (round_cover c w h.0).0, (round_cover c w h.0).1)
quantize_cover (negsuc c) (pos w) h k = ground (arith, (round_cover (suc c) w h.1).2)
quantize_cover c (negsuc w) h k = absurd (omega arith)
