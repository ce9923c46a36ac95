-- ===== src/Accounting/Trades.antt =====
-- A trade from its entry to its close or its settlement.
use auto_options_call_debit.Common.{
  *ℤ_mono, int_laws, *ℤ-sub, ℤ, pos, ◌≤ℤ◌, ◌+ℤ◌, ◌-ℤ◌, ◌*ℤ◌, ℕ, ◌≡◌, arith,
}
use auto_options_call_debit.Common.Outcome.{ok}
use auto_options_call_debit.Domain.Money.{quantize}
use auto_options_call_debit.Domain.Money.Rounding.{
  quantize-IsCents, IsCents-add, IsCents-sub, quantize_self, quantize_mono, IsCents,
}
use auto_options_call_debit.Accounting.{
  realized_pnl_usd, available, reserve_required_usd, apply_entry_fill, apply_exit_fill,
  apply_settlement, AccountSnapshot,
}
use auto_options_call_debit.Accounting.Cents.{
  available_exact, quantize-add, quantize-sub, quantize_cover, IsFunded,
}

-- The amounts of a round trip, all in whole cents.
pub record IsRoundTrip (credit debit : ℤ) (m : ℕ) (opening closing : ℤ) : Type 0 where
  pub credit_cents : IsCents (credit *ℤ m)
  pub debit_cents : IsCents (debit *ℤ m)
  pub opening_cents : IsCents opening
  pub closing_cents : IsCents closing

regroup_pnl : (c d o e cash : ℤ) → cash +ℤ (c -ℤ o) -ℤ (d +ℤ e) ≡ cash +ℤ (c -ℤ d -ℤ o -ℤ e)
regroup_pnl c d o e cash = omega int_laws

exit_ok :
    (s : AccountSnapshot) (debit : ℤ) (m : ℕ) (fees reserve : ℤ)
    → reserve ≤ℤ s.reserved
    → apply_exit_fill s debit m fees reserve
      ≡ ok (record {
        cash = quantize (s.cash -ℤ (debit *ℤ m +ℤ fees));
        reserved = quantize (s.reserved -ℤ reserve);
        fees_paid = quantize (s.fees_paid +ℤ fees);
      })
unfolding apply_exit_fill
exit_ok s debit m fees reserve h = ground arith

settlement_ok :
    (s : AccountSnapshot) (liability : ℤ) (m : ℕ) (fees reserve : ℤ)
    → reserve ≤ℤ s.reserved
    → apply_settlement s liability m fees reserve
      ≡ ok (record {
        cash = quantize (s.cash -ℤ (liability *ℤ m +ℤ fees));
        reserved = quantize (s.reserved -ℤ reserve);
        fees_paid = quantize (s.fees_paid +ℤ fees);
      })
unfolding apply_settlement
settlement_ok s liability m fees reserve h = ground arith

pnl_exact :
    (credit debit : ℤ) (m : ℕ) (opening closing : ℤ)
    → IsRoundTrip credit debit m opening closing
    → realized_pnl_usd credit debit m opening closing
      ≡ credit *ℤ m -ℤ debit *ℤ m -ℤ opening -ℤ closing
unfolding realized_pnl_usd
pnl_exact credit debit m opening closing r = rw (*ℤ-sub credit debit m) (
    quantize_self _ (
      IsCents-sub _ closing
        (IsCents-sub _ opening (IsCents-sub _ _ r.credit_cents r.debit_cents) r.opening_cents)
        r.closing_cents))

-- The account after the entry, before any rounding.
abbrev entered : AccountSnapshot → ℤ → ℕ → ℤ → AccountSnapshot
entered s credit m opening = record s {
  cash = s.cash +ℤ (credit *ℤ m -ℤ opening);
  fees_paid = s.fees_paid +ℤ opening;
}

-- The account's amounts, the fees, the reserve and both the credit and the debit times the multiplier
-- are whole cents, and the reserve is held. Then an entry fill and the exit fill of the same position
-- change the cash by the realized profit, with no rounding, release the position's reserve once, and add
-- up the fees.
pub entry-exit_pnl :
    (s : AccountSnapshot) (credit debit : ℤ) (m : ℕ) (opening closing reserve : ℤ)
    → IsFunded s
    → IsRoundTrip credit debit m opening closing
    → IsCents reserve
    → reserve ≤ℤ s.reserved
    → apply_exit_fill (apply_entry_fill s credit m opening reserve) debit m closing reserve
      ≡ ok (record {
        cash = s.cash +ℤ realized_pnl_usd credit debit m opening closing;
        reserved = s.reserved -ℤ reserve;
        fees_paid = s.fees_paid +ℤ opening +ℤ closing;
      })
unfolding apply_entry_fill
entry-exit_pnl s credit debit m opening closing reserve f r c h =
    let gain = IsCents-sub (credit *ℤ m) opening r.credit_cents r.opening_cents in
    let cost = IsCents-add (debit *ℤ m) closing r.debit_cents r.closing_cents in
    rw (
      quantize-add s.cash (credit *ℤ m -ℤ opening) f.cash_cents gain,
      quantize-add s.fees_paid opening f.fees_cents r.opening_cents,
      exit_ok (entered s credit m opening) debit m closing reserve h,
      quantize-sub (s.cash +ℤ (credit *ℤ m -ℤ opening)) (debit *ℤ m +ℤ closing)
          (IsCents-add s.cash (credit *ℤ m -ℤ opening) f.cash_cents gain) cost,
      quantize-sub s.reserved reserve f.reserved_cents c,
      quantize-add (s.fees_paid +ℤ opening) closing
          (IsCents-add s.fees_paid opening f.fees_cents r.opening_cents) r.closing_cents,
      pnl_exact credit debit m opening closing r,
      regroup_pnl (credit *ℤ m) (debit *ℤ m) opening closing s.cash,
    )

-- The largest cost of a settlement that a reserve was set aside for.
abbrev pub worst_case : ℤ → ℕ → ℤ → ℤ
worst_case width m buffer = width *ℤ m +ℤ buffer

settled_available :
    (s : AccountSnapshot) (cost need fees : ℤ)
    → IsFunded s
    → pos 0 ≤ℤ need
    → cost ≤ℤ need
    → available s
      ≤ℤ available (record {
        cash = quantize (s.cash -ℤ cost);
        reserved = quantize (s.reserved -ℤ quantize need);
        fees_paid = fees;
      })
settled_available s cost need fees f n c =
    rw
      (
        available_exact s f.cash_cents f.reserved_cents,
        available_exact
            (record {
              cash = quantize (s.cash -ℤ cost);
              reserved = quantize (s.reserved -ℤ quantize need);
              fees_paid = fees;
            })
            (quantize-IsCents (s.cash -ℤ cost)) (quantize-IsCents (s.reserved -ℤ quantize need)),
        quantize-sub s.reserved (quantize need) f.reserved_cents (quantize-IsCents need),
      )
      (omega (
        int_laws,
        quantize_cover s.cash need f.cash_cents n,
        quantize_mono (s.cash -ℤ need) (s.cash -ℤ cost) (omega int_laws),
      ))

-- Full-width encumbrance: with the reserve of a spread held, settling it at a liability of at most its
-- width, with fees of at most the buffer, succeeds and never lowers the capital that is available.
pub settlement_covered :
    (s : AccountSnapshot) (width liability : ℤ) (m : ℕ) (buffer fees : ℤ)
    → IsFunded s
    → pos 0 ≤ℤ liability
    → liability ≤ℤ width
    → pos 0 ≤ℤ fees
    → fees ≤ℤ buffer
    → reserve_required_usd width m buffer ≤ℤ s.reserved
    → (t : AccountSnapshot) × (apply_settlement s liability m fees
          (reserve_required_usd width m buffer)
        ≡ ok t)
      × (available s ≤ℤ available t)
unfolding reserve_required_usd
settlement_covered s width liability m buffer fees f l w p b h =
    let r = reserve_required_usd width m buffer in
    (
      record {
        cash = quantize (s.cash -ℤ (liability *ℤ m +ℤ fees));
        reserved = quantize (s.reserved -ℤ r);
        fees_paid = quantize (s.fees_paid +ℤ fees);
      },
      settlement_ok s liability m fees r h,
      settled_available s (liability *ℤ m +ℤ fees) (worst_case width m buffer)
          (quantize (s.fees_paid +ℤ fees)) f
          (omega (int_laws, *ℤ_mono (pos 0) width m (omega arith)))
          (omega (int_laws, *ℤ_mono liability width m w)),
    )
