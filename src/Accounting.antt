-- ===== src/Accounting.antt =====
-- Cash, reserves and profit (engine/accounting.py).
pub mod Cents
pub mod Reserves
pub mod Trades
mod Tests
use auto_options_call_debit.Common.{ℤ, pos, ltb_ℤ, leb_ℤ, ◌+ℤ◌, ◌-ℤ◌, ◌*ℤ◌, ℕ, not, if◌then◌else◌}
use auto_options_call_debit.Common.Outcome.{
  ◌>>=◌, ◌>>◌, raise_if, Error, Result, domain_error, ok, err,
}
use auto_options_call_debit.Domain.Money.{is_finite, quantize, Decimal, finite, special}

unfoldable pub gross_max_profit_usd : ℤ → ℕ → ℤ
gross_max_profit_usd credit m = quantize (credit *ℤ m)

unfoldable pub gross_max_expiration_loss_usd : ℤ → ℤ → ℕ → ℤ
gross_max_expiration_loss_usd width credit m = quantize ((width -ℤ credit) *ℤ m)

unfoldable pub realized_pnl_usd : ℤ → ℤ → ℕ → ℤ → ℤ → ℤ
realized_pnl_usd credit debit m opening_fees closing_fees =
    quantize ((credit -ℤ debit) *ℤ m -ℤ opening_fees -ℤ closing_fees)

unfoldable pub estimated_liquidation_pnl_usd : ℤ → ℤ → ℕ → ℤ → ℤ → ℤ
unfolding realized_pnl_usd
estimated_liquidation_pnl_usd credit current_debit m opening_fees closing_fees =
    realized_pnl_usd credit current_debit m opening_fees closing_fees

pub record AccountSnapshot : Type 0 where
  pub cash : ℤ
  pub reserved : ℤ
  pub fees_paid : ℤ

unfoldable pub available : AccountSnapshot → ℤ
available s = quantize (s.cash -ℤ s.reserved)

unfoldable pub reserve_required_usd : ℤ → ℕ → ℤ → ℤ
reserve_required_usd width m buffer = quantize (width *ℤ m +ℤ buffer)

-- The last argument is the reservation's reserve, which the fill does not change.
unfoldable pub apply_entry_fill : AccountSnapshot → ℤ → ℕ → ℤ → ℤ → AccountSnapshot
apply_entry_fill s credit m fees reserve = record {
  cash = quantize (s.cash +ℤ (credit *ℤ m -ℤ fees));
  reserved = s.reserved;
  fees_paid = quantize (s.fees_paid +ℤ fees);
}

abbrev exceeds_reserved : Error
exceeds_reserved = domain_error "RESERVE_RELEASE_EXCEEDS_RESERVED"

unfoldable pub apply_exit_fill : AccountSnapshot → ℤ → ℕ → ℤ → ℤ → Result AccountSnapshot
apply_exit_fill s debit m fees reserve =
    if ltb_ℤ s.reserved reserve
    then err exceeds_reserved
    else ok (record {
      cash = quantize (s.cash -ℤ (debit *ℤ m +ℤ fees));
      reserved = quantize (s.reserved -ℤ reserve);
      fees_paid = quantize (s.fees_paid +ℤ fees);
    })

unfoldable pub apply_settlement : AccountSnapshot → ℤ → ℕ → ℤ → ℤ → Result AccountSnapshot
apply_settlement s liability m fees reserve =
    if ltb_ℤ s.reserved reserve
    then err exceeds_reserved
    else ok (record {
      cash = quantize (s.cash -ℤ (liability *ℤ m +ℤ fees));
      reserved = quantize (s.reserved -ℤ reserve);
      fees_paid = quantize (s.fees_paid +ℤ fees);
    })

-- `not reserve.is_finite() or reserve <= 0`
unfoldable pub positive_reserve : Decimal → Result ℤ
positive_reserve (finite v) =
    if leb_ℤ v (pos 0) then err (domain_error "NONPOSITIVE_RESERVE") else ok v
positive_reserve special = err (domain_error "NONPOSITIVE_RESERVE")

unfoldable pub hold_reservation : AccountSnapshot → Decimal → Result AccountSnapshot
unfolding positive_reserve available
hold_reservation s reserve = do
  v ← positive_reserve reserve
  raise_if (ltb_ℤ (available s) v) (domain_error "INSUFFICIENT_AVAILABLE_CAPITAL")
  ok (record s { reserved = quantize (s.reserved +ℤ v) })

unfoldable pub release_reservation : AccountSnapshot → Decimal → Result AccountSnapshot
unfolding positive_reserve
release_reservation s reserve = do
  v ← positive_reserve reserve
  raise_if (ltb_ℤ s.reserved v) exceeds_reserved
  ok (record s { reserved = quantize (s.reserved -ℤ v) })
