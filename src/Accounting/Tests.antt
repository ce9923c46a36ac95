-- ===== src/Accounting/Tests.antt =====
-- One trade of a five-point spread, in cents.
use auto_options_call_debit.Common.{◌-ℤ◌, ◌*ℤ◌, pos, ◌≤ℤ◌, ◌+ℤ◌, ◌≡◌, refl, arith}
use auto_options_call_debit.Common.Outcome.{domain_error, ok, err}
use auto_options_call_debit.Domain.Money.{quantize, finite}
use auto_options_call_debit.Accounting.{
  realized_pnl_usd, available, reserve_required_usd, apply_entry_fill, apply_exit_fill,
  apply_settlement, hold_reservation, AccountSnapshot,
}
use auto_options_call_debit.Accounting.Cents.{IsFunded}
use auto_options_call_debit.Accounting.Reserves.{CanHold, hold-IsFunded}
use auto_options_call_debit.Accounting.Trades.{entry-exit_pnl, settlement_covered, IsRoundTrip}

-- 1000.00 of cash, 600.00 of it reserved.
abbrev account : AccountSnapshot
account = record { cash = pos 1000000000; reserved = pos 600000000; fees_paid = pos 0 }

account-IsFunded : IsFunded account
account-IsFunded = ground arith

held :
    hold_reservation account (finite (pos 300000000))
    ≡ ok (record account { reserved = pos 900000000 })
unfolding hold_reservation quantize ◌+ℤ◌ ◌-ℤ◌
held = refl

too_much :
    hold_reservation account (finite (pos 400010000))
    ≡ err (domain_error "INSUFFICIENT_AVAILABLE_CAPITAL")
unfolding hold_reservation quantize ◌+ℤ◌ ◌-ℤ◌
too_much = refl

hold-IsFunded_example :
    (CanHold account (pos 300000000)
      → hold_reservation account (finite (pos 300000000))
        ≡ ok (record account { reserved = pos 600000000 +ℤ pos 300000000 }))
    × ((t : AccountSnapshot)
        → hold_reservation account (finite (pos 300000000)) ≡ ok t
        → CanHold account (pos 300000000) × IsFunded t)
hold-IsFunded_example = hold-IsFunded account (pos 300000000) account-IsFunded (omega arith)

-- Sold for 1.25, bought back for 0.40, at 1.30 of fees each way.
trip : IsRoundTrip (pos 1250000) (pos 400000) 100 (pos 1300000) (pos 1300000)
unfolding ◌*ℤ◌
trip = record {
  credit_cents = (refl, refl);
  debit_cents = (refl, refl);
  opening_cents = (refl, refl);
  closing_cents = (refl, refl);
}

entry-exit_pnl_example :
    apply_exit_fill
      (apply_entry_fill account (pos 1250000) 100 (pos 1300000) (pos 600000000))
      (pos 400000)
      100
      (pos 1300000)
      (pos 600000000)
    ≡ ok (record {
      cash =
          pos 1000000000
          +ℤ realized_pnl_usd (pos 1250000) (pos 400000) 100 (pos 1300000) (pos 1300000);
      reserved = pos 600000000 -ℤ pos 600000000;
      fees_paid = pos 0 +ℤ pos 1300000 +ℤ pos 1300000;
    })
entry-exit_pnl_example =
    entry-exit_pnl account (pos 1250000) (pos 400000) 100 (pos 1300000) (pos 1300000)
      (pos 600000000) account-IsFunded trip (refl, refl) (omega arith)

reserve_held : reserve_required_usd (pos 5000000) 100 (pos 10000000) ≤ℤ account.reserved
unfolding reserve_required_usd quantize ◌+ℤ◌ ◌*ℤ◌
reserve_held = omega arith

settlement_covered_example :
    (t : AccountSnapshot) × (apply_settlement account
        (pos 5000000)
        100
        (pos 2600000)
        (reserve_required_usd (pos 5000000) 100 (pos 10000000))
      ≡ ok t)
    × (available account ≤ℤ available t)
settlement_covered_example =
    settlement_covered account (pos 5000000) (pos 5000000) 100 (pos 10000000) (pos 2600000)
      account-IsFunded (omega arith) (omega arith) (omega arith) (omega arith) reserve_held
