-- ===== src/Accounting/Reserves.antt =====
-- Holding and releasing a reserve: nothing else moves, and the account stays funded.
use auto_options_call_debit.Common.{int_laws, +ℤ_cancel, ℤ, pos, ◌≤ℤ◌, ◌+ℤ◌, ◌-ℤ◌, ◌≡◌, arith}
use auto_options_call_debit.Common.Outcome.{ok}
use auto_options_call_debit.Domain.Money.{quantize, finite}
use auto_options_call_debit.Domain.Money.Rounding.{IsCents-add, quantize_self, IsCents}
use auto_options_call_debit.Accounting.{
  available, hold_reservation, release_reservation, AccountSnapshot,
}
use auto_options_call_debit.Accounting.Cents.{available_exact, quantize-add, IsFunded}

-- What a hold of `v` requires: a positive amount that the free capital covers.
abbrev pub CanHold : AccountSnapshot → ℤ → Type 0
CanHold s v = (pos 1 ≤ℤ v) × (v ≤ℤ available s)

hold_finite :
    (s : AccountSnapshot) (v : ℤ)
    → CanHold s v
    → hold_reservation s (finite v) ≡ ok (record s { reserved = quantize (s.reserved +ℤ v) })
unfolding hold_reservation
hold_finite s v h = ground arith

hold_only_if :
    (s : AccountSnapshot) (v : ℤ) {t : AccountSnapshot}
    → hold_reservation s (finite v) ≡ ok t
    → CanHold s v × (t ≡ record s { reserved = quantize (s.reserved +ℤ v) })
unfolding hold_reservation
hold_only_if s v h = ground arith

held-IsFunded :
    (s : AccountSnapshot) (v : ℤ)
    → IsFunded s
    → IsCents v
    → CanHold s v
    → IsFunded (record s { reserved = s.reserved +ℤ v })
held-IsFunded s v f c can =
    let room : v ≤ℤ s.cash -ℤ s.reserved =
      rw (available_exact s f.cash_cents f.reserved_cents) at can.1 in
    record {
      cash_cents = f.cash_cents;
      reserved_cents = IsCents-add s.reserved v f.reserved_cents c;
      fees_cents = f.fees_cents;
      reserved_nonneg = omega (int_laws, f.reserved_nonneg, can.0);
      covered = omega (int_laws, room);
    }

-- On a funded account a hold succeeds exactly when the amount is positive and at most what is
-- available; it then adds the amount to the reserve and leaves the account funded.
pub hold-IsFunded :
    (s : AccountSnapshot) (v : ℤ)
    → IsFunded s
    → IsCents v
    → (CanHold s v → hold_reservation s (finite v) ≡ ok (record s { reserved = s.reserved +ℤ v }))
      × ((t : AccountSnapshot) → hold_reservation s (finite v) ≡ ok t → CanHold s v × IsFunded t)
hold-IsFunded s v f c = (
  λ can. rw (hold_finite s v can, quantize-add s.reserved v f.reserved_cents c),
  λ t h.
      let (can, e) = hold_only_if s v h in
      (can, rw (e, quantize-add s.reserved v f.reserved_cents c) (held-IsFunded s v f c can)),
)

release_finite :
    (s : AccountSnapshot) (v : ℤ)
    → pos 1 ≤ℤ v
    → v ≤ℤ s.reserved
    → release_reservation s (finite v) ≡ ok (record s { reserved = quantize (s.reserved -ℤ v) })
unfolding release_reservation
release_finite s v h k = ground arith

held_enough : (s : AccountSnapshot) (v : ℤ) → IsFunded s → v ≤ℤ s.reserved +ℤ v
held_enough s v f = omega (int_laws, f.reserved_nonneg)

-- Holding a reserve and releasing it gives the account back as it was.
hold-release :
    (s : AccountSnapshot) (v : ℤ) {t : AccountSnapshot}
    → IsFunded s
    → IsCents v
    → hold_reservation s (finite v) ≡ ok t
    → release_reservation t (finite v) ≡ ok s
hold-release s v f c h =
    let (can, e) = hold_only_if s v h in
    rw (e, quantize-add s.reserved v f.reserved_cents c)
      (rw (release_finite (record s { reserved = s.reserved +ℤ v }) v can.0 (held_enough s v f))
        (rw (+ℤ_cancel s.reserved v, quantize_self s.reserved f.reserved_cents)))
