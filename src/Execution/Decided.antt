-- ===== src/Execution/Decided.antt =====
-- An attempt on two quotes that can be used.
use auto_options_call_debit.Common.{
  ℤ, leb_ℤ, ℕ, ◌≡◌, refl, ◌∙◌, ◌≢◌, ◌⊎◌, inl, inr, true, not, some, arith, if◌then◌else◌,
  Bool-cases,
}
use auto_options_call_debit.Common.Outcome.{ok}
use auto_options_call_debit.Domain.Quote.{usable_at, Quote}
use auto_options_call_debit.Execution.{
  no_fill, package_open_credit, package_close_debit, try_fill, Intent, PackageOrder, FillOutcome,
  open_package, close_package, filled, limit_not_met, size_inadequate, at_limit, leg_sizes_ok,
}

-- The attempt comes down to the sizes and the price: it has a price if it fills.
abbrev pub IsDecided : FillOutcome → Type 0
IsDecided f =
    ((f.status ≡ filled) × (price : ℤ) × (f.package_price_points ≡ some price))
    ⊎ ((f.status ≡ limit_not_met) ⊎ (f.status ≡ size_inadequate))

priced_status :
    (i : Intent) (limit : ℤ) (s l : Quote) (at : ℕ) → IsDecided (at_limit i limit s l at)
unfolding at_limit
priced_status open_package limit s l at =
    elim (Bool-cases (leb_ℤ limit (package_open_credit s l))) [
      | inl met ↦ rw met (inl (refl, package_open_credit s l, refl))
      | inr unmet ↦ inr (inl (rw unmet refl))
    ]
priced_status close_package limit s l at =
    elim (Bool-cases (leb_ℤ (package_close_debit s l) limit)) [
      | inl met ↦ rw met (inl (refl, package_close_debit s l, refl))
      | inr unmet ↦ inr (inl (rw unmet refl))
    ]

to_sizes :
    (o : PackageOrder) (s l : Quote)
    → s.contract_id ≢ l.contract_id
    → s.snapshot_at_utc ≡ l.snapshot_at_utc
    → usable_at s o.first_eligible_at_utc ≡ true
    → usable_at l o.first_eligible_at_utc ≡ true
    → try_fill o (some s) (some l) o.first_eligible_at_utc ≡ (
        if not (leg_sizes_ok o.intent s l)
        then ok (no_fill size_inadequate)
        else ok (at_limit o.intent o.limit_points s l o.first_eligible_at_utc))
unfolding try_fill
to_sizes o s l apart same us ul = ground arith

pub usable-IsDecided :
    (o : PackageOrder) (s l : Quote)
    → s.contract_id ≢ l.contract_id
    → s.snapshot_at_utc ≡ l.snapshot_at_utc
    → usable_at s o.first_eligible_at_utc ≡ true
    → usable_at l o.first_eligible_at_utc ≡ true
    → (f : FillOutcome) × (try_fill o (some s) (some l) o.first_eligible_at_utc ≡ ok f)
      × IsDecided f
usable-IsDecided o s l apart same us ul = elim (Bool-cases (leg_sizes_ok o.intent s l)) [
  | inl sized ↦ (
    at_limit o.intent o.limit_points s l o.first_eligible_at_utc,
    to_sizes o s l apart same us ul ∙ rw sized refl,
    priced_status o.intent o.limit_points s l o.first_eligible_at_utc,
  )
  | inr small ↦
      (no_fill size_inadequate, to_sizes o s l apart same us ul ∙ rw small refl, inr (inr refl))
]
