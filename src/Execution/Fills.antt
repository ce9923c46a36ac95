-- ===== src/Execution/Fills.antt =====
-- When a package fills, and at what price.
use auto_options_call_debit.Common.{
  ◌<◌, ◌⊎◌, true, refl, Option, arith, none, ℤ, pos, ◌≤ℤ◌, ℕ, ◌≤◌, ◌≡◌, ◌≢◌, some,
}
use auto_options_call_debit.Common.Outcome.{ok}
use auto_options_call_debit.Domain.Quote.{Quote}
use auto_options_call_debit.Execution.{
  no_fill, not_yet_eligible, expired, package_open_credit, package_close_debit, try_fill, Intent,
  PackageOrder, FillOutcome, open_package, close_package, filled,
}
use auto_options_call_debit.Execution.{leg_sizes_ok, at_limit, fill_quotes}

-- The natural price of the package: what the order would pay or receive by crossing both spreads.
abbrev pub natural_price : Intent → Quote → Quote → ℤ
natural_price open_package s l = package_open_credit s l
natural_price close_package s l = package_close_debit s l

-- No worse than the limit: a credit at least it, a debit at most it.
abbrev pub WithinLimit : Intent → ℤ → ℤ → Type 0
WithinLimit open_package limit price = limit ≤ℤ price
WithinLimit close_package limit price = price ≤ℤ limit

abbrev pub HasSize : Intent → Quote → Quote → Type 0
HasSize open_package s l = (pos 1 ≤ℤ s.bid_size_contracts) × (pos 1 ≤ℤ l.ask_size_contracts)
HasSize close_package s l = (pos 1 ≤ℤ s.ask_size_contracts) × (pos 1 ≤ℤ l.bid_size_contracts)

-- The conditions on the two quotes and the time under which an order may fill.
pub record CanFill (o : PackageOrder) (s l : Quote) (at : ℕ) : Type 0 where
  pub on_time : at ≡ o.first_eligible_at_utc
  pub two_legs : s.contract_id ≢ l.contract_id
  pub short_usable : s.simulated_available_at_utc ≤ at
  pub long_usable : l.simulated_available_at_utc ≤ at
  pub one_snapshot : s.snapshot_at_utc ≡ l.snapshot_at_utc
  pub sized : HasSize o.intent s l
  pub within : WithinLimit o.intent o.limit_points (natural_price o.intent s l)

abbrev pub fill_of : PackageOrder → Quote → Quote → ℕ → FillOutcome
fill_of o s l at = record {
  status = filled;
  package_price_points = some (natural_price o.intent s l);
  fill_at_utc = some at;
}

-- `leg_sizes_ok` and the test of the limit decide these conditions.
sized :
    (i : Intent) (s l : Quote)
    → (HasSize i s l → leg_sizes_ok i s l ≡ true) × (leg_sizes_ok i s l ≡ true → HasSize i s l)
unfolding leg_sizes_ok
sized open_package s l = (λ h. ground arith, λ h. ground arith)
sized close_package s l = (λ h. ground arith, λ h. ground arith)

priced :
    (i : Intent) (limit : ℤ) (s l : Quote) (at : ℕ)
    → WithinLimit i limit (natural_price i s l)
    → at_limit i limit s l at ≡ record {
      status = filled;
      package_price_points = some (natural_price i s l);
      fill_at_utc = some at;
    }
unfolding at_limit
priced open_package limit s l at h = ground arith
priced close_package limit s l at h = ground arith

priced_only_if :
    (i : Intent) (limit : ℤ) (s l : Quote) (at : ℕ)
    → (at_limit i limit s l at).status ≡ filled
    → WithinLimit i limit (natural_price i s l)
unfolding at_limit
priced_only_if open_package limit s l at h = ground arith
priced_only_if close_package limit s l at h = ground arith

-- An order fills whenever both quotes meet the conditions, at the natural price.
fills :
    (o : PackageOrder) (s l : Quote) (at : ℕ)
    → CanFill o s l at
    → try_fill o (some s) (some l) at ≡ ok (fill_of o s l at)
unfolding try_fill
fills o s l at c =
    ground (arith, (sized o.intent s l).0 c.sized, priced o.intent o.limit_points s l at c.within)

pair_only_if :
    (o : PackageOrder) (s l : Quote) (at : ℕ) {f : FillOutcome}
    → try_fill o (some s) (some l) at ≡ ok f
    → f.status ≡ filled
    → CanFill o s l at
unfolding try_fill
pair_only_if o s l at h e =
    ground (arith, (sized o.intent s l).1, priced_only_if o.intent o.limit_points s l at)

fills_only_if :
    (o : PackageOrder) (s l : Option Quote) (at : ℕ) {f : FillOutcome}
    → try_fill o s l at ≡ ok f
    → f.status ≡ filled
    → (a : Quote) × (b : Quote) × (s ≡ some a) × (l ≡ some b) × CanFill o a b at
unfolding fill_quotes
fills_only_if o (some s) (some l) at h e = (s, l, refl, refl, pair_only_if o s l at h e)
fills_only_if o (some s) none at h e = absurd (unfold try_fill in ground arith)
fills_only_if o none l at h e = absurd (unfold try_fill in ground arith)

-- A fill needs both quotes, and then happens exactly when the order's one eligible minute has come,
-- the two legs differ, were both available by then in the same snapshot, show size for a contract on
-- the side taken, and the natural price is within the limit; it is then done at that price and time.
pub fill_iff :
    (o : PackageOrder) (s l : Option Quote) (at : ℕ)
    → ((f : FillOutcome)
        → try_fill o s l at ≡ ok f
        → f.status ≡ filled
        → (a : Quote) × (b : Quote) × (s ≡ some a)
          × (l ≡ some b)
          × CanFill o a b at
          × (f ≡ fill_of o a b at))
      × ((a b : Quote)
          → s ≡ some a
          → l ≡ some b
          → CanFill o a b at
          → try_fill o s l at ≡ ok (fill_of o a b at))
fill_iff o s l at = (
  λ f h e.
      let (a, b, es, el, can) = fills_only_if o s l at h e in
      (a, b, es, el, can, cc (fills o a b at can)),
  λ a b es el can. rw (es, el) (fills o a b at can),
)

-- In any other minute than its eligible one an order is left pending or has expired, whatever the
-- quotes, and nothing is raised.
try_fill_untimely :
    (o : PackageOrder) (s l : Option Quote) (at : ℕ)
    → at ≢ o.first_eligible_at_utc
    → (try_fill o s l at ≡ ok (no_fill not_yet_eligible)) × (at < o.first_eligible_at_utc)
      ⊎ (try_fill o s l at ≡ ok (no_fill expired)) × (o.first_eligible_at_utc < at)
unfolding try_fill
try_fill_untimely o s l at h = ground arith
