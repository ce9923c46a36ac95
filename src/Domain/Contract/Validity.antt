-- ===== src/Domain/Contract/Validity.antt =====
-- What the constructors of contracts and spreads establish.
use auto_options_call_debit.Common.{
  inl, inr, int_laws, abs_cases, ◌-ℤ◌, ◌≤ℤ◌, ◌<ℤ◌, ◌<◌, ◌≡◌, ◌≢◌, ◌⊎◌, arith, ℕ, ℤ,
}
use auto_options_call_debit.Common.Outcome.{ok, err, Error, Result-cases}
use text.Mathlib.TextEquality.{eq_iff}
use auto_options_call_debit.Domain.Contract.{
  put, call, Direction, bull_put_credit, bear_call_credit, ContractArgs, Contract, make_contract,
  CreditSpread, make_spread, width_points, pos, positive_price, positive_multiplier, Decimal,
  IntArg,
}

record IsListable (c : Contract) : Type 0 where
  pub spx_root : (c.root ≡ "SPX") ⊎ (c.root ≡ "SPXW")
  pub has_multiplier : 0 < c.multiplier
  pub strike_positive : pos 1 ≤ℤ c.strike_points
  pub increment_positive : pos 1 ≤ℤ c.price_increment
  pub european : c.exercise_style ≡ "EUROPEAN"
  pub pm_settled : c.settlement_style ≡ "PM"

positive_multiplier_lem : (m : IntArg) {n : ℕ} → positive_multiplier m ≡ ok n → 0 < n
unfolding positive_multiplier
positive_multiplier_lem m h = ground arith

positive_multiplier_cases :
    (m : IntArg)
    → ((e : Error) × (positive_multiplier m ≡ err e))
      ⊎ ((n : ℕ) × (positive_multiplier m ≡ ok n) × (0 < n))
positive_multiplier_cases m = elim (Result-cases (positive_multiplier m)) [
  | inl r ↦ inl r
  | inr (n, h) ↦ inr (n, h, positive_multiplier_lem m h)
]

positive_price_lem : (d : Decimal) {v : ℤ} → positive_price d ≡ ok v → pos 1 ≤ℤ v
unfolding positive_price
positive_price_lem d h = ground arith

positive_price_cases :
    (d : Decimal)
    → ((e : Error) × (positive_price d ≡ err e))
      ⊎ ((v : ℤ) × (positive_price d ≡ ok v) × (pos 1 ≤ℤ v))
positive_price_cases d = elim (Result-cases (positive_price d)) [
  | inl r ↦ inl r
  | inr (v, h) ↦ inr (v, h, positive_price_lem d h)
]

-- A contract that the constructor returns has an SPX root, a positive multiplier, strike and
-- increment, and the European, PM-settled convention.
make_contract-IsListable : (a : ContractArgs) {c : Contract} → make_contract a ≡ ok c → IsListable c
unfolding make_contract
make_contract-IsListable a h = ground (
  arith,
  eq_iff a.root "SPX",
  eq_iff a.root "SPXW",
  eq_iff a.exercise_style "EUROPEAN",
  eq_iff a.settlement_style "PM",
  positive_multiplier_cases a.multiplier,
  positive_price_cases a.strike_points,
  positive_price_cases a.price_increment,
)

-- The strikes in the order that each kind of credit spread has, and what its legs share.
abbrev pub InOrder : Direction → Contract → Contract → Type 0
InOrder bull_put_credit s l =
    (s.right ≡ put) × (l.right ≡ put) × (l.strike_points <ℤ s.strike_points)
InOrder bear_call_credit s l =
    (s.right ≡ call) × (l.right ≡ call) × (s.strike_points <ℤ l.strike_points)

pub record IsVertical (p : CreditSpread) : Type 0 where
  pub same_multiplier : p.short.multiplier ≡ p.long.multiplier
  pub same_expiration : p.short.expiration_local_date ≡ p.long.expiration_local_date
  pub distinct : p.short.contract_id ≢ p.long.contract_id
  pub in_order : InOrder p.direction p.short p.long

apart :
    (d : Direction) (s l : Contract)
    → InOrder d s l
    → (s.strike_points <ℤ l.strike_points) ⊎ (l.strike_points <ℤ s.strike_points)
apart bull_put_credit s l h = inr h.2
apart bear_call_credit s l h = inl h.2

pub width_pos : (p : CreditSpread) → IsVertical p → pos 1 ≤ℤ width_points p
unfolding width_points
width_pos p v = elim (abs_cases (p.short.strike_points -ℤ p.long.strike_points)) [
  | inl up ↦ rw up.0 (omega (int_laws, apart p.direction p.short p.long v.in_order, up.1))
  | inr down ↦ rw down.0 (omega (int_laws, down.1))
]

make_spread_legs :
    (s l : Contract) (d : Direction) {p : CreditSpread} → make_spread s l d ≡ ok p → IsVertical p
unfolding make_spread
make_spread_legs s l bull_put_credit h = ground arith
make_spread_legs s l bear_call_credit h = ground arith

-- A spread that the constructor returns is a vertical of its kind over two distinct contracts, of one
-- expiration and multiplier, and it is at least one unit wide.
pub make_spread-IsVertical :
    (s l : Contract) (d : Direction) {p : CreditSpread}
    → make_spread s l d ≡ ok p
    → IsVertical p × (pos 1 ≤ℤ width_points p)
make_spread-IsVertical s l d h = (make_spread_legs s l d h, width_pos _ (make_spread_legs s l d h))
