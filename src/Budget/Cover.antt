-- ===== src/Budget/Cover.antt =====
-- The reserved bound covers what a call costs, and the budget stays within its cap.
use text.Mathlib.TextEquality.{eq_iff}
use auto_options_call_debit.Common.{ltb_ℤ, int_laws, +ℤ_cancel, ◌-ℤ◌, refl, ap}
use auto_options_call_debit.Common.{false, ltb, Bool-cases}
use auto_options_call_debit.Budget.{commit, abort}
use auto_options_call_debit.Common.{
  ℤ, pos, pos_part, ◌≤ℤ◌, ◌+ℤ◌, ℕ, ◌+◌, ◌-◌, ◌*◌, ◌≤◌, ◌≡◌, inl, inr, some, arith, Option-cases,
}
use auto_options_call_debit.Common.Outcome.{ok}
use auto_options_call_debit.Budget.{
  cost, bound, reserve_amount, PriceSheet, Request, Budget, higher_cached, amount, cached_rate,
}

mul_le : (a b m : ℕ) → a ≤ b → a * m ≤ b * m
mul_le a b m h = grind arith

mul_le_right : (a b m : ℕ) → a ≤ b → m * a ≤ m * b
mul_le_right a b m h = grind arith

split : (i c r : ℕ) → c ≤ i → (i - c) * r + c * r ≡ i * r
split i c r h = grind arith

-- Any mix of the two rates is at most the larger one throughout.
mix_le :
    (i c limit high : ℕ)
    → c ≤ i
    → i ≤ limit
    → (p q : ℕ) → p ≤ high
    → q ≤ high
    → (i - c) * p + c * q ≤ limit * high
mix_le i c limit high hc hi p q hp hq = omega (
  arith,
  split i c high hc,
  mul_le i limit high hi,
  mul_le_right p high (i - c) hp,
  mul_le_right q high c hq,
)

minus_zero : (l r : ℕ) → (l - 0) * r ≡ l * r
minus_zero l r = ap (λ (t : ℕ). t * r) (omega arith)

amount_le :
    (s : PriceSheet) (limit most input output cached : ℕ)
    → cached ≤ input
    → input ≤ limit
    → output ≤ most
    → amount s input output cached
      ≤ amount s limit most
          (pos_part (higher_cached s.cached_input_per_million s.input_per_million (pos limit)))
unfolding amount higher_cached cached_rate
amount_le s limit most input output cached hc hi ho =
    elim (Option-cases s.cached_input_per_million) [
      | inl none_set ↦ rw none_set (
          omega (
            arith,
            minus_zero limit s.input_per_million,
            split input cached s.input_per_million hc,
            mul_le input limit s.input_per_million hi,
            mul_le output most s.output_per_million ho,
          ))
      | inr (rate, set) ↦ rw set (elim (Bool-cases (ltb s.input_per_million rate)) [
        | inl higher ↦ rw higher (
            omega (
              arith,
              mix_le input cached limit rate hc hi s.input_per_million rate (ground arith)
                  (omega arith),
              mul_le output most s.output_per_million ho,
            ))
        | inr lower ↦ rw lower (
            omega (
              arith,
              minus_zero limit s.input_per_million,
              mix_le input cached limit s.input_per_million hc hi s.input_per_million rate
                  (omega arith) (ground arith),
              mul_le output most s.output_per_million ho,
            ))
      ])
    ]

limit_priced :
    (s : PriceSheet) (r : Request) {b : ℕ} (limit most : ℕ)
    → s.model_context_limit ≡ some (pos limit)
    → r.max_output_tokens ≡ pos most
    → bound s r ≡ ok b
    → b
      ≡ amount s limit most
          (pos_part (higher_cached s.cached_input_per_million s.input_per_million (pos limit)))
unfolding bound higher_cached cost
limit_priced s r {b} limit most hl hm h = ground (arith, hl, hm, eq_iff r.model_id s.model_id)

usage_priced :
    (s : PriceSheet) (input output cached : ℕ)
    → cached ≤ input
    → cost s (pos input) (pos output) (pos cached) ≡ ok (amount s input output cached)
unfolding cost
usage_priced s input output cached h = ground arith

-- While the sheet's context limit and the request's output limit hold, the bound that is reserved for
-- a request is at least the cost of its usage, at whatever split of the input between the two rates.
pub bound_covers :
    (s : PriceSheet) (r : Request) {b : ℕ} (limit most input output cached : ℕ)
    → s.model_context_limit ≡ some (pos limit)
    → r.max_output_tokens ≡ pos most
    → bound s r ≡ ok b
    → cached ≤ input
    → input ≤ limit
    → output ≤ most
    → (n : ℕ) × (cost s (pos input) (pos output) (pos cached) ≡ ok n) × (n ≤ b)
bound_covers s r limit most input output cached hl hm h hc hi ho = (
  amount s input output cached,
  usage_priced s input output cached hc,
  rw (limit_priced s r limit most hl hm h) (amount_le s limit most input output cached hc hi ho),
)

-- The cap holds, and what is committed and reserved fits under it.
abbrev pub WithinCap : Budget → Type 0
WithinCap b = b.committed +ℤ b.reserved ≤ℤ b.cap

reserve_cases :
    (est : ℤ) (b : Budget) {v : ℤ}
    → (reserve_amount est b).0 ≡ ok v
    → (v ≡ est)
      × (b.committed +ℤ b.reserved +ℤ est ≤ℤ b.cap)
      × ((reserve_amount est b).1 ≡ record b { reserved = b.reserved +ℤ est })
unfolding reserve_amount
reserve_cases est b h = ground arith

not_over : (a b : ℤ) → a ≤ℤ b → ltb_ℤ b a ≡ false
not_over a b h = ground arith

fits_still :
    (c r est actual cap : ℤ)
    → c +ℤ r +ℤ est ≤ℤ cap
    → actual ≤ℤ est
    → c +ℤ actual +ℤ (r +ℤ est -ℤ est) ≤ℤ cap
fits_still c r est actual cap h le = omega int_laws

after_call :
    (est actual : ℤ) (b : Budget)
    → b.committed +ℤ b.reserved +ℤ est ≤ℤ b.cap
    → actual ≤ℤ est
    → let held : Budget = record b { reserved = b.reserved +ℤ est } in
      WithinCap (commit est actual held)
      × ((commit est actual held).overrun ≡ false)
      × ((commit est actual held).committed ≡ b.committed +ℤ actual)
      × ((commit est actual held).reserved ≡ b.reserved)
      × (abort est held ≡ b)
unfolding commit abort
after_call est actual b h le = (
  fits_still b.committed b.reserved est actual b.cap h le,
  not_over _ b.cap (fits_still b.committed b.reserved est actual b.cap h le),
  refl,
  +ℤ_cancel b.reserved est,
  ap (λ (r : ℤ). record b { reserved = r }) (+ℤ_cancel b.reserved est),
)

-- A call that was reserved within the cap and costs no more than its reservation leaves the budget
-- within its cap, without an overrun: the actual cost is committed and nothing of the reservation is
-- left. Abandoned, it leaves the budget as it was.
pub reserve-commit :
    (est actual : ℤ) (b : Budget) {v : ℤ}
    → (reserve_amount est b).0 ≡ ok v
    → actual ≤ℤ est
    → let after = commit v actual (reserve_amount est b).1 in
      WithinCap after
      × (after.overrun ≡ false)
      × (after.committed ≡ b.committed +ℤ actual)
      × (after.reserved ≡ b.reserved)
      × (abort v (reserve_amount est b).1 ≡ b)
reserve-commit est actual b h le =
    let (same, fits, held) = reserve_cases est b h in
    rw (same, held) (after_call est actual b fits le)
