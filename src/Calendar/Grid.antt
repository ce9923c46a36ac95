-- ===== src/Calendar/Grid.antt =====
-- The review grid.
use mathlib.Core.Path.{subst}
use auto_options_call_debit.Common.{◌≤◌, true}
use auto_options_call_debit.Common.Outcome.{ok}
use auto_options_call_debit.Calendar.{
  session, close_utc, session_reviews, review_times, SessionDay, Zone, open_utc,
}
use auto_options_call_debit.Common.{
  ℕ, zero, suc, ◌+◌, ◌*◌, ◌<◌, ◌≡◌, ◌⊎◌, inl, inr, some, List, [], ◌∷◌, arith, ltb, Bool-cases,
}
use auto_options_call_debit.Calendar.{grid}

abbrev pub Elem : ℕ → List ℕ → Type 0
Elem x [] = ⊥
Elem x (y ∷ ys) = (x ≡ y) ⊎ Elem x ys

-- A time of the grid: some number of steps after `t`, before the close.
abbrev OnGrid : ℕ → ℕ → ℕ → ℕ → Type 0
OnGrid t step close x = (k : ℕ) × (x ≡ t + k * step) × (x < close)

one_step : (t step close x : ℕ) → OnGrid (t + step) step close x → OnGrid t step close x
one_step t step close x (k, at, before) = (suc k, omega (arith, at), before)

grid_sound : (fuel t step close x : ℕ) → Elem x (grid fuel t step close) → OnGrid t step close x
unfolding grid
grid_sound Prim.Native.Nat.zero t step close x e = absurd e
grid_sound (suc fuel) t step close x e = elim (Bool-cases (ltb t close)) [
  | inl before ↦ elim (rw before at e) [
    | inl this ↦ (0, omega (arith, this), ground (arith, this))
    | inr later ↦ one_step t step close x (grid_sound fuel (t + step) step close x later)
  ]
  | inr past ↦ absurd (rw past at e)
]

is_before : (t close : ℕ) → t < close → ltb t close ≡ true
is_before t close h = ground arith

grid_complete :
    (fuel t step close k : ℕ)
    → k < fuel
    → t + k * step < close
    → Elem (t + k * step) (grid fuel t step close)
unfolding grid
grid_complete Prim.Native.Nat.zero t step close k enough before = absurd (omega (arith, enough))
grid_complete (suc fuel) t step close Prim.Native.Nat.zero enough before =
    rw (is_before t close (omega arith)) (inl (omega arith))
grid_complete (suc fuel) t step close (suc k) enough before = rw (is_before t close (omega arith)) (
    inr (
      subst (λ x. Elem x (grid fuel (t + step) step close)) (omega arith)
        (grid_complete fuel (t + step) step close k (omega arith) (omega arith))))

steps_le : (k step : ℕ) → 0 < step → k ≤ k * step
steps_le k step h = grind arith

-- A step is at least one, so that the close itself is enough fuel.
few_steps : (t step close k : ℕ) → 0 < step → t + k * step < close → k < close
few_steps t step close k h before = omega (arith, steps_le k step h)

reviews_sound :
    (z : Zone) (s : SessionDay) (interval x : ℕ)
    → Elem x (session_reviews z s interval)
    → (k : ℕ) × (x ≡ open_utc z s + (k + 1) * (interval * 60000000)) × (x < close_utc z s)
unfolding session_reviews
reviews_sound z s interval x e =
    let (k, at, before) =
      grid_sound (close_utc z s) (open_utc z s + interval * 60000000) (interval * 60000000)
        (close_utc z s) x e in
    (k, omega (arith, at), before)

reviews_complete :
    (z : Zone) (s : SessionDay) (interval : ℕ)
    → 0 < interval
    → (k : ℕ) → open_utc z s + (k + 1) * (interval * 60000000) < close_utc z s
    → Elem (open_utc z s + (k + 1) * (interval * 60000000)) (session_reviews z s interval)
unfolding session_reviews
reviews_complete z s interval h k before =
    let start = open_utc z s + interval * 60000000 in
    let step = interval * 60000000 in
    subst (λ x. Elem x (grid (close_utc z s) start step (close_utc z s))) (omega arith)
      (grid_complete (close_utc z s) start step (close_utc z s) k
        (few_steps start step (close_utc z s) k (omega arith) (omega arith)) (omega arith))

-- The review times of a session are exactly the times a whole, positive number of intervals after its
-- open that come before its close.
pub review_times_iff :
    (z : Zone) (ss : List SessionDay) (day interval : ℕ) {s : SessionDay}
    → 0 < interval
    → session ss day ≡ some s
    → (times : List ℕ) × (review_times z ss day interval ≡ ok times)
      × ((x : ℕ)
          → Elem x times
          → (k : ℕ) × (x ≡ open_utc z s + (k + 1) * (interval * 60000000)) × (x < close_utc z s))
      × ((k : ℕ)
          → open_utc z s + (k + 1) * (interval * 60000000) < close_utc z s
          → Elem (open_utc z s + (k + 1) * (interval * 60000000)) times)
unfolding review_times
review_times_iff z ss day interval {s} h found = (
  session_reviews z s interval,
  ground (arith, found),
  reviews_sound z s interval,
  reviews_complete z s interval h,
)
