-- ===== src/Runtime/Spending.antt =====
-- What the attempts of a run cost, and how an operation on them may change it.
use auto_options_call_debit.Common.{sym, ap, ◌∙◌, true}
use auto_options_call_debit.Runtime.Rows.{
  sum_by-put_new, sum_by-put_old, any_of-put_new, any_of-put_old, any_of-found,
}
use auto_options_call_debit.Common.{
  ℕ, ◌+◌, ◌≤◌, ◌≡◌, refl, inl, inr, Bool, false, ◌&&◌, Option, none, some, List, [], ◌∷◌, arith,
  ◌==◌, if◌then◌else◌, Bool-cases, Option-cases,
}
use auto_options_call_debit.Runtime.{find_row, put_row, attempt_key, AttemptRow}
use auto_options_call_debit.Runtime.Attempts.{committed_usd, reserved_usd_of, overran, has_overrun}
use auto_options_call_debit.Runtime.Rows.{sum_by, any_of}

overrun_or : (b c : Bool) → (if b then true else c) ≡ false → (b ≡ false) × (c ≡ false)
overrun_or b c h = ground (arith, h)

module _ {J : Type 0} where
  -- What an attempt counts for: its cost once that is known, and its reservation until then.
  abbrev pub charge : AttemptRow J → ℕ
  charge a = elim a.actual_usd [ none ↦ a.reserved_usd | some n ↦ n ]

  abbrev pub weight : ℕ → AttemptRow J → ℕ
  weight run a = if a.run_id == run then charge a else 0

  abbrev pub spent : ℕ → List (AttemptRow J) → ℕ
  spent run attempts = sum_by (weight run) attempts

  abbrev pub overran_in : ℕ → AttemptRow J → Bool
  overran_in run a = (a.run_id == run) && overran a

  charge_parts :
      (a : AttemptRow J)
      → (elim a.actual_usd [ none ↦ 0 | some n ↦ n ])
          + (elim a.actual_usd [ none ↦ a.reserved_usd | some n ↦ 0 ])
        ≡ charge a
  charge_parts a = elim (Option-cases a.actual_usd) [
    | inl unknown ↦ rw unknown (omega arith)
    | inr (n, known) ↦ rw known (omega arith)
  ]

  pub totals-spent :
      (run : ℕ) (attempts : List (AttemptRow J))
      → committed_usd run attempts + reserved_usd_of run attempts ≡ spent run attempts
  unfolding committed_usd reserved_usd_of
  totals-spent run [] = omega arith
  totals-spent run (a ∷ attempts) = elim (Bool-cases (a.run_id == run)) [
    | inl mine ↦ rw mine (omega (arith, totals-spent run attempts, charge_parts a))
    | inr other ↦ rw other (omega (arith, totals-spent run attempts))
  ]

  pub has_overrun-any_of :
      (run : ℕ) (attempts : List (AttemptRow J))
      → has_overrun run attempts ≡ any_of (overran_in run) attempts
  unfolding has_overrun
  has_overrun-any_of run [] = refl
  has_overrun-any_of run (a ∷ attempts) = rw (has_overrun-any_of run attempts) refl

  -- Under the cap, unless an attempt cost more than was reserved for it; without a cap there is none.
  abbrev pub Fits : Option ℕ → ℕ → List (AttemptRow J) → Type 0
  Fits none run attempts = any_of (λ a. a.run_id == run) attempts ≡ false
  Fits (some limit) run attempts = has_overrun run attempts ≡ false → spent run attempts ≤ limit

  open_charge :
      (a : AttemptRow J) → a.actual_usd ≡ none → (overran a ≡ false) × (charge a ≡ a.reserved_usd)
  unfolding overran
  open_charge a unknown = rw unknown (refl, refl)

  charge_le : (a : AttemptRow J) → overran a ≡ false → charge a ≤ a.reserved_usd
  unfolding overran
  charge_le a kept = elim (Option-cases a.actual_usd) [
    | inl unknown ↦ rw unknown (omega arith)
    | inr (n, known) ↦ rw known (ground (arith, kept, known))
  ]

  weight_open :
      (run : ℕ) (a : AttemptRow J)
      → a.actual_usd ≡ none
      → (weight run a ≡ (if a.run_id == run then a.reserved_usd else 0))
        × (overran_in run a ≡ false)
  weight_open run a unknown =
      let (kept, same) = open_charge a unknown in (rw same refl, ground (arith, kept))

  -- What a new attempt, whose cost is not known yet, adds.
  pub spent-put_new :
      (run of attempt : ℕ) (new : AttemptRow J) (attempts : List (AttemptRow J))
      → find_row (attempt_key of attempt) attempts ≡ none
      → new.actual_usd ≡ none
      → (spent run (put_row (attempt_key of attempt) new attempts)
          ≡ spent run attempts + (if new.run_id == run then new.reserved_usd else 0))
        × (has_overrun run (put_row (attempt_key of attempt) new attempts)
            ≡ has_overrun run attempts)
  spent-put_new run of attempt new attempts absent unknown =
      let (same, kept) = weight_open run new unknown in
      (
        sum_by-put_new (weight run) (attempt_key of attempt) new attempts absent
            ∙ ap (λ (n : ℕ). spent run attempts + n) same,
        has_overrun-any_of run (put_row (attempt_key of attempt) new attempts)
            ∙ any_of-put_new (overran_in run) (attempt_key of attempt) new attempts absent
            ∙ rw (has_overrun-any_of run attempts) (ground (arith, kept)),
      )

  weight_le :
      (run : ℕ) (new old : AttemptRow J)
      → old.actual_usd ≡ none
      → new.run_id ≡ old.run_id
      → new.reserved_usd ≡ old.reserved_usd
      → overran_in run new ≡ false
      → weight run new ≤ weight run old
  weight_le run new old unknown same_run same_reserve kept = elim (Bool-cases (old.run_id == run)) [
    | inl mine ↦
        let new_mine : new.run_id == run ≡ true = ap (λ (r : ℕ). r == run) same_run ∙ mine in
        let fine : overran new ≡ false = ground (arith, new_mine, kept) in
        rw (new_mine, mine)
          (omega (arith, charge_le new fine, (open_charge old unknown).1, same_reserve))
    | inr other ↦
        let new_other : new.run_id == run ≡ false = ap (λ (r : ℕ). r == run) same_run ∙ other in
        rw (new_other, other) (omega arith)
  ]

  -- An attempt whose cost becomes known keeps a run under its cap, or shows as an overrun.
  pub put_old-Fits :
      (limit : Option ℕ) (run of attempt : ℕ) (new old : AttemptRow J)
      (attempts : List (AttemptRow J))
      → find_row (attempt_key of attempt) attempts ≡ some old
      → old.actual_usd ≡ none
      → new.run_id ≡ old.run_id
      → new.reserved_usd ≡ old.reserved_usd
      → Fits limit run attempts
      → Fits limit run (put_row (attempt_key of attempt) new attempts)
  put_old-Fits none run of attempt new old attempts found unknown same_run same_reserve fits =
      let others : old.run_id == run ≡ false =
        any_of-found (λ a. a.run_id == run) (attempt_key of attempt) old attempts found fits in
      let new_other : new.run_id == run ≡ false = ap (λ (r : ℕ). r == run) same_run ∙ others in
      any_of-put_old (λ a. a.run_id == run) (attempt_key of attempt) new old attempts found others
      ∙ rw (fits, new_other) refl
  put_old-Fits (some n) run of attempt new old attempts found unknown same_run same_reserve fits =
      λ later.
        let (before, kept) = overrun_or (any_of (overran_in run) attempts) (overran_in run new) (
          sym (
            any_of-put_old (overran_in run) (attempt_key of attempt) new old attempts found
              (weight_open run old unknown).1)
          ∙ sym (has_overrun-any_of run (put_row (attempt_key of attempt) new attempts))
          ∙ later) in
        omega (
          arith,
          fits (has_overrun-any_of run attempts ∙ before),
          sum_by-put_old (weight run) (attempt_key of attempt) new old attempts found,
          weight_le run new old unknown same_run same_reserve kept,
        )

  -- A new attempt in another run.
  pub put_new-Fits :
      (limit : Option ℕ) (run of attempt : ℕ) (new : AttemptRow J) (attempts : List (AttemptRow J))
      → find_row (attempt_key of attempt) attempts ≡ none
      → new.actual_usd ≡ none
      → new.run_id == run ≡ false
      → Fits limit run attempts
      → Fits limit run (put_row (attempt_key of attempt) new attempts)
  put_new-Fits none run of attempt new attempts absent unknown other fits =
      any_of-put_new (λ a. a.run_id == run) (attempt_key of attempt) new attempts absent
      ∙ rw (fits, other) refl
  put_new-Fits (some n) run of attempt new attempts absent unknown other fits = λ later.
      let (more, same) = spent-put_new run of attempt new attempts absent unknown in
      let nothing : spent run (put_row (attempt_key of attempt) new attempts)
          ≡ spent run attempts + 0 =
        more ∙ rw other refl in
      omega (arith, nothing, fits (sym same ∙ later))

  pub still_overrun :
      (run of attempt : ℕ) (new old : AttemptRow J) (attempts : List (AttemptRow J))
      → find_row (attempt_key of attempt) attempts ≡ some old
      → old.actual_usd ≡ none
      → has_overrun run attempts ≡ true
      → has_overrun run (put_row (attempt_key of attempt) new attempts) ≡ true
  still_overrun run of attempt new old attempts found unknown over =
      has_overrun-any_of run (put_row (attempt_key of attempt) new attempts)
      ∙ any_of-put_old (overran_in run) (attempt_key of attempt) new old attempts found
          (weight_open run old unknown).1
      ∙ rw (sym (has_overrun-any_of run attempts), over) refl
