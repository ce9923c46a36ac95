-- ===== src/Runtime/Rows.antt =====
-- Tables of rows: what `put` changes, and sums and tests over rows.
use auto_options_call_debit.Common.{
  ℕ, ◌+◌, ◌≡◌, refl, sym, ap, ◌∙◌, inl, inr, Bool, true, false, none, some, List, [], ◌∷◌, arith,
  ◌==◌, if◌then◌else◌, Bool-cases,
}
use auto_options_call_debit.Common.Lists.{All}
use auto_options_call_debit.Runtime.{find_row, put_row, run_key, RunRow}

module _ {Row : Type 0} where
  abbrev pub sum_by : (Row → ℕ) → List Row → ℕ
  sum_by f [] = 0
  sum_by f (row ∷ rows) = f row + sum_by f rows

  abbrev pub any_of : (Row → Bool) → List Row → Bool
  any_of test [] = false
  any_of test (row ∷ rows) = if test row then true else any_of test rows

  pub find_row-true :
      (here : Row → Bool) (rows : List Row) (row : Row)
      → find_row here rows ≡ some row
      → here row ≡ true
  find_row-true here [] row found = cc
  find_row-true here (r ∷ rows) row found = elim (Bool-cases (here r)) [
    | inl hit ↦ let same : r ≡ row = ground (arith, hit, found) in rw (sym same) hit
    | inr miss ↦ find_row-true here rows row (ground (arith, miss, found))
  ]

  pub find_row-All :
      (P : Row → Type 0) (here : Row → Bool) (rows : List Row) (row : Row)
      → find_row here rows ≡ some row
      → All P rows
      → P row
  find_row-All P here [] row found each = cc
  find_row-All P here (r ∷ rows) row found (first, rest) = elim (Bool-cases (here r)) [
    | inl hit ↦ let same : r ≡ row = ground (arith, hit, found) in rw (sym same) first
    | inr miss ↦ find_row-All P here rows row (ground (arith, miss, found)) rest
  ]

  pub put_row-All :
      (P : Row → Type 0) (here : Row → Bool) (new : Row) (rows : List Row)
      → P new
      → All P rows
      → All P (put_row here new rows)
  put_row-All P here new [] this each = (this, tt)
  put_row-All P here new (r ∷ rows) this (first, rest) = elim (Bool-cases (here r)) [
    | inl hit ↦ rw hit (this, rest)
    | inr miss ↦ rw miss (first, put_row-All P here new rows this rest)
  ]

  pub sum_by-put_new :
      (f : Row → ℕ) (here : Row → Bool) (new : Row) (rows : List Row)
      → find_row here rows ≡ none
      → sum_by f (put_row here new rows) ≡ sum_by f rows + f new
  sum_by-put_new f here new [] absent = omega arith
  sum_by-put_new f here new (r ∷ rows) absent = elim (Bool-cases (here r)) [
    | inl hit ↦ ground (arith, hit, absent)
    | inr miss ↦
        rw miss (omega (arith, sum_by-put_new f here new rows (ground (arith, miss, absent))))
  ]

  pub sum_by-put_old :
      (f : Row → ℕ) (here : Row → Bool) (new old : Row) (rows : List Row)
      → find_row here rows ≡ some old
      → sum_by f (put_row here new rows) + f old ≡ sum_by f rows + f new
  sum_by-put_old f here new old [] found = cc
  sum_by-put_old f here new old (r ∷ rows) found = elim (Bool-cases (here r)) [
    | inl hit ↦ let same : r ≡ old = ground (arith, hit, found) in rw hit (omega (arith, ap f same))
    | inr miss ↦
        rw miss (omega (arith, sum_by-put_old f here new old rows (ground (arith, miss, found))))
  ]

  pub any_of-put_new :
      (test : Row → Bool) (here : Row → Bool) (new : Row) (rows : List Row)
      → find_row here rows ≡ none
      → any_of test (put_row here new rows) ≡ (if any_of test rows then true else test new)
  any_of-put_new test here new [] absent = ground arith
  any_of-put_new test here new (r ∷ rows) absent = elim (Bool-cases (here r)) [
    | inl hit ↦ ground (arith, hit, absent)
    | inr miss ↦
        rw miss (ground (arith, any_of-put_new test here new rows (ground (arith, miss, absent))))
  ]

  pub any_of-found :
      (test : Row → Bool) (here : Row → Bool) (old : Row) (rows : List Row)
      → find_row here rows ≡ some old
      → any_of test rows ≡ false
      → test old ≡ false
  any_of-found test here old [] found nowhere = cc
  any_of-found test here old (r ∷ rows) found nowhere = elim (Bool-cases (here r)) [
    | inl hit ↦
        let same : r ≡ old = ground (arith, hit, found) in
        ap test (sym same) ∙ ground (arith, nowhere)
    | inr miss ↦
        any_of-found test here old rows (ground (arith, miss, found)) (ground (arith, nowhere))
  ]

  -- Where the row that is replaced does not pass the test, the others decide, and the new row.
  pub any_of-put_old :
      (test : Row → Bool) (here : Row → Bool) (new old : Row) (rows : List Row)
      → find_row here rows ≡ some old
      → test old ≡ false
      → any_of test (put_row here new rows) ≡ (if any_of test rows then true else test new)
  any_of-put_old test here new old [] found out = cc
  any_of-put_old test here new old (r ∷ rows) found out = elim (Bool-cases (here r)) [
    | inl hit ↦
        let same : r ≡ old = ground (arith, hit, found) in
        let out_r : test r ≡ false = ap test same ∙ out in rw (hit, out_r) (ground arith)
    | inr miss ↦
        rw miss
          (ground (arith, any_of-put_old test here new old rows (ground (arith, miss, found)) out))
  ]

module _ {J : Type 0} where
  -- A run's row after another or its own was put.
  pub find_run-put :
      (run : ℕ) (new : RunRow J) (rows : List (RunRow J))
      → find_row (run_key run) (put_row (run_key new.run_id) new rows)
        ≡ (if new.run_id == run then some new else find_row (run_key run) rows)
  find_run-put run new [] = refl
  find_run-put run new (r ∷ rows) = ground (arith, find_run-put run new rows)
