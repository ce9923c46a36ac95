-- ===== src/Budget/Tests.antt =====
-- A budget at work.
use auto_options_call_debit.Common.{pos, ◌+ℤ◌, ℕ, ◌≤◌, ◌≡◌, refl, false, some, arith}
use auto_options_call_debit.Common.Outcome.{model_error, err, ok}
use auto_options_call_debit.Budget.{
  cost, bound, reserve_amount, commit, abort, PriceSheet, Request, Budget,
}
use auto_options_call_debit.Budget.Cover.{bound_covers, WithinCap, reserve-commit}

abbrev sheet : PriceSheet
sheet = record {
  model_id = "model-a";
  input_per_million = 3000000;
  output_per_million = 15000000;
  cached_input_per_million = some 300000;
  model_context_limit = some (pos 1000);
}

abbrev request : Request
request = record { model_id = "model-a"; max_output_tokens = pos 100; body_length = 400 }

bounded : bound sheet request ≡ ok 4500000000
unfolding bound cost ◌+ℤ◌
bounded = refl

bound_covers_example : (n : ℕ) × (cost sheet (pos 700) (pos 90) (pos 200) ≡ ok n) × (n ≤ 4500000000)
bound_covers_example =
    bound_covers sheet request 1000 100 700 90 200 refl refl bounded (omega arith) (omega arith)
      (omega arith)

abbrev budget : Budget
budget = record { cap = pos 9000; committed = pos 1000; reserved = pos 2000; overrun = false }

granted : (reserve_amount (pos 5000) budget).0 ≡ ok (pos 5000)
unfolding reserve_amount ◌+ℤ◌
granted = refl

reserve-commit_example :
    let after = commit (pos 5000) (pos 4000) (reserve_amount (pos 5000) budget).1 in
    WithinCap after
    × (after.overrun ≡ false)
    × (after.committed ≡ pos 1000 +ℤ pos 4000)
    × (after.reserved ≡ pos 2000)
    × (abort (pos 5000) (reserve_amount (pos 5000) budget).1 ≡ budget)
reserve-commit_example = reserve-commit (pos 5000) (pos 4000) budget granted (omega arith)

-- A reservation beyond the cap is refused, and nothing is held.
refused : reserve_amount (pos 6001) budget ≡ (err (model_error "BUDGET_EXCEEDED"), budget)
unfolding reserve_amount ◌+ℤ◌
refused = refl
