-- ===== src/Pipeline/Settled.antt =====
-- The loop of a decision ends: every retry follows on an attempt, and the attempts are bounded
-- (agents/graphs.py).
use auto_options_call_debit.Common.{ℕ, suc, ◌+◌, ◌≤◌, ◌≡◌, refl, ◌≢◌, arith}
use auto_options_call_debit.Common.Outcome.{Error, Result, no_fuel, err, ok}
use auto_options_call_debit.Pipeline.{Deps, World, DecisionRun}
use auto_options_call_debit.Pipeline.Call.{call_model}
use auto_options_call_debit.Pipeline.Graph.{
  validate_run, route, follow, run_within, run_graph, Next,
}
use auto_options_call_debit.Pipeline.Attempts.{
  Moves, call_model-Moves, Checked, few_calls, validate_run-Checked,
}
use auto_options_call_debit.Common.{zero}
use auto_options_call_debit.Common.Outcome.{◌>>=◌}
use auto_options_call_debit.Pipeline.Graph.{to_end, to_resolve, to_call}

-- The run ended: it is fatal, or it has no error, or no retry is allowed; at most `most` calls were made.
-- An exception is one that the program raises.
unfoldable pub Settled : Deps → ℕ → Result (DecisionRun × World) → Type 0
Settled deps most (err e) = e ≢ no_fuel
Settled deps most (ok (s, w)) = (route deps s ≢ to_call) × (w.calls ≤ most)

retried :
    (deps : Deps) (before most : ℕ) (s : DecisionRun) (w : World)
    → Moves before most (s, w)
    → route deps s ≡ to_call
    → (s.attempts ≡ before + 1) × (s.attempts ≤ deps.max_retries)
unfolding route Moves
retried deps before most s w moves again = ground arith

follow-Settled :
    (again : DecisionRun → World → Result (DecisionRun × World)) (deps : Deps) (next : Next)
    (s : DecisionRun) (w : World) (most : ℕ)
    → route deps s ≡ next
    → w.calls ≤ most
    → (route deps s ≡ to_call → Settled deps most (again s w))
    → Settled deps most (follow again next s w)
unfolding follow Settled
follow-Settled again deps to_end s w most at few deeper = (λ same. cc, few)
follow-Settled again deps to_resolve s w most at few deeper = (λ same. cc, few)
follow-Settled again deps to_call s w most at few deeper = deeper at

-- The calls that the fuel is enough for: one more attempt than there are retries.
module _ (deps : Deps) where
  error-Settled : (e : Error) (far : ℕ) → e ≢ no_fuel → Settled deps far (err e)
  unfolding Settled
  error-Settled e far good = good

  after_check-Settled :
      (again : DecisionRun → World → Result (DecisionRun × World))
      (checked : Result (DecisionRun × World)) (before near far : ℕ)
      → near ≤ far
      → Checked before near checked
      → ((s : DecisionRun) (w : World)
          → s.attempts ≡ before + 1
          → s.attempts ≤ deps.max_retries
          → w.calls ≤ near
          → Settled deps far (again s w))
      → Settled deps far (checked >>= λ done. follow again (route deps done.0) done.0 done.1)
  unfolding Checked
  after_check-Settled again (err e) before near far closer good deeper = error-Settled e far good
  after_check-Settled again (ok (s, w)) before near far closer good deeper =
      let few = few_calls before near (s, w) good in
      follow-Settled again deps (route deps s) s w far refl (omega (arith, few)) (λ retry.
        let more = retried deps before near s w good retry in deeper s w more.0 more.1 few)

  one_round-Settled :
      (again : DecisionRun → World → Result (DecisionRun × World)) (s : DecisionRun) (w : World)
      (most : ℕ)
      → w.calls + 1 ≤ most
      → ((s' : DecisionRun) (w' : World)
          → s'.attempts ≡ s.attempts + 1
          → s'.attempts ≤ deps.max_retries
          → w'.calls ≤ w.calls + 1
          → Settled deps most (again s' w'))
      → Settled deps most (
          validate_run deps (call_model deps s w).0 (call_model deps s w).1 >>= λ done.
          follow again (route deps done.0) done.0 done.1)
  one_round-Settled again s w most few deeper =
      after_check-Settled again (validate_run deps (call_model deps s w).0 (call_model deps s w).1)
        s.attempts (w.calls + 1) most few
        (validate_run-Checked deps (call_model deps s w).0 (call_model deps s w).1 s.attempts
          (w.calls + 1) (call_model-Moves deps s w))
        deeper

  run_within-Settled :
      (fuel : ℕ) (s : DecisionRun) (w : World) (most : ℕ)
      → suc deps.max_retries ≤ s.attempts + suc fuel
      → w.calls + suc fuel ≤ most
      → Settled deps most (run_within (suc fuel) deps s w)
  unfolding run_within
  run_within-Settled zero s w most enough few =
      one_round-Settled (run_within zero deps) s w most (omega (arith, few))
        (λ s' w' grew left near. absurd (omega (arith, enough, grew, left)))
  run_within-Settled (suc fuel) s w most enough few =
      one_round-Settled (run_within (suc fuel) deps) s w most (omega (arith, few))
        (λ s' w' grew left near.
          run_within-Settled fuel s' w' most (omega (arith, enough, grew))
            (omega (arith, few, near)))

-- A decision ends, whatever the model answers: it raises an exception of the program, or stops where no
-- retry is allowed, after at most one call more than there are retries.
pub run_graph-Settled :
    (deps : Deps) (s : DecisionRun) (w : World)
    → Settled deps (w.calls + suc deps.max_retries) (run_graph deps s w)
unfolding run_graph
run_graph-Settled deps s w =
    run_within-Settled deps deps.max_retries s w _ (omega arith) (omega arith)
