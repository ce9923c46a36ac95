-- ===== src/Scheduler/Phase/Chain.antt =====
-- A phase keeps the chain of the run verified, and drops everything if it raises.
use mathlib.Core.Path.{subst}
use auto_options_call_debit.Common.{◌≡◌, refl, sym, ap, ◌∙◌, List, [], ◌∷◌}
use auto_options_call_debit.Common.Outcome.{Error, Result, err, ok}
use auto_options_call_debit.Common.Dict.{Dict}
use auto_options_call_debit.Ledger.Event.{Body, Event, EngineState}
use auto_options_call_debit.Ledger.Fold.{fold_all}
use auto_options_call_debit.Store.{append_batch, Linked, Hashing}
use auto_options_call_debit.Store.Append.{IsChain, append_nothing, append_atomic, append-IsChain}
use auto_options_call_debit.Scheduler.{Work, Engine}
use auto_options_call_debit.Scheduler.Logged.{Outcome, IsLogged}
use auto_options_call_debit.Scheduler.Phase.{
  unlinked, all_unlinked, atomic, Run, commit_staged, committed,
}
use auto_options_call_debit.Scheduler.Phase.Resume.{outcome_of, store_of, first_run}

module _ (h : Hashing Body) where
  -- The check of `Engine.run` passes on the stored chain of the run.
  abbrev pub IsVerified : Run → Type 0
  IsVerified run = IsChain h run.engine.state.run_id run.store

  staged-IsVerified :
      (run : Run) (e : Engine) (ev : Event) (evs : List Event)
      (p : Result (List (Linked Body)) × Dict (List (Linked Body)))
      → append_batch h (all_unlinked (ev ∷ evs)) run.engine.state.seq run.store ≡ p
      → fold_all (ev ∷ evs) run.engine.state ≡ (ok tt, e.state)
      → IsVerified run
      → IsVerified (committed run e p).1
  unfolding committed
  staged-IsVerified run e ev evs (err x, store) a f v =
      subst (IsChain h run.engine.state.run_id)
        (sym (
            append_atomic h (all_unlinked (ev ∷ evs)) run.engine.state.seq run.store
              (ap outcome_of a))
          ∙ ap store_of a)
        v
  staged-IsVerified run e ev evs (ok cs, store) a f v =
      let (of_run, kept) = first_run h ev evs run.engine.state e.state f in
      let chain =
        (append-IsChain h (unlinked ev) (all_unlinked evs) run.engine.state.seq run.store
          (subst (λ k. IsChain h k run.store) (sym of_run) v) (ap outcome_of a)).4 in
      subst (λ k. IsChain h k store) (of_run ∙ sym kept)
        (subst (IsChain h ev.run_id) (ap store_of a) chain)

  batch-IsVerified :
      (run : Run) (e : Engine) (evs : List Event)
      → fold_all evs run.engine.state ≡ (ok tt, e.state)
      → IsVerified run
      → IsVerified
          (committed run e (append_batch h (all_unlinked evs) run.engine.state.seq run.store)).1
  unfolding committed fold_all
  batch-IsVerified run e (ev ∷ evs) f v = staged-IsVerified run e ev evs _ refl f v
  batch-IsVerified run e [] f v =
      subst (λ p. IsVerified (committed run e p).1)
        (sym (append_nothing h run.engine.state.seq run.store))
        (subst (λ s. IsChain h s.run_id run.store)
          (ap (λ (p : Result (Unit {0}) × EngineState). p.1) f) v)

  done-IsVerified :
      (run : Run) (p : Result (Unit {0}) × Engine)
      → Outcome run.engine.state p
      → IsVerified run
      → IsVerified (commit_staged h run p).1
  unfolding commit_staged
  done-IsVerified run (err x, e) r v = v
  done-IsVerified run (ok u, e) r v = batch-IsVerified run e e.buffer r v

  pub atomic-IsVerified :
      (work : Work) (run : Run) → IsLogged work → IsVerified run → IsVerified (atomic h work run).1
  unfolding atomic IsLogged fold_all
  atomic-IsVerified work run l v =
      done-IsVerified run (work (record run.engine { buffer = [] }))
        (l run.engine.state (record run.engine { buffer = [] }) refl) v

  refused :
      (run : Run) (e : Engine) (evs : List Event)
      (p : Result (List (Linked Body)) × Dict (List (Linked Body))) (x : Error)
      → append_batch h (all_unlinked evs) run.engine.state.seq run.store ≡ p
      → (committed run e p).0 ≡ err x
      → (committed run e p).1 ≡ run
  unfolding committed
  refused run e evs (ok cs, store) x a r = cc
  refused run e evs (err y, store) x a r =
      ap (λ (d : Dict (List (Linked Body))). record run { store = d })
        (sym (ap store_of a)
          ∙ append_atomic h (all_unlinked evs) run.engine.state.seq run.store (ap outcome_of a))

  dropped :
      (run : Run) (p : Result (Unit {0}) × Engine) (x : Error)
      → (commit_staged h run p).0 ≡ err x
      → (commit_staged h run p).1 ≡ run
  unfolding commit_staged
  dropped run (err y, e) x r = refl
  dropped run (ok u, e) x r = refused run e e.buffer _ x refl r

  -- A phase that raises, in its work or at the commit, leaves the engine and the store as they were: the
  -- state, the counter of the ids, the manager's due mark and the current valuation.
  pub atomic_rollback :
      (work : Work) (run : Run) (x : Error)
      → (atomic h work run).0 ≡ err x
      → (atomic h work run).1 ≡ run
  unfolding atomic
  atomic_rollback work run x r = dropped run (work (record run.engine { buffer = [] })) x r
