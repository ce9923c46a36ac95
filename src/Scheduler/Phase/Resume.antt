-- ===== src/Scheduler/Phase/Resume.antt =====
-- The committed log always leads to the state in memory.
use mathlib.Core.Path.{subst}
use auto_options_call_debit.Store.Append.{append_nothing}
use auto_options_call_debit.Ledger.Fold.Sequence.{fold_ok, fold_all_cons, fold_all_seq}
use auto_options_call_debit.Store.{tip}
use auto_options_call_debit.Store.Append.{log-insert_self, committed_cases, append_atomic}
use auto_options_call_debit.Scheduler.{Work}
use auto_options_call_debit.Scheduler.Logged.{Outcome, IsLogged}
use auto_options_call_debit.Scheduler.Phase.{atomic, commit_staged}
use auto_options_call_debit.Common.{sym}
use auto_options_call_debit.Common.Outcome.{err}
use auto_options_call_debit.Common.Dict.{Dict}
use auto_options_call_debit.Store.{with_hashes, log_of, append_batch}
use auto_options_call_debit.Store.Append.{linked, nil_of}
use auto_options_call_debit.Scheduler.{Engine}
use auto_options_call_debit.Scheduler.Phase.{Run, committed}
use auto_options_call_debit.Common.Action.{◌>>◌}
use auto_options_call_debit.Common.{ℤ, ℕ, ◌≡◌, refl, ap, ◌∙◌, List, [], ◌∷◌, ◌++◌}
use auto_options_call_debit.Common.Outcome.{Result, ok}
use auto_options_call_debit.Ledger.Event.{Body, Event, EngineState}
use auto_options_call_debit.Ledger.Fold.{fold_all, initial_state, finished, replay}
use auto_options_call_debit.Ledger.Fold.Sequence.{fold_all-append, replay_ok}
use auto_options_call_debit.Store.{link, Hash, Linked, Hashing}
use auto_options_call_debit.Store.Append.{link_cons}
use auto_options_call_debit.Scheduler.Phase.{unlinked, bare, all_unlinked, all_bare}

all_bare-append : (xs ys : List (Linked Body)) → all_bare (xs ++ ys) ≡ all_bare xs ++ all_bare ys
all_bare-append [] ys = refl
all_bare-append (x ∷ xs) ys = ap (λ (evs : List Event). bare x ∷ evs) (all_bare-append xs ys)

-- More events on top of a log that replays.
replay_more :
    (run : ℕ) (cash : ℤ) (xs ys : List Event) {s t : EngineState}
    → replay run cash xs ≡ ok s
    → fold_all ys s ≡ (ok tt, t)
    → replay run cash (xs ++ ys) ≡ ok t
unfolding replay finished
replay_more run cash xs ys {s} {t} h k = ap finished (
    fold_all-append xs ys (initial_state run cash)
    ∙ ap (λ (p : Result (Unit {0}) × EngineState). ((λ (_ : EngineState). p) >> fold_all ys) s)
        (replay_ok run cash xs h)
    ∙ k)

-- The log of a run in the store leads to this state.
abbrev pub Resumes : ℤ → EngineState → Dict (List (Linked Body)) → Type 0
Resumes cash s store = replay s.run_id cash (all_bare (log_of s.run_id store)) ≡ ok s

abbrev pub IsResumable : ℤ → Run → Type 0
IsResumable cash run = Resumes cash run.engine.state run.store

abbrev pub outcome_of :
    Result (List (Linked Body)) × Dict (List (Linked Body)) → Result (List (Linked Body))
outcome_of p = p.0

abbrev pub store_of :
    Result (List (Linked Body)) × Dict (List (Linked Body)) → Dict (List (Linked Body))
store_of p = p.1

abbrev folded_of : Result (Unit {0}) × EngineState → Result (Unit {0})
folded_of p = p.0

module _ (h : Hashing Body) where
  same_front :
      (previous : Hash) (ev : Event) (rest : List (Linked Body)) (evs : List Event)
      → all_bare rest ≡ evs
      → all_bare (linked h previous (unlinked ev) ∷ rest) ≡ ev ∷ evs
  unfolding with_hashes
  same_front previous ev rest evs k = ap (λ (xs : List Event). ev ∷ xs) k

  -- Linking sets the hashes alone.
  link-bare :
      (run seq : ℕ) (previous : Hash) (evs : List Event) (cs : List (Linked Body))
      → link h run seq previous (all_unlinked evs) ≡ ok cs
      → all_bare cs ≡ evs
  link-bare run seq previous [] cs l = ap all_bare (sym (nil_of h run seq previous l))
  link-bare run seq previous (ev ∷ evs) cs l =
      let (p, q, rest, r, k) = link_cons h run seq previous (unlinked ev) (all_unlinked evs) l in
      ap all_bare k
      ∙ same_front previous ev rest evs
          (link-bare run ev.seq (linked h previous (unlinked ev)).event_hash evs rest r)

  staged_log :
      (ev : Event) (evs : List Event) (seq : ℕ) (store store' : Dict (List (Linked Body)))
      (cs : List (Linked Body))
      → append_batch h (all_unlinked (ev ∷ evs)) seq store ≡ (ok cs, store')
      → all_bare (log_of ev.run_id store') ≡ all_bare (log_of ev.run_id store) ++ (ev ∷ evs)
  staged_log ev evs seq store store' cs a =
      let (at_tip, linked_ok, stored) =
        committed_cases h (unlinked ev) (all_unlinked evs) seq store (ap outcome_of a) in
      ap (λ (d : Dict (List (Linked Body))). all_bare (log_of ev.run_id d))
        (sym (ap store_of a) ∙ stored)
      ∙ ap all_bare (log-insert_self ev.run_id (log_of ev.run_id store ++ cs) store)
      ∙ all_bare-append (log_of ev.run_id store) cs
      ∙ ap (λ (xs : List Event). all_bare (log_of ev.run_id store) ++ xs)
          (link-bare ev.run_id (tip store ev.run_id).0 (tip store ev.run_id).1 (ev ∷ evs) cs
            linked_ok)

  pub first_run :
      (ev : Event) (evs : List Event) (s t : EngineState)
      → fold_all (ev ∷ evs) s ≡ (ok tt, t)
      → (ev.run_id ≡ s.run_id) × (t.run_id ≡ s.run_id)
  first_run ev evs s t f =
      let (first, rest) = fold_all_cons ev evs s (ap folded_of f) in
      (
        (fold_ok ev s first).same_run,
        sym (ap (λ (p : Result (Unit {0}) × EngineState). p.1.run_id) f)
            ∙ (fold_all_seq (ev ∷ evs) s (ap folded_of f)).1,
      )

  staged :
      (run : Run) (e : Engine) (ev : Event) (evs : List Event) (cash : ℤ)
      (p : Result (List (Linked Body)) × Dict (List (Linked Body)))
      → append_batch h (all_unlinked (ev ∷ evs)) run.engine.state.seq run.store ≡ p
      → fold_all (ev ∷ evs) run.engine.state ≡ (ok tt, e.state)
      → IsResumable cash run
      → IsResumable cash (committed run e p).1
  unfolding committed
  staged run e ev evs cash (err x, store) a f i =
      subst (Resumes cash run.engine.state)
        (sym (
            append_atomic h (all_unlinked (ev ∷ evs)) run.engine.state.seq run.store
              (ap outcome_of a))
          ∙ ap store_of a)
        i
  staged run e ev evs cash (ok cs, store) a f i =
      let (of_run, kept) = first_run ev evs run.engine.state e.state f in
      let log : all_bare (log_of run.engine.state.run_id store)
          ≡ all_bare (log_of run.engine.state.run_id run.store) ++ (ev ∷ evs) =
        subst (λ k. all_bare (log_of k store) ≡ all_bare (log_of k run.store) ++ (ev ∷ evs)) of_run
          (staged_log ev evs run.engine.state.seq run.store store cs a) in
      subst (λ k. replay k cash (all_bare (log_of k store)) ≡ ok e.state) (sym kept)
        (ap (replay run.engine.state.run_id cash) log
          ∙ replay_more run.engine.state.run_id cash
              (all_bare (log_of run.engine.state.run_id run.store)) (ev ∷ evs) i f)

  no_events :
      (run : Run) (e : Engine) (cash : ℤ)
      → fold_all [] run.engine.state ≡ (ok tt, e.state)
      → IsResumable cash run
      → IsResumable cash (committed run e (ok [], run.store)).1
  unfolding committed fold_all
  no_events run e cash f i =
      subst (λ s. Resumes cash s run.store) (ap (λ (p : Result (Unit {0}) × EngineState). p.1) f) i

  batch :
      (run : Run) (e : Engine) (cash : ℤ) (evs : List Event)
      → fold_all evs run.engine.state ≡ (ok tt, e.state)
      → IsResumable cash run
      → IsResumable cash
          (committed run e (append_batch h (all_unlinked evs) run.engine.state.seq run.store)).1
  batch run e cash (ev ∷ evs) f i = staged run e ev evs cash _ refl f i
  batch run e cash [] f i =
      subst (λ p. IsResumable cash (committed run e p).1)
        (sym (append_nothing h run.engine.state.seq run.store)) (no_events run e cash f i)

  done :
      (run : Run) (cash : ℤ) (p : Result (Unit {0}) × Engine)
      → Outcome run.engine.state p
      → IsResumable cash run
      → IsResumable cash (commit_staged h run p).1
  unfolding commit_staged
  done run cash (err x, e) r i = i
  done run cash (ok u, e) r i = batch run e cash e.buffer r i

  -- A phase whose work is logged keeps the run resumable, whether it commits or raises.
  pub atomic-IsResumable :
      (work : Work) (run : Run) (cash : ℤ)
      → IsLogged work
      → IsResumable cash run
      → IsResumable cash (atomic h work run).1
  unfolding atomic IsLogged fold_all
  atomic-IsResumable work run cash l i =
      done run cash (work (record run.engine { buffer = [] }))
        (l run.engine.state (record run.engine { buffer = [] }) refl) i
