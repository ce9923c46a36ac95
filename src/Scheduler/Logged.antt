-- ===== src/Scheduler/Logged.antt =====
-- Every operation of the scheduler changes the state by the events that it emits.
use auto_options_call_debit.Scheduler.{Valuation, set_valuation}
use auto_options_call_debit.Common.{ap}
use auto_options_call_debit.Common.Action.{pure, raise, lift, gets, need, guard_not, ◌>>◌}
use auto_options_call_debit.Common.{
  refl, ◌∙◌, Bool, true, false, Option, none, some, List, if◌then◌else◌,
}
use auto_options_call_debit.Common.Outcome.{Error, key_error}
use auto_options_call_debit.Common.Dict.{Dict, lookup}
use auto_options_call_debit.Domain.State.{AgentState}
use auto_options_call_debit.Ledger.Fold.Sequence.{fold_all-append}
use auto_options_call_debit.Scheduler.{
  Work, new_id, set_manager_due, agent_state_event, retire_agent, state_item, state_item_or,
  for_each,
}
use auto_options_call_debit.Common.Action.{Action, ◌>>=◌}
use auto_options_call_debit.Common.{ℕ, String, ◌≡◌, [], ◌∷◌, ◌++◌}
use auto_options_call_debit.Common.Outcome.{Result, err, ok}
use auto_options_call_debit.Ledger.Event.{Body, Event, EngineState}
use auto_options_call_debit.Ledger.Fold.{fold, fold_all}
use auto_options_call_debit.Scheduler.{next_event, emit, Engine}

-- The events of the phase lead from the state at its start to the present one.
abbrev pub Replays : EngineState → Engine → Type 0
Replays base e = fold_all e.buffer base ≡ (ok tt, e.state)

abbrev pub Outcome : {A : Type 0} → EngineState → Result A × Engine → Type 0
Outcome base (ok a, e) = Replays base e
Outcome base (err x, e) = Unit

unfoldable pub IsLogged : {A : Type 0} → Action Engine A → Type 0
IsLogged w = (base : EngineState) (e : Engine) → Replays base e → Outcome base (w e)

module _ {A B : Type 0} where
  after :
      (base : EngineState) (f : A → Action Engine B)
      → ((a : A) → IsLogged (f a))
      → (p : Result A × Engine) → Outcome base p
      → Outcome base (((λ (_ : Engine). p) >>= f) p.1)
  unfolding IsLogged
  after base f g (ok a, e) h = g a base e h
  after base f g (err x, e) h = tt

  pub bind-IsLogged :
      (w : Action Engine A) (f : A → Action Engine B)
      → IsLogged w
      → ((a : A) → IsLogged (f a))
      → IsLogged (w >>= f)
  unfolding IsLogged
  bind-IsLogged w f l g base e r = after base f g (w e) (l base e r)

folded :
    (base : EngineState) (e : Engine) (ev : Event) (p : Result (Unit {0}) × EngineState)
    → fold_all (e.buffer ++ (ev ∷ [])) base ≡ p
    → Outcome base (p.0, record e { state = p.1; buffer = e.buffer ++ (ev ∷ []) })
folded base e ev (ok tt, s) h = h
folded base e ev (err x, s) h = tt

then_nothing :
    (s : EngineState) (p : Result (Unit {0}) × EngineState)
    → ((λ (_ : EngineState). p) >> fold_all []) s ≡ p
unfolding fold_all
then_nothing s (ok tt, t) = refl
then_nothing s (err x, t) = refl

fold_all_one : (ev : Event) (s : EngineState) → fold_all (ev ∷ []) s ≡ fold ev s
unfolding fold_all
fold_all_one ev s = then_nothing s (fold ev s)

one_more :
    (base : EngineState) (e : Engine) (ev : Event)
    → Replays base e
    → fold_all (e.buffer ++ (ev ∷ [])) base ≡ fold ev e.state
one_more base e ev r =
    fold_all-append e.buffer (ev ∷ []) base
    ∙ ap
        (λ (p : Result (Unit {0}) × EngineState).
          ((λ (_ : EngineState). p) >> fold_all (ev ∷ [])) base)
        r
    ∙ fold_all_one ev e.state

pub emit-IsLogged : (t : ℕ) (phase : String) (body : Body) → IsLogged (emit t phase body)
unfolding IsLogged emit
emit-IsLogged t phase body base e r =
    folded base e (next_event e.state t phase body) (fold (next_event e.state t phase body) e.state)
      (one_more base e (next_event e.state t phase body) r)

pub pure-IsLogged : {A : Type 0} (a : A) → IsLogged (pure a)
unfolding IsLogged
pure-IsLogged a base e r = r

pub raise-IsLogged : (A : Type 0) (x : Error) → IsLogged (raise {A = A} x)
unfolding IsLogged
raise-IsLogged A x base e r = tt

pub lift-IsLogged : {A : Type 0} (m : Result A) → IsLogged (lift m)
unfolding IsLogged
lift-IsLogged (ok a) base e r = r
lift-IsLogged (err x) base e r = tt

pub gets-IsLogged : {A : Type 0} (f : Engine → A) → IsLogged (gets f)
unfolding IsLogged
gets-IsLogged f base e r = r

pub need-IsLogged : {A : Type 0} (m : Option A) (x : Error) → IsLogged (need m x)
unfolding IsLogged
need-IsLogged none x base e r = tt
need-IsLogged (some a) x base e r = r

pub guard-IsLogged : (test : Bool) (x : Error) → IsLogged (guard_not test x)
unfolding IsLogged
guard-IsLogged true x base e r = tt
guard-IsLogged false x base e r = r

pub if-IsLogged :
    {A : Type 0} (test : Bool) (w v : Action Engine A)
    → IsLogged w
    → IsLogged v
    → IsLogged (if test then w else v)
unfolding IsLogged
if-IsLogged true w v lw lv = lw
if-IsLogged false w v lw lv = lv

pub new_id-IsLogged : IsLogged new_id
unfolding IsLogged new_id
new_id-IsLogged base e r = r

pub set_manager_due-IsLogged : IsLogged set_manager_due
unfolding IsLogged set_manager_due
set_manager_due-IsLogged base e r = r

pub set_valuation-IsLogged : (f : EngineState → Valuation) → IsLogged (set_valuation f)
unfolding IsLogged set_valuation
set_valuation-IsLogged f base e r = r

pub state_item-IsLogged :
    {V : Type 0} (d : EngineState → Dict V) (k : ℕ) → IsLogged (state_item d k)
unfolding IsLogged state_item
state_item-IsLogged d k base e r = need-IsLogged (lookup k (d e.state)) key_error base e r

pub state_item_or-IsLogged :
    {V : Type 0} (d : EngineState → Dict V) (k : Option ℕ) → IsLogged (state_item_or d k)
unfolding IsLogged state_item_or
state_item_or-IsLogged d none base e r = tt
state_item_or-IsLogged d (some k) base e r = state_item-IsLogged d k base e r

pub agent_state-IsLogged :
    (agent : ℕ) (state : AgentState) (t next : ℕ) (position : Option ℕ)
    → IsLogged (agent_state_event agent state t next position)
unfolding agent_state_event
agent_state-IsLogged agent state t next position = emit-IsLogged t "AGENT" _

pub retire_agent-IsLogged :
    (agent t : ℕ) (final : AgentState) → IsLogged (retire_agent agent t final)
unfolding retire_agent
retire_agent-IsLogged agent t final =
    bind-IsLogged _ _ (emit-IsLogged t "AGENT" _) (λ _. emit-IsLogged t "AGENT" _)

pub for_each-IsLogged :
    {A : Type 0} (xs : List A) (body : A → Work)
    → ((x : A) → IsLogged (body x))
    → IsLogged (for_each xs body)
unfolding for_each
for_each-IsLogged [] body l = pure-IsLogged tt
for_each-IsLogged (x ∷ xs) body l = bind-IsLogged _ _ (l x) (λ _. for_each-IsLogged xs body l)

-- What a phase is composed of.
pub ruleset logged = (
  bind-IsLogged, emit-IsLogged, pure-IsLogged, raise-IsLogged, lift-IsLogged, gets-IsLogged,
  need-IsLogged, guard-IsLogged, if-IsLogged, new_id-IsLogged, set_manager_due-IsLogged,
  set_valuation-IsLogged, state_item-IsLogged, state_item_or-IsLogged, agent_state-IsLogged,
  retire_agent-IsLogged, for_each-IsLogged,
)
