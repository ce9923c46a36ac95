-- ===== src/Scheduler/Runs.antt =====
-- The runs that the phases of a session lead to (engine/scheduler.py).
mod Tests
use auto_options_call_debit.Common.{none}
use auto_options_call_debit.Common.{String}
use auto_options_call_debit.Ledger.Event.{other}
use auto_options_call_debit.Scheduler.{emit}
use auto_options_call_debit.Scheduler.Logged.{emit-IsLogged}
use auto_options_call_debit.Common.{ℤ, ℕ, refl, Bool, false, some, List, []}
use auto_options_call_debit.Ledger.Event.{Body}
use auto_options_call_debit.Ledger.Fold.{fold_all, initial_state, finished, replay}
use auto_options_call_debit.Store.{verify, log_of, Hashing}
use auto_options_call_debit.Scheduler.Phase.{atomic, Run}
use auto_options_call_debit.Scheduler.Phase.Resume.{IsResumable, atomic-IsResumable}
use auto_options_call_debit.Scheduler.Market.{Market}
use auto_options_call_debit.Scheduler.Decisions.{Desk}
use auto_options_call_debit.Scheduler.Session.{market_work, close_work, settlement_work}
use auto_options_call_debit.Scheduler.Barrier.{commit_actions, Prepared}
use auto_options_call_debit.Scheduler.Session.Logged.{
  market_work-IsLogged, close_work-IsLogged, settlement_work-IsLogged,
}
use auto_options_call_debit.Scheduler.Barrier.Logged.{commit_actions-IsLogged}
use auto_options_call_debit.Scheduler.Phase.Chain.{IsVerified, atomic-IsVerified}

-- `Engine.__init__`, with an empty store
unfoldable pub started : ℕ → ℤ → Run
started run cash = record {
  engine = record {
    state = initial_state run cash;
    buffer = [];
    id_counter = 0;
    manager_due = false;
    valuation = none;
  };
  store = [];
}

module _ (h : Hashing Body) (m : Market) (d : Desk) where
  -- The phases of a session, at any time and with any policy's decisions.
  pub data Step : Run → Run → Type 0 where
    -- RUN_STARTED and RUN_ENDED
    at_boundary :
        (run : Run) (t : ℕ) (type : String) → Step run (atomic h (emit t "RUN" (other type)) run).1
    at_market :
        (run : Run) (day t : ℕ) (first_review : Bool)
        → Step run (atomic h (market_work m day t first_review) run).1
    at_decision :
        (run : Run) (t : ℕ) (findings : List ℕ) (due : Bool) (prepared : List Prepared)
        → Step run (atomic h (commit_actions d t findings due prepared) run).1
    at_close :
        (run : Run) (day t : ℕ) (scored : Bool)
        → Step run (atomic h (close_work m day t scored) run).1
    at_settlement : (run : Run) (day t : ℕ) → Step run (atomic h (settlement_work m day t) run).1

  pub data Reach (start : Run) : Run → Type 0 where
    here : Reach start start
    next : {a b : Run} → Reach start a → Step a b → Reach start b

  abbrev CanResume : ℤ → Run → Type 0
  CanResume cash run = IsResumable cash run × IsVerified h run

  Step-CanResume : (cash : ℤ) {a b : Run} → Step a b → CanResume cash a → CanResume cash b
  Step-CanResume cash (at_boundary run t type) (i, v) = (
    atomic-IsResumable h _ run cash (emit-IsLogged t "RUN" (other type)) i,
    atomic-IsVerified h _ run (emit-IsLogged t "RUN" (other type)) v,
  )
  Step-CanResume cash (at_market run day t first_review) (i, v) = (
    atomic-IsResumable h _ run cash (market_work-IsLogged m day t first_review) i,
    atomic-IsVerified h _ run (market_work-IsLogged m day t first_review) v,
  )
  Step-CanResume cash (at_decision run t findings due prepared) (i, v) = (
    atomic-IsResumable h _ run cash (commit_actions-IsLogged d t findings due prepared) i,
    atomic-IsVerified h _ run (commit_actions-IsLogged d t findings due prepared) v,
  )
  Step-CanResume cash (at_close run day t scored) (i, v) = (
    atomic-IsResumable h _ run cash (close_work-IsLogged m day t scored) i,
    atomic-IsVerified h _ run (close_work-IsLogged m day t scored) v,
  )
  Step-CanResume cash (at_settlement run day t) (i, v) = (
    atomic-IsResumable h _ run cash (settlement_work-IsLogged m day t) i,
    atomic-IsVerified h _ run (settlement_work-IsLogged m day t) v,
  )

  started-IsResumable : (run : ℕ) (cash : ℤ) → IsResumable cash (started run cash)
  unfolding started initial_state replay fold_all finished log_of
  started-IsResumable run cash = refl

  started-IsVerified : (run : ℕ) (cash : ℤ) → IsVerified h (started run cash)
  unfolding started initial_state log_of verify
  started-IsVerified run cash = refl

  started-CanResume : (run : ℕ) (cash : ℤ) → CanResume cash (started run cash)
  started-CanResume run cash = (started-IsResumable run cash, started-IsVerified run cash)

  -- After any phases from the start of a run on, of which some may have raised, the stored log passes
  -- the chain check of `Engine.run` and replays to the state that the engine has in memory.
  pub Reach-CanResume :
      (run : ℕ) (cash : ℤ) {r : Run}
      → Reach (started run cash) r
      → IsResumable cash r × IsVerified h r
  Reach-CanResume run cash here = started-CanResume run cash
  Reach-CanResume run cash (next before s) = Step-CanResume cash s (Reach-CanResume run cash before)
