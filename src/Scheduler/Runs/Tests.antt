-- ===== src/Scheduler/Runs/Tests.antt =====
-- A barrier that allocates one slot, and one that fails half-way.
use auto_options_call_debit.Common.{ℕ}
use auto_options_call_debit.Common.Outcome.{Result}
use auto_options_call_debit.Domain.Contract.{bull_put_credit}
use auto_options_call_debit.Scheduler.Decisions.Slots.{Allocated, allocate_side-Allocated}
use auto_options_call_debit.Scheduler.{Engine}
use auto_options_call_debit.Common.{
  pos, ◌+ℤ◌, ◌-ℤ◌, ◌*ℤ◌, ◌+◌, ◌≡◌, refl, true, false, none, some, [], ◌∷◌,
}
use auto_options_call_debit.Common.Outcome.{data_pause, key_error, err, ok}
use auto_options_call_debit.Common.Lists.{length}
use auto_options_call_debit.Domain.Money.{quantize}
use auto_options_call_debit.Domain.Contract.{int}
use auto_options_call_debit.Domain.State.{manager_role}
use auto_options_call_debit.Accounting.{available, reserve_required_usd, hold_reservation}
use auto_options_call_debit.Ledger.Event.{Body}
use auto_options_call_debit.Ledger.Fold.{apply_body, fold, initial_state}
use auto_options_call_debit.Policy.{count, Proposal, allocate, retire_slots}
use auto_options_call_debit.Policy.Mechanical.{proposal}
use auto_options_call_debit.Store.{Hashing}
use auto_options_call_debit.Scheduler.{next_event, emit, new_id, state_item, for_each}
use auto_options_call_debit.Scheduler.Market.{Market}
use auto_options_call_debit.Scheduler.Decisions.{
  max_multiplier, reservation_reserve, allocate_side, apply_manager, Desk,
}
use auto_options_call_debit.Scheduler.Barrier.{reason_now, commit_actions, Prepared}
use auto_options_call_debit.Scheduler.Phase.{atomic, Run}
use auto_options_call_debit.Scheduler.Phase.Resume.{IsResumable}
use auto_options_call_debit.Scheduler.Phase.Chain.{IsVerified, atomic_rollback}
use auto_options_call_debit.Scheduler.Runs.{next, here, at_decision, started, Reach-CanResume}

abbrev counting : Hashing Body
counting = record { payload_digest = λ b. 5; envelope_digest = λ e. e.seq }

abbrev no_quotes : Market
no_quotes = record {
  next_grid = λ t. t + 30;
  ny_date = λ t. 0;
  last_trading = λ p. ok 900;
  pair = λ s t. err (data_pause "REQUIRED_QUOTE_MISSING");
  settlement_for = λ day. none;
  opening_fee = pos 650000;
  closing_fee = pos 650000;
  settlement_fee = pos 650000;
  max_risk = none;
}

abbrev desk : Desk
desk = record {
  next_grid = λ t. t + 30;
  session_close = λ t. 900;
  multipliers = λ t. 100 ∷ [];
  max_width = pos 5000000;
  buffer = pos 10000000;
  max_aggregate_risk = none;
  after_scored_end = λ t. false;
  delay = 1;
}

abbrev by_manager : Proposal → Prepared
by_manager p = record {
  context = record { role = manager_role; spread_view = none; manager_view = none };
  actor_id = 0;
  proposal = p;
  has_witness = false;
  reason = none;
}

abbrev one_bull : Prepared
one_bull =
    by_manager (record (proposal allocate []) { allocation = some (("bullish", int (pos 1)) ∷ []) })

abbrev retire_unknown : Prepared
retire_unknown = by_manager (record (proposal retire_slots []) { retire_reservation_ids = 77 ∷ [] })

abbrev begun : Run
begun = started 1 (pos 1000000000)

abbrev after_barrier : Run
after_barrier = (atomic counting (commit_actions desk 100 [] true (one_bull ∷ [])) begun).1

abbrev barrier_done : Engine
barrier_done = (commit_actions desk 100 [] true (one_bull ∷ []) begun.engine).1

-- The decision, the reservation and the agent are logged, and the reserve is held.
one_slot :
    (length barrier_done.buffer ≡ 3)
    × (barrier_done.state.account.reserved ≡ pos 510000000)
    × (barrier_done.id_counter ≡ 2)
unfolding commit_actions for_each reason_now emit next_event fold apply_body apply_manager
    reservation_reserve max_multiplier reserve_required_usd allocate_side available hold_reservation
    new_id started initial_state quantize count ◌+ℤ◌ ◌-ℤ◌ ◌*ℤ◌
one_slot = (refl, refl, refl)

Reach-CanResume_example :
    IsResumable (pos 1000000000) after_barrier × IsVerified counting after_barrier
Reach-CanResume_example =
    Reach-CanResume counting no_quotes desk 1 (pos 1000000000)
      (next here (at_decision begun 100 [] true (one_bull ∷ [])))

-- The failing barrier has emitted its decision when the reservation turns out missing.
half_way :
    (atomic counting (commit_actions desk 100 [] true (retire_unknown ∷ [])) begun).0
    ≡ err key_error
unfolding atomic commit_actions for_each reason_now emit next_event fold apply_body apply_manager
    state_item started initial_state
half_way = refl

atomic_rollback_example :
    (atomic counting (commit_actions desk 100 [] true (retire_unknown ∷ [])) begun).1 ≡ begun
atomic_rollback_example = atomic_rollback counting _ begun key_error half_way

abbrev three_slots : Result ℕ × Engine
three_slots = allocate_side desk 100 bull_put_credit (pos 510000000) 3 begun.engine

-- Of three slots the cash covers one.
one_of_three : three_slots ≡ (ok 1, three_slots.1)
unfolding allocate_side available emit next_event fold apply_body hold_reservation new_id started
    initial_state quantize ◌+ℤ◌ ◌-ℤ◌
one_of_three = refl

allocate_side-Allocated_example :
    Allocated desk 100 bull_put_credit (pos 510000000) 3 begun.engine 1 three_slots.1
allocate_side-Allocated_example =
    allocate_side-Allocated desk 100 bull_put_credit (pos 510000000) 3 begun.engine 1 three_slots.1
      one_of_three
