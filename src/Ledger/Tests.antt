-- ===== src/Ledger/Tests.antt =====
-- A short log, folded and replayed.
use auto_options_call_debit.Common.{pos, ◌+ℤ◌, ◌-ℤ◌, ℕ, ◌+◌, ◌≡◌, refl, ◌≢◌, false, List, [], ◌∷◌}
use auto_options_call_debit.Common.Outcome.{domain_error, ok, err}
use auto_options_call_debit.Common.Lists.{length}
use auto_options_call_debit.Domain.Money.{quantize}
use auto_options_call_debit.Domain.Contract.{bull_put_credit}
use auto_options_call_debit.Domain.State.{res_released}
use auto_options_call_debit.Accounting.{hold_reservation, release_reservation}
use auto_options_call_debit.Ledger.Event.{
  Body, Event, EngineState, reservation_held, reservation_released, manager_paused, other,
}
use auto_options_call_debit.Ledger.Fold.{
  apply_body, fold, fold_all, initial_state, finished, replay,
}
use auto_options_call_debit.Ledger.Fold.Sequence.{fold_sequence, replay_seq, IsNext}

abbrev event : ℕ → Body → Event
event n body = record {
  run_id = 1;
  seq = n;
  sim_time_utc = 100;
  phase = "RESERVATION";
  body = body;
}

abbrev log : List Event
log =
    event 1 (reservation_held 11 21 bull_put_credit (pos 510000000) 100 900)
    ∷ event 2 (other "VALUATION_RECORDED")
    ∷ event 3 (reservation_released 11 res_released)
    ∷ []

abbrev start : EngineState
start = record {
  run_id = 1;
  account = record { cash = pos 1000000000; reserved = pos 0; fees_paid = pos 0 };
  agents = [];
  positions = [];
  orders = [];
  reservations = [];
  paused = false;
  seq = 0;
}

abbrev ended : EngineState
ended = record start {
  reservations =
      (
        11,
        record {
          reservation_id = 11;
          agent_id = 21;
          direction = bull_put_credit;
          reserve_usd = pos 510000000;
          created_at_utc = 100;
          expires_at_utc = 900;
          status = res_released;
        },
      )
      ∷ [];
  seq = 3;
}

replayed : replay 1 (pos 1000000000) log ≡ ok ended
unfolding replay initial_state fold_all fold apply_body finished hold_reservation
    release_reservation quantize ◌+ℤ◌ ◌-ℤ◌
replayed = refl

-- A hold that is refused has already entered its reservation.
refused_hold :
    (fold (event 1 (reservation_held 11 21 bull_put_credit (pos 2000000000) 100 900)) start).0
    ≡ err (domain_error "INSUFFICIENT_AVAILABLE_CAPITAL")
unfolding fold apply_body hold_reservation quantize ◌-ℤ◌
refused_hold = refl

fold_sequence_example :
    ((fold (event 1 manager_paused) start).0 ≡ ok tt
      → IsNext (event 1 manager_paused) start (fold (event 1 manager_paused) start).1)
    × (◌≢◌ {A = ℕ} 1 1
        → fold (event 1 manager_paused) start ≡ (err (domain_error "CROSS_RUN_EVENT"), start))
    × (◌≡◌ {A = ℕ} 1 1
        → 1 ≢ 0 + 1
        → fold (event 1 manager_paused) start
          ≡ (err (domain_error "EVENT_SEQUENCE_MISMATCH"), start))
fold_sequence_example = fold_sequence (event 1 manager_paused) start

replay_seq_example : (ended.seq ≡ length log) × (ended.run_id ≡ 1)
replay_seq_example = replay_seq 1 (pos 1000000000) log replayed
