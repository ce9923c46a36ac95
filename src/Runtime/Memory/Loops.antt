-- ===== src/Runtime/Memory/Loops.antt =====
-- The loops of `observations` over deliveries and assessments (persistence/runtime.py).
use auto_options_call_debit.Common.Action.{◌>>◌}
use auto_options_call_debit.Common.{List, [], ◌∷◌}
use auto_options_call_debit.Knowledge.{Delivery}
use auto_options_call_debit.Knowledge.Observations.{
  deliver, put_assessment, AssessmentRecord, ObservationLedger,
}
use auto_options_call_debit.Runtime.Barriers.{runtime_time}
use auto_options_call_debit.Common.Action.{Action, pure, lift}

module _ {J : Type 0} where
  unfoldable pub deliver_each : List Delivery → Action (ObservationLedger J) (Unit {0})
  deliver_each [] = pure tt
  deliver_each (d ∷ ds) = do
    lift (runtime_time d.delivered_at)
    deliver d.run_id d.branch_id d.actor_id d.atom_id d.delivered_at
    deliver_each ds

  unfoldable pub assess_each : List AssessmentRecord → Action (ObservationLedger J) (Unit {0})
  assess_each [] = pure tt
  assess_each (r ∷ rs) = do lift (runtime_time r.accepted_at); put_assessment r; assess_each rs
