-- ===== src/Knowledge/Observations.antt =====
-- The ledger of observations, in memory (epistemics/store.py).
pub mod Same
pub mod Sound
pub mod Again
use auto_options_call_debit.Common.{
  eqb_ℤ, ℕ, ◌+◌, String, Bool, true, false, not, ◌&&◌, Option, none, some, List, [], ◌∷◌, ◌++◌,
  str_eq, ltb, ◌==◌, if◌then◌else◌,
}
use auto_options_call_debit.Common.Action.{
  Action, pure, lift, gets, need, guard_not, ◌>>=◌, ◌>>◌, modify,
}
use auto_options_call_debit.Common.Outcome.{harness_error}
use auto_options_call_debit.Common.Dict.{Dict, lookup, insert}
use auto_options_call_debit.Common.Lists.{keep}
use auto_options_call_debit.Common.Equality.{list_eq, option_eq}
use auto_options_call_debit.Domain.Money.{Decimal, Datetime, finite, special, aware, naive}
use auto_options_call_debit.Knowledge.{
  aware_check, instant, addressed, Value, Recipient, Atom, Delivery, text_value, not_text, public,
  actor,
}

pub record AssessmentRecord : Type 0 where
  pub actor_id : ℕ
  pub topic : String
  pub assessment : String
  pub confidence_label : String
  pub premise_atom_ids : List ℕ
  pub accepted_at : Datetime
  pub decision_token : ℕ
  pub run_id : ℕ
  pub branch_id : ℕ

-- An incident's identifier: the run and a number in it.
pub record Incident (Payload : Type 0) : Type 0 where
  pub incident_id : ℕ × ℕ
  pub run_id : ℕ
  pub branch_id : ℕ
  pub actor_id : ℕ
  pub code : String
  pub rejected_payload : Payload
  pub at : Datetime

pub record ObservationLedger (Payload : Type 0) : Type 0 where
  pub atoms : Dict Atom
  pub deliveries : List Delivery
  pub assessments : List AssessmentRecord
  pub incidents : List (Incident Payload)
  pub incident_seq : Dict ℕ

unfoldable pub empty_ledger : (Payload : Type 0) → ObservationLedger Payload
empty_ledger Payload = record {
  atoms = [];
  deliveries = [];
  assessments = [];
  incidents = [];
  incident_seq = [];
}

unfoldable pub time_eq : Datetime → Datetime → Bool
time_eq (aware s) (aware t) = s == t
time_eq (naive s) (naive t) = s == t
time_eq _ _ = false

unfoldable pub decimal_eq : Decimal → Decimal → Bool
decimal_eq (finite v) (finite w) = eqb_ℤ v w
decimal_eq special special = true
decimal_eq _ _ = false

unfoldable pub value_eq : Value → Value → Bool
unfolding decimal_eq
value_eq (text_value s m) (text_value t n) = str_eq s t && option_eq decimal_eq m n
value_eq not_text not_text = true
value_eq _ _ = false

unfoldable pub recipient_eq : Recipient → Recipient → Bool
recipient_eq public public = true
recipient_eq (actor a) (actor b) = a == b
recipient_eq _ _ = false

unfoldable pub bool_eq : Bool → Bool → Bool
bool_eq true b = b
bool_eq false b = not b

-- `==` of two atoms, field by field
unfoldable pub atom_eq : Atom → Atom → Bool
unfolding time_eq value_eq recipient_eq bool_eq
atom_eq a b =
    (a.atom_id == b.atom_id)
    && (str_eq a.metric b.metric
        && (value_eq a.value b.value
            && (str_eq a.unit b.unit
                && (str_eq a.kind b.kind
                    && (time_eq a.published_at b.published_at
                        && (time_eq a.available_at b.available_at
                            && (time_eq a.subject_at b.subject_at
                                && (bool_eq a.source_checked b.source_checked
                                    && (list_eq recipient_eq a.recipients b.recipients
                                        && (list_eq (λ x y. x == y) a.dependencies b.dependencies
                                            && option_eq (λ s t. str_eq s t) a.transform
                                                b.transform))))))))))

-- `a in atoms and atoms[a] != atom`
unfoldable pub conflicts : Option Atom → Atom → Bool
conflicts none atom = false
conflicts (some held) atom = not (atom_eq held atom)

unfoldable pub delivery_key : Delivery → ℕ → ℕ → ℕ → ℕ → Bool
delivery_key d run branch actor_id atom_id =
    (d.run_id == run)
    && ((d.branch_id == branch) && ((d.actor_id == actor_id) && (d.atom_id == atom_id)))

-- The first delivery of an atom to an actor.
unfoldable pub first_delivery : List Delivery → ℕ → ℕ → ℕ → ℕ → Option Delivery
first_delivery [] run branch actor_id atom_id = none
first_delivery (d ∷ ds) run branch actor_id atom_id =
    if delivery_key d run branch actor_id atom_id
    then some d
    else first_delivery ds run branch actor_id atom_id

abbrev pub delivery : ℕ → ℕ → ℕ → ℕ → Datetime → Delivery
delivery run branch actor_id atom_id at = record {
  run_id = run;
  branch_id = branch;
  actor_id = actor_id;
  atom_id = atom_id;
  delivered_at = at;
}

unfoldable pub in_scope : ℕ → ℕ → ℕ → ℕ → ℕ → ℕ → Bool
in_scope run branch actor_id run' branch' actor' =
    (run == run') && ((branch == branch') && (actor_id == actor'))

unfoldable pub same_assessment : AssessmentRecord → AssessmentRecord → Bool
same_assessment r s =
    (r.run_id == s.run_id)
    && ((r.branch_id == s.branch_id)
        && ((r.actor_id == s.actor_id)
            && ((r.decision_token == s.decision_token) && str_eq r.topic s.topic)))

unfoldable pub any_assessment : AssessmentRecord → List AssessmentRecord → Bool
any_assessment rec [] = false
any_assessment rec (r ∷ rs) = if same_assessment r rec then true else any_assessment rec rs

or_zero : Option ℕ → ℕ
or_zero none = 0
or_zero (some n) = n

module _ {Payload : Type 0} where
  -- `put_atom`
  unfoldable pub put_atom : Atom → Action (ObservationLedger Payload) (Unit {0})
  put_atom atom = do
    lift (aware_check atom.published_at)
    lift (aware_check atom.available_at)
    lift (aware_check atom.subject_at)
    held ← gets (λ s. lookup atom.atom_id s.atoms)
    guard_not (conflicts held atom) (harness_error "ATOM_IDENTITY_CONFLICT")
    modify (λ s. record s { atoms = insert atom.atom_id atom s.atoms })

  -- The end of `deliver`: the earlier delivery if there is one, or a new one.
  unfoldable pub record_delivery :
      Option Delivery → Delivery → Action (ObservationLedger Payload) Delivery
  record_delivery (some d) new = pure d
  record_delivery none new =
      modify (λ s. record s { deliveries = s.deliveries ++ new ∷ [] }) >> pure new

  -- `deliver`
  unfoldable pub deliver : ℕ → ℕ → ℕ → ℕ → Datetime → Action (ObservationLedger Payload) Delivery
  deliver run branch actor_id atom_id at = do
    now ← lift (aware_check at)
    held ← gets (λ s. lookup atom_id s.atoms)
    a ← need held (harness_error "MISSING_OBSERVATION")
    guard_not (ltb now (instant a.available_at)) (harness_error "DELIVERY_BEFORE_AVAILABILITY")
    guard_not (not (addressed actor_id a.recipients)) (harness_error "WRONG_RECIPIENT")
    earlier ← gets (λ s. first_delivery s.deliveries run branch actor_id atom_id)
    record_delivery earlier (delivery run branch actor_id atom_id at)

  -- `deliveries`
  unfoldable pub deliveries_of : ObservationLedger Payload → ℕ → ℕ → ℕ → List Delivery
  deliveries_of s run branch actor_id =
      keep (λ d. in_scope d.run_id d.branch_id d.actor_id run branch actor_id) s.deliveries

  -- `put_assessment`
  unfoldable pub put_assessment : AssessmentRecord → Action (ObservationLedger Payload) (Unit {0})
  put_assessment rec = do
    lift (aware_check rec.accepted_at)
    known ← gets (λ s. any_assessment rec s.assessments)
    if known then pure tt else modify (λ s. record s { assessments = s.assessments ++ rec ∷ [] })

  -- `assessments`
  unfoldable pub assessments_of : ObservationLedger Payload → ℕ → ℕ → ℕ → List AssessmentRecord
  assessments_of s run branch actor_id =
      keep (λ r. in_scope r.run_id r.branch_id r.actor_id run branch actor_id) s.assessments

  -- `quarantine`
  unfoldable pub quarantine :
      Incident Payload → ObservationLedger Payload → ObservationLedger Payload
  unfolding or_zero
  quarantine incident s = record s {
    incident_seq =
        insert incident.run_id (or_zero (lookup incident.run_id s.incident_seq) + 1) s.incident_seq;
    incidents = s.incidents ++ incident ∷ [];
  }

  -- `next_incident_id`
  unfoldable pub next_incident_id : ObservationLedger Payload → ℕ → ℕ × ℕ
  unfolding or_zero
  next_incident_id s run = (run, or_zero (lookup run s.incident_seq) + 1)

  -- `incidents`
  unfoldable pub incidents_of : ObservationLedger Payload → ℕ → List (Incident Payload)
  incidents_of s run = keep (λ i. i.run_id == run) s.incidents
