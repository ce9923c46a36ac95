-- ===== src/Knowledge/Tests.antt =====
-- The knowledge boundary at work on three atoms: two rates, and their difference.
use auto_options_call_debit.Knowledge.Atoms.Derived.{IsDerived, check_atom-IsDerived}
use auto_options_call_debit.Common.{
  pos, negsuc, ◌-ℤ◌, ℕ, ◌+◌, ◌≤◌, String, ◌≡◌, refl, ◌⊎◌, true, none, some, List, [], ◌∷◌, ◌++◌,
  arith, text_append, ◌==◌, if◌then◌else◌,
}
use auto_options_call_debit.Common.Outcome.{Error, Result, harness_error, err, ok}
use auto_options_call_debit.Common.Dict.{Dict, lookup}
use auto_options_call_debit.Common.Lists.{All, member, sorted}
use auto_options_call_debit.Domain.Money.{finite, aware}
use auto_options_call_debit.Knowledge.{
  aware_check, instant, addressed, Atom, Delivery, Context, MenuChoice, text_value, public, actor,
}
use auto_options_call_debit.Knowledge.Vocabulary.{registration, actions}
use auto_options_call_debit.Knowledge.Atoms.{
  provenance, in_vocabulary, parents_of, number_of, numbers_of, expected, recomputed, derived,
  derivation, each_dependency, check_found, check_within, check_atom,
}
use auto_options_call_debit.Knowledge.Atoms.Terminates.{Ends, check_atom-Ends}
use auto_options_call_debit.Knowledge.Atoms.Known.{Known, check_atom-Known, itself, through}
use auto_options_call_debit.Knowledge.Observations.{
  empty_ledger, conflicts, first_delivery, delivery, in_scope, put_atom, deliver, ObservationLedger,
  record_delivery,
}
use auto_options_call_debit.Knowledge.Observations.Sound.{
  IsSound, Reach-IsSound, empty, after_atom, after_delivery,
}
use auto_options_call_debit.Knowledge.Observations.Again.{deliver-deliver}
use auto_options_call_debit.Knowledge.Packet.{
  find_text, add_once, observe_one, observe, left_out, check_unknowns, sorted_set, collect, offer,
  offer_all, packet_of, compile, Subject, MenuEntry, Public, Compiled, Secrets, identifier,
}
use auto_options_call_debit.Knowledge.Packet.Entitled.{Entitled}
use auto_options_call_debit.Knowledge.Proposals.{
  ProposalJson, keys_of, names_packet, strings, find_entry, check_codes, check_updates,
  accepted_atoms, atom_ids, latest, check_fields, validate, Field, Witness, text, plain, single,
  items,
}
use auto_options_call_debit.Knowledge.Proposals.Accepted.{validate-Entitled}
use auto_options_call_debit.Knowledge.Proposals.Required.{validate-Required}
use auto_options_call_debit.Knowledge.Beliefs.{reduce_belief}
use auto_options_call_debit.Knowledge.Beliefs.Prefix.{reduce_belief_prefix}

abbrev rate : ℕ → ℕ → Atom
rate id bps = record {
  atom_id = id;
  metric = "policy_rate_bps";
  value = text_value "rate" (some (finite (pos bps)));
  unit = "basis_points";
  kind = "OBSERVATION";
  published_at = aware 100;
  available_at = aware (100 + id);
  subject_at = aware 90;
  source_checked = true;
  recipients = public ∷ [];
  dependencies = [];
  transform = none;
}

abbrev difference : Atom
difference = record {
  atom_id = 3;
  metric = "policy_delta_bps";
  value = text_value "-25" (some (finite (negsuc 24)));
  unit = "basis_points";
  kind = "DERIVED";
  published_at = aware 110;
  available_at = aware 120;
  subject_at = aware 90;
  source_checked = true;
  recipients = actor 7 ∷ [];
  dependencies = 1 ∷ 2 ∷ [];
  transform = some "SUBTRACT";
}

abbrev three : Dict Atom
three = (1, rate 1 500) ∷ (2, rate 2 525) ∷ (3, difference) ∷ []

-- An atom that depends on itself.
abbrev circular : Dict Atom
circular = (3, record difference { dependencies = 3 ∷ [] }) ∷ []

abbrev context : Context
context = record {
  run_id = 1;
  branch_id = 0;
  actor_id = 7;
  actor_role = "SPREAD";
  as_of = aware 200;
  session_index = pos 4;
  minute_from_open = pos 30;
  alias_namespace = 9;
  prior_visible_belief_hash = 0;
}

cycle_found : check_atom circular context 3 ≡ err (harness_error "DEPENDENCY_CYCLE")
unfolding check_atom check_within check_found provenance aware_check addressed in_vocabulary
    registration each_dependency
cycle_found = refl

check_atom-Ends_example : Ends (check_atom circular context 3)
check_atom-Ends_example = check_atom-Ends circular context 3

passes : check_atom three context 3 ≡ ok tt
unfolding check_atom check_within check_found provenance aware_check addressed in_vocabulary
    registration each_dependency derivation derived recomputed parents_of numbers_of number_of
    expected ◌-ℤ◌
passes = refl

check_atom-Known_example :
    (a b : Atom) × (lookup 3 three ≡ some a)
    × (lookup 2 three ≡ some b)
    × Known context b
    × (instant b.available_at ≤ instant a.available_at)
check_atom-Known_example =
    check_atom-Known three context 3 2 passes (through 3 2 2 difference refl refl (itself 2))

check_atom-IsDerived_example : IsDerived three difference
check_atom-IsDerived_example = check_atom-IsDerived three context 3 difference refl refl passes

abbrev stored : ObservationLedger ℕ
stored = (put_atom (rate 1 500) (empty_ledger ℕ)).1

Reach-IsSound_example : IsSound (deliver 1 0 7 1 (aware 150) stored).1
Reach-IsSound_example =
    Reach-IsSound (deliver 1 0 7 1 (aware 150) stored).1
      (after_delivery stored 1 0 7 1 (aware 150) (after_atom (empty_ledger ℕ) (rate 1 500) empty))

told_once : (deliver 1 0 7 1 (aware 150) stored).0 ≡ ok (delivery 1 0 7 1 (aware 150))
unfolding deliver put_atom empty_ledger aware_check conflicts addressed first_delivery
    record_delivery
told_once = refl

deliver-deliver_example :
    let after : ObservationLedger ℕ = (deliver 1 0 7 1 (aware 150) stored).1 in
    (deliver 1 0 7 1 (aware 180) after ≡ (ok (delivery 1 0 7 1 (aware 150)), after))
    ⊎ ((e : Error) × (deliver 1 0 7 1 (aware 180) after ≡ (err e, after)))
deliver-deliver_example =
    deliver-deliver stored 1 0 7 1 (aware 150) (aware 180) (delivery 1 0 7 1 (aware 150)) told_once

abbrev name : Subject → String
name (identifier n) = if n == 1 then "1" else if n == 3 then "3" else "other"
name _ = "context"

abbrev plain_secrets : Secrets
plain_secrets = record {
  token = λ ns kind subject. text_append kind (name subject);
  packet_digest = λ p. "x";
}

abbrev wait : MenuChoice
wait = record {
  internal_id = 1;
  kind = "WAIT";
  required_atoms = 3 ∷ [];
  target_internal_id = none;
  limit_internal_id = none;
  attributes = ("dte", text_value "40" (some (finite (pos 40))), "calendar_days") ∷ [];
}

abbrev told_both : List Delivery
told_both =
    delivery 1 0 7 1 (aware 150) ∷ delivery 1 0 7 3 (aware 160) ∷ delivery 1 0 8 2 (aware 170) ∷ []

abbrev compiled : Result Compiled
compiled = compile plain_secrets three told_both context (wait ∷ []) [] [] none

abbrev packet : Public
packet = record {
  schema_version = "2.1";
  actor_role = "SPREAD";
  episode_token = "epcontext";
  decision_token = "deccontext";
  packet_token = "pkt_x";
  prior_belief_token = "belcontext";
  session_index = pos 4;
  minute_from_open = pos 30;
  premises =
      record {
        token = "ev1";
        metric = "policy_rate_bps";
        value = text_value "rate" (some (finite (pos 500)));
        unit = "basis_points";
        kind = "OBSERVATION";
        age_minutes = 0;
      }
      ∷ record {
        token = "ev3";
        metric = "policy_delta_bps";
        value = text_value "-25" (some (finite (negsuc 24)));
        unit = "basis_points";
        kind = "DERIVED";
        age_minutes = 0;
      }
      ∷ [];
  assessments = [];
  unknown_codes = [];
  action_menu =
      record {
        action_id = "act1";
        kind = "WAIT";
        target_token = none;
        limit_option_token = none;
        attributes = wait.attributes;
        required_premise_tokens = "ev3" ∷ [];
      }
      ∷ [];
}

abbrev made : Compiled
made = record {
  public_packet = packet;
  context = context;
  premise_map = ("ev1", rate 1 500) ∷ ("ev3", difference) ∷ [];
  action_map = ("act1", wait) ∷ [];
}

compiles : compiled ≡ ok made
unfolding check_atom check_within check_found provenance aware_check addressed in_vocabulary
    registration each_dependency derivation derived recomputed parents_of numbers_of number_of
    expected ◌-ℤ◌ compile observe observe_one in_scope add_once collect left_out offer_all offer
    actions sorted check_unknowns packet_of sorted_set
compiles = refl

abbrev one_text : String → Field
one_text t = single (text t)

abbrev answer : ProposalJson
answer =
    ("schema_version", one_text "2.1")
    ∷ ("actor_role", one_text "SPREAD")
    ∷ ("decision_token", one_text "deccontext")
    ∷ ("packet_token", one_text "pkt_x")
    ∷ ("prior_belief_token", one_text "belcontext")
    ∷ ("action_id", one_text "act1")
    ∷ ("premise_tokens", items (plain (text "ev3") ∷ []))
    ∷ ("assessment_updates", items [])
    ∷ ("reason_codes", items (plain (text "MAINTAIN_THESIS") ∷ []))
    ∷ ("uncertainty_codes", items (plain (text "NONE_IDENTIFIED") ∷ []))
    ∷ ("confidence_label", one_text "LOW")
    ∷ []

abbrev witnessed : Witness
witnessed = record {
  private_decision_id = one_text "deccontext";
  run_id = 1;
  branch_id = 0;
  actor_id = 7;
  as_of = 200;
  packet_hash = "x";
  prior_belief_hash = 0;
  accepted_premise_ids = 3 ∷ [];
  max_evidence_available_at = 120;
}

accepts : validate plain_secrets answer made ≡ ok witnessed
unfolding validate names_packet strings keys_of find_entry check_codes check_updates accepted_atoms
    atom_ids latest check_fields sorted_set
accepts = refl

validate-Entitled_example :
    (accepted : List Atom) × (3 ∷ [] ≡ atom_ids accepted)
    × All (Entitled three context told_both) accepted
    × (120 ≤ 200)
validate-Entitled_example =
    validate-Entitled plain_secrets three told_both context (wait ∷ []) [] [] none made answer
      witnessed compiles accepts

validate-Required_example :
    (action : String) × (selected : MenuEntry) × (names_packet answer packet ≡ true)
    × (find_text "action_id" answer ≡ some (single (text action)))
    × (find_entry action packet.action_menu ≡ some selected)
    × All
        (λ t.
          (a : Atom) × (find_text t made.premise_map ≡ some a) × (member a.atom_id (3 ∷ []) ≡ true))
        selected.required_premise_tokens
validate-Required_example = validate-Required plain_secrets answer made witnessed accepts

abbrev held : ObservationLedger ℕ
held = record {
  atoms = three;
  deliveries = told_both;
  assessments = [];
  incidents = [];
  incident_seq = [];
}

reduce_belief_prefix_example :
    reduce_belief
      (λ b. 0)
      (record held {
        deliveries = told_both ++ delivery 1 0 7 2 (aware 201) ∷ [];
        assessments = [] ++ [];
      })
      context
      []
    ≡ reduce_belief (λ b. 0) held context []
reduce_belief_prefix_example =
    reduce_belief_prefix (λ b. 0) held context [] (delivery 1 0 7 2 (aware 201) ∷ []) []
      (omega arith, tt) tt
