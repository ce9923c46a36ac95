-- ===== src/Knowledge/Beliefs.antt =====
-- What an actor is entitled to believe at a decision (epistemics/reducer.py).
pub mod Prefix
use auto_options_call_debit.Common.{
  ℕ, zero, suc, ◌-◌, String, Bool, Option, none, some, List, [], ◌∷◌, ◌++◌, ltb, leb, ◌==◌,
  if◌then◌else◌,
}
use auto_options_call_debit.Common.Outcome.{◌>>=◌, Result, ok}
use auto_options_call_debit.Common.Dict.{Dict, lookup}
use auto_options_call_debit.Common.Lists.{length, keep, sorted}
use auto_options_call_debit.Knowledge.{instant, Atom, Delivery, Context}
use auto_options_call_debit.Knowledge.Atoms.{check_atom}
use auto_options_call_debit.Knowledge.Observations.{
  delivery, deliveries_of, assessments_of, AssessmentRecord, ObservationLedger,
}
use auto_options_call_debit.Knowledge.Packet.{text_before, sorted_set, belief}

-- What the hash of a belief covers.
pub record Blob : Type 0 where
  pub facts : List ℕ
  pub assessments : List (String × String × String)
  pub unknown_codes : List String

pub record BeliefState : Type 0 where
  pub actor_id : ℕ
  pub facts : List Atom
  pub assessments : List AssessmentRecord
  pub unknown_codes : List String
  pub belief_hash : ℕ

abbrev base_unknowns : List String
base_unknowns = "UNKNOWN_FUTURE_POLICY_PATH" ∷ "UNKNOWN_FUTURE_PRICE_PATH" ∷ []

abbrev pub max_carried_assessments : ℕ
max_carried_assessments = 16

-- A delivery of an atom that was available by then; the checks of the atom pass, or raise.
unfoldable pub believe_one : Dict Atom → Context → Delivery → Option Atom → Result (List Atom)
believe_one atoms ctx d none = ok []
believe_one atoms ctx d (some a) =
    if ltb (instant d.delivered_at) (instant a.available_at)
    then ok []
    else (check_atom atoms ctx a.atom_id >>= λ _. ok (a ∷ []))

-- The loop over the deliveries: only those by the instant of the context.
unfoldable pub believe : Dict Atom → Context → List Delivery → Result (List Atom)
believe atoms ctx [] = ok []
believe atoms ctx (d ∷ ds) =
    if ltb (instant ctx.as_of) (instant d.delivered_at)
    then believe atoms ctx ds
    else (believe_one atoms ctx d (lookup d.atom_id atoms) >>= λ first.
        believe atoms ctx ds >>= λ rest. ok (first ++ rest))

unfoldable pub earlier_assessment : AssessmentRecord → AssessmentRecord → Bool
earlier_assessment r s =
    if instant r.accepted_at == instant s.accepted_at
    then text_before r.topic s.topic
    else ltb (instant r.accepted_at) (instant s.accepted_at)

unfoldable pub drop {ℓ} : {A : Type ℓ} → ℕ → List A → List A
drop n [] = []
drop zero (x ∷ xs) = x ∷ xs
drop (suc n) (x ∷ xs) = drop n xs

-- `xs[-count:]`
unfoldable pub last_of {ℓ} : {A : Type ℓ} → ℕ → List A → List A
unfolding drop
last_of count xs = drop (length xs - count) xs

unfoldable pub accepted_by_now : Context → List AssessmentRecord → List AssessmentRecord
accepted_by_now ctx recs = keep (λ r. leb (instant r.accepted_at) (instant ctx.as_of)) recs

ids_of : List Atom → List ℕ
ids_of [] = []
ids_of (a ∷ others) = a.atom_id ∷ ids_of others

entries_of : List AssessmentRecord → List (String × String × String)
entries_of [] = []
entries_of (r ∷ rs) = (r.topic, r.assessment, r.confidence_label) ∷ entries_of rs

-- The belief of the facts and assessments that were found; `belief_digest` is `digest`.
unfoldable pub belief_of :
    (Blob → ℕ) → Context → List String → List Atom → List AssessmentRecord → BeliefState
unfolding ids_of entries_of earlier_assessment last_of
belief_of belief_digest ctx extra found recs =
    let facts = sorted (λ a b. ltb a.atom_id b.atom_id) found in
    let carried = last_of max_carried_assessments (sorted earlier_assessment recs) in
    let codes = sorted_set (base_unknowns ++ extra) in
    record {
      actor_id = ctx.actor_id;
      facts = facts;
      assessments = carried;
      unknown_codes = codes;
      belief_hash = belief_digest (record {
        facts = ids_of facts;
        assessments = entries_of carried;
        unknown_codes = codes;
      });
    }

-- `reduce_belief`
unfoldable pub reduce_belief :
    {Payload : Type 0}
    → (Blob → ℕ)
    → ObservationLedger Payload
    → Context
    → List String
    → Result BeliefState
reduce_belief belief_digest s ctx extra =
    believe s.atoms ctx (deliveries_of s ctx.run_id ctx.branch_id ctx.actor_id) >>= λ found. ok (
      belief_of belief_digest ctx extra found
        (accepted_by_now ctx (assessments_of s ctx.run_id ctx.branch_id ctx.actor_id)))
