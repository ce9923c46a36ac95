-- ===== src/Knowledge/Proposals/Accepted.antt =====
-- What an accepted proposal rests on.

use auto_options_call_debit.Common.{true, none}
use auto_options_call_debit.Common.Outcome.{Error}
use auto_options_call_debit.Knowledge.Packet.{Public}
use auto_options_call_debit.Knowledge.Proposals.{text, other_leaf, single, items}
use auto_options_call_debit.Common.{ap, not, Option}
use auto_options_call_debit.Common.Outcome.{raise_if, harness_error}
use auto_options_call_debit.Common.Lists.{among, All-map}
use auto_options_call_debit.Knowledge.{MenuChoice}
use auto_options_call_debit.Knowledge.Packet.{sorted_set, compile, MenuEntry}
use auto_options_call_debit.Knowledge.Observations.{AssessmentRecord}
use auto_options_call_debit.Knowledge.Proposals.{
  keys_of, names_packet, find_entry, check_fields, Field, witness_of, has_keys, proposal_keys,
  field_text,
}
use auto_options_call_debit.Knowledge.Packet.Entitled.{compile-Entitled}
use auto_options_call_debit.Common.{
  ℕ, ◌≤◌, String, ◌≡◌, sym, inl, inr, some, List, [], ◌∷◌, arith, str_eq, Bool-cases,
}
use auto_options_call_debit.Common.Outcome.{or_raise, >>=-eq-ok, key_error, ok}
use auto_options_call_debit.Common.Dict.{Dict}
use auto_options_call_debit.Common.Lists.{All}
use auto_options_call_debit.Knowledge.{instant, Atom, Delivery, Context}
use auto_options_call_debit.Knowledge.Atoms.Known.{check_atom-Known, raised_none, itself}
use auto_options_call_debit.Knowledge.Packet.{TextDict, find_text, Compiled, Secrets}
use auto_options_call_debit.Knowledge.Packet.Entitled.{Entitled}
use auto_options_call_debit.Knowledge.Proposals.{
  ProposalJson, accepted_atoms, atom_ids, latest, validate, Witness,
}

find_text-All :
    {A : Type 0} (P : A → Type 0) (key : String) (d : TextDict A) {a : A}
    → find_text key d ≡ some a
    → All (λ entry. P entry.1) d
    → P a
find_text-All P key [] found each = cc
find_text-All P key (entry ∷ d) {a} found (first, rest) = elim (Bool-cases (str_eq key entry.0)) [
  | inl same ↦ let equal : entry.1 ≡ a = ground (arith, same, found) in rw (sym equal) first
  | inr other ↦ find_text-All P key d (ground (arith, other, found)) rest
]

accepted_atoms-All :
    (P : Atom → Type 0) (premise_map : TextDict Atom) (ts : List String) (out : List Atom)
    → accepted_atoms premise_map ts ≡ ok out
    → All (λ entry. P entry.1) premise_map
    → All P out
unfolding accepted_atoms
accepted_atoms-All P premise_map [] out returned each = let same : [] ≡ out = cc in rw (sym same) tt
accepted_atoms-All P premise_map (t ∷ ts) out returned each =
    let (a, found, r1) = >>=-eq-ok (or_raise (find_text t premise_map) key_error) _ returned in
    let (rest, others, r2) = >>=-eq-ok (accepted_atoms premise_map ts) _ r1 in
    let same : a ∷ rest ≡ out = cc in
    rw (sym same) (
      find_text-All P t premise_map (raised_none (find_text t premise_map) key_error found) each,
      accepted_atoms-All P premise_map ts rest others each,
    )

latest_le :
    (n : ℕ) (found : List Atom) → All (λ a. instant a.available_at ≤ n) found → latest found ≤ n
unfolding latest
latest_le n [] each = omega arith
latest_le n (a ∷ others) (first, rest) = ground (arith, first, latest_le n others rest)

Entitled-by_now :
    (atoms : Dict Atom) (ctx : Context) (deliveries : List Delivery) (a : Atom)
    → Entitled atoms ctx deliveries a
    → instant a.available_at ≤ instant ctx.as_of
Entitled-by_now atoms ctx deliveries a (x, found, told) =
    let (_, b, _, found_b, known, _) = check_atom-Known atoms ctx x x told.passes (itself x) in
    let same : b ≡ a = cc in rw (sym same) known.1

-- The steps of a validation that returns.
abbrev pub Steps : Secrets → ProposalJson → Compiled → Witness → Type 0
Steps secrets p c w =
    (action : String) × (selected : MenuEntry) × (premises : List String) × (accepted : List Atom)
    × (names_packet p c.public_packet ≡ true)
    × (find_text "action_id" p ≡ some (single (text action)))
    × (find_entry action c.public_packet.action_menu ≡ some selected)
    × (check_fields p c selected ≡ ok premises)
    × (accepted_atoms c.premise_map (sorted_set premises) ≡ ok accepted)
    × (w.accepted_premise_ids ≡ atom_ids accepted)
    × (w.max_evidence_available_at ≡ latest accepted)
    × (w.as_of ≡ instant c.context.as_of)

witness_fields :
    (secrets : Secrets) (p : ProposalJson) (c : Compiled) (decision : Field) (accepted : List Atom)
    (w : Witness)
    → ok (witness_of secrets p c decision accepted) ≡ ok w
    → (w.accepted_premise_ids ≡ atom_ids accepted)
      × (w.max_evidence_available_at ≡ latest accepted)
      × (w.as_of ≡ instant c.context.as_of)
unfolding witness_of
witness_fields secrets p c decision accepted w same =
    let equal : w ≡ witness_of secrets p c decision accepted = cc in
    (
      ap (λ (v : Witness). v.accepted_premise_ids) equal,
      ap (λ (v : Witness). v.max_evidence_available_at) equal,
      ap (λ (v : Witness). v.as_of) equal,
    )

passed_names :
    (p : ProposalJson) (packet : Public)
    → raise_if (not (names_packet p packet)) (harness_error "STALE_OR_WRONG_CONTEXT") ≡ ok tt
    → names_packet p packet ≡ true
passed_names p packet passed = ground (arith, passed)

field_is_text :
    (f : Option Field) (e : Error) (t : String) → field_text f e ≡ ok t → f ≡ some (single (text t))
unfolding field_text
field_is_text none e t read = cc
field_is_text (some (items xs)) e t read = cc
field_is_text (some (single other_leaf)) e t read = cc
field_is_text (some (single (text s))) e t read = cc

pub validate-Steps :
    (secrets : Secrets) (p : ProposalJson) (c : Compiled) (w : Witness)
    → validate secrets p c ≡ ok w
    → Steps secrets p c w
unfolding validate
validate-Steps secrets p c w returned =
    let (_, _, r1) =
      >>=-eq-ok (raise_if (not (has_keys p proposal_keys)) (harness_error "OUTPUT_KEYS")) _
        returned in
    let (_, stale, r2) =
      >>=-eq-ok
        (raise_if (not (names_packet p c.public_packet)) (harness_error "STALE_OR_WRONG_CONTEXT")) _
        r1 in
    let (action, named_action, r3) =
      >>=-eq-ok (field_text (find_text "action_id" p) (harness_error "UNKNOWN_ACTION")) _ r2 in
    let (_, _, r4) =
      >>=-eq-ok
        (raise_if (not (among action (keys_of c.action_map))) (harness_error "UNKNOWN_ACTION")) _
        r3 in
    let (selected, listed, r5) =
      >>=-eq-ok (or_raise (find_entry action c.public_packet.action_menu) key_error) _ r4 in
    let (premises, fields, r6) = >>=-eq-ok (check_fields p c selected) _ r5 in
    let (accepted, named, r7) =
      >>=-eq-ok (accepted_atoms c.premise_map (sorted_set premises)) _ r6 in
    let (decision, _, r8) = >>=-eq-ok (or_raise (find_text "decision_token" p) key_error) _ r7 in
    let (ids, most, now) = witness_fields secrets p c decision accepted w r8 in
    (
      action,
      selected,
      premises,
      accepted,
      passed_names p c.public_packet stale,
      field_is_text (find_text "action_id" p) _ action named_action,
      raised_none (find_entry action c.public_packet.action_menu) key_error listed,
      fields,
      named,
      ids,
      most,
      now,
    )

-- A proposal that is accepted against a compiled packet rests on premises that its actor is entitled
-- to: the witness names atoms that the actor was told of and whose checks pass, and its latest evidence
-- was available at the instant of the decision.
pub validate-Entitled :
    (secrets : Secrets) (atoms : Dict Atom) (deliveries : List Delivery) (ctx : Context)
    (menu : List MenuChoice) (recs : List AssessmentRecord) (codes : List String)
    (premise_ids : Option (List ℕ)) (c : Compiled) (p : ProposalJson) (w : Witness)
    → compile secrets atoms deliveries ctx menu recs codes premise_ids ≡ ok c
    → validate secrets p c ≡ ok w
    → (accepted : List Atom) × (w.accepted_premise_ids ≡ atom_ids accepted)
      × All (Entitled atoms ctx deliveries) accepted
      × (w.max_evidence_available_at ≤ instant ctx.as_of)
validate-Entitled secrets atoms deliveries ctx menu recs codes premise_ids c p w made returned =
    let (_, _, premises, accepted, _, _, _, _, named, ids, most, _) =
      validate-Steps secrets p c w returned in
    let entitled : All (Entitled atoms ctx deliveries) accepted =
      accepted_atoms-All (Entitled atoms ctx deliveries) c.premise_map (sorted_set premises)
        accepted named
        (compile-Entitled secrets atoms deliveries ctx menu recs codes premise_ids made) in
    (
      accepted,
      ids,
      entitled,
      rw most (
          latest_le (instant ctx.as_of) accepted (
            All-map (Entitled atoms ctx deliveries)
              (λ a. instant a.available_at ≤ instant ctx.as_of) accepted
              (λ a e. Entitled-by_now atoms ctx deliveries a e) entitled)),
    )
