-- ===== src/Knowledge/Proposals.antt =====
-- The check of a proposal against the packet it answers (`Harness.validate` of epistemics/harness.py).
pub mod Ends
pub mod Accepted
pub mod Required
use auto_options_call_debit.Common.{◌==◌}
use auto_options_call_debit.Common.{
  ℕ, String, Bool, true, false, not, ◌&&◌, ◌||◌, Option, none, some, List, [], ◌∷◌, ◌++◌, str_eq,
  ltb, if◌then◌else◌,
}
use auto_options_call_debit.Common.Outcome.{
  ◌>>=◌, ◌>>◌, raise_if, or_raise, Error, Result, harness_error, key_error, err, ok,
}
use auto_options_call_debit.Common.Dict.{values}
use auto_options_call_debit.Common.Lists.{among}
use auto_options_call_debit.Knowledge.{instant, Atom}
use auto_options_call_debit.Knowledge.Vocabulary.{confidence, reasons, unknowns, topic_values}
use auto_options_call_debit.Knowledge.Packet.{
  TextDict, find_text, sorted_set, MenuEntry, Public, Compiled, Secrets,
}

-- What a JSON value is at the depth at which the code looks at it: an element of a list, a field of an
-- assessment update, and a field of the proposal.
pub data Leaf : Type 0 where
  text : String → Leaf
  other_leaf : Leaf

pub data Part : Type 0 where
  leaf : Leaf → Part
  leaves : List Leaf → Part

pub data Item : Type 0 where
  plain : Leaf → Item
  object : TextDict Part → Item

pub data Field : Type 0 where
  single : Leaf → Field
  items : List Item → Field

abbrev pub ProposalJson : Type 0
ProposalJson = TextDict Field

-- The private witness of an accepted proposal, without its constant fields and the hash of the proposal.
pub record Witness : Type 0 where
  pub private_decision_id : Field
  pub run_id : ℕ
  pub branch_id : ℕ
  pub actor_id : ℕ
  pub as_of : ℕ
  pub packet_hash : String
  pub prior_belief_hash : ℕ
  pub accepted_premise_ids : List ℕ
  pub max_evidence_available_at : ℕ

all_among : List String → List String → Bool
all_among [] allowed = true
all_among (x ∷ xs) allowed = if among x allowed then all_among xs allowed else false

text_repeats : List String → Bool
text_repeats [] = false
text_repeats (x ∷ xs) = if among x xs then true else text_repeats xs

unfoldable pub keys_of {ℓ} : {V : Type ℓ} → List (String × V) → List String
keys_of [] = []
keys_of (entry ∷ rest) = entry.0 ∷ keys_of rest

-- `set(value) == keys`
has_keys : {V : Type 0} → TextDict V → List String → Bool
unfolding all_among keys_of
has_keys value keys = all_among (keys_of value) keys && all_among keys (keys_of value)

abbrev proposal_keys : List String
proposal_keys =
    "schema_version" ∷ "actor_role" ∷ "decision_token" ∷ "packet_token" ∷ "prior_belief_token"
    ∷ "action_id" ∷ "premise_tokens" ∷ "assessment_updates" ∷ "reason_codes" ∷ "uncertainty_codes"
    ∷ "confidence_label" ∷ []

-- `proposal[k] == value`, for a text
is_text : Option Field → String → Bool
is_text (some (single (text t))) value = str_eq t value
is_text _ value = false

-- The five fields that name the packet.
unfoldable pub names_packet : ProposalJson → Public → Bool
unfolding is_text
names_packet p packet =
    is_text (find_text "schema_version" p) packet.schema_version
    && (is_text (find_text "actor_role" p) packet.actor_role
        && (is_text (find_text "decision_token" p) packet.decision_token
            && (is_text (find_text "packet_token" p) packet.packet_token
                && is_text (find_text "prior_belief_token" p) packet.prior_belief_token)))

leaf_texts : List Leaf → Option (List String)
leaf_texts [] = some []
leaf_texts (text t ∷ rest) = elim (leaf_texts rest) [ none ↦ none | some ts ↦ some (t ∷ ts) ]
leaf_texts (other_leaf ∷ rest) = none

item_texts : List Item → Option (List String)
item_texts [] = some []
item_texts (plain (text t) ∷ rest) = elim (item_texts rest) [
  | none ↦ none
  | some ts ↦ some (t ∷ ts)
]
item_texts (_ ∷ rest) = none

-- The texts of a list, of a field and of a part
field_texts : Option Field → Option (List String)
unfolding item_texts
field_texts (some (items xs)) = item_texts xs
field_texts _ = none

part_texts : Option Part → Option (List String)
unfolding leaf_texts
part_texts (some (leaves xs)) = leaf_texts xs
part_texts _ = none

-- `strings(v, allowed)`: the texts of a list, none of them repeated, all of them allowed
unfoldable pub strings : Option (List String) → List String → Result (List String)
unfolding text_repeats all_among
strings texts allowed = do
  ts ← or_raise texts (harness_error "INVALID_ARRAY")
  raise_if (text_repeats ts || not (all_among ts allowed))
      (harness_error "UNKNOWN_OR_DUPLICATE_TOKEN")
  ok ts

is_nil {ℓ} : {A : Type ℓ} → List A → Bool
is_nil [] = true
is_nil (x ∷ xs) = false

field_text : Option Field → Error → Result String
field_text (some (single (text t))) e = ok t
field_text _ e = err e

part_text : Option Part → Error → Result String
part_text (some (leaf (text t))) e = ok t
part_text _ e = err e

-- The entry of the menu under an action's token
unfoldable pub find_entry : String → List MenuEntry → Option MenuEntry
find_entry action [] = none
find_entry action (entry ∷ entries) =
    if str_eq entry.action_id action then some entry else find_entry action entries

more_than_one : List String → Bool
more_than_one (x ∷ y ∷ rest) = true
more_than_one _ = false

-- The reason codes and the uncertainty codes
unfoldable pub check_codes : List String → List String → Result (Unit {0})
unfolding is_nil more_than_one
check_codes reason_codes uncertainty_codes =
    raise_if
      (is_nil reason_codes
        || is_nil uncertainty_codes
        || (among "NONE_IDENTIFIED" uncertainty_codes && more_than_one uncertainty_codes))
      (harness_error "INVALID_CODES")

unfoldable pub unite : List String → List String → List String
unite premises [] = premises
unite premises (t ∷ ts) =
    if among t premises then unite premises ts else unite (premises ++ t ∷ []) ts

object_of : Item → Result (TextDict Part)
object_of (object parts) = ok parts
object_of (plain l) = err (harness_error "ASSESSMENT_KEYS")

-- The checks of one assessment update, given the topics before it: its topic and its premises.
read_update : List String → Item → List String → Result (String × List String)
unfolding object_of has_keys part_text part_texts is_nil
read_update evidence update seen = do
  parts ← object_of update
  raise_if
      (not (has_keys parts ("topic" ∷ "assessment" ∷ "premise_tokens" ∷ "confidence_label" ∷ [])))
      (harness_error "ASSESSMENT_KEYS")
  topic ← part_text (find_text "topic" parts) (harness_error "INVALID_ASSESSMENT_TOPIC")
  values ← or_raise (topic_values topic) (harness_error "INVALID_ASSESSMENT_TOPIC")
  raise_if (among topic seen) (harness_error "INVALID_ASSESSMENT_TOPIC")
  assessment ← part_text (find_text "assessment" parts) (harness_error "INVALID_ASSESSMENT_VALUE")
  label ← part_text (find_text "confidence_label" parts) (harness_error "INVALID_ASSESSMENT_VALUE")
  raise_if (not (among assessment values) || not (among label confidence))
      (harness_error "INVALID_ASSESSMENT_VALUE")
  refs ← strings (part_texts (find_text "premise_tokens" parts)) evidence
  raise_if (is_nil refs) (harness_error "UNSUPPORTED_ASSESSMENT")
  ok (topic, refs)

-- One turn of the loop: the topics seen and the premises so far.
unfoldable pub check_update :
    List String → Item → List String × List String → Result (List String × List String)
unfolding read_update
check_update evidence update (seen, premises) =
    read_update evidence update seen >>= λ found. ok (found.0 ∷ seen, unite premises found.1)

unfoldable pub check_updates :
    List String → List Item → List String × List String → Result (List String × List String)
check_updates evidence [] done = ok done
check_updates evidence (update ∷ updates) done =
    check_update evidence update done >>= λ more. check_updates evidence updates more

field_items : Option Field → Result (List Item)
field_items (some (items xs)) = ok xs
field_items _ = err (harness_error "INVALID_ASSESSMENTS")

-- `premise_map[p]` for each accepted premise
unfoldable pub accepted_atoms : TextDict Atom → List String → Result (List Atom)
accepted_atoms premise_map [] = ok []
accepted_atoms premise_map (t ∷ ts) = do
  a ← or_raise (find_text t premise_map) key_error
  rest ← accepted_atoms premise_map ts
  ok (a ∷ rest)

unfoldable pub atom_ids : List Atom → List ℕ
atom_ids [] = []
atom_ids (a ∷ others) = a.atom_id ∷ atom_ids others

-- `max(...)`, over premises of which there is at least one
unfoldable pub latest : List Atom → ℕ
latest [] = 0
latest (a ∷ others) =
    let rest = latest others in
    if ltb rest (instant a.available_at) then instant a.available_at else rest

-- The premises that the proposal names and the action requires, and all the further checks
unfoldable pub check_fields : ProposalJson → Compiled → MenuEntry → Result (List String)
unfolding field_texts all_among field_text is_nil field_items
check_fields p c selected = do
  premises ← strings (field_texts (find_text "premise_tokens" p)) (keys_of c.premise_map)
  raise_if (not (all_among selected.required_premise_tokens premises))
      (harness_error "REQUIRED_PREMISE_MISSING")
  reason_codes ← strings (field_texts (find_text "reason_codes" p)) reasons
  uncertainty_codes ← strings (field_texts (find_text "uncertainty_codes" p)) unknowns
  check_codes reason_codes uncertainty_codes
  label ← field_text (find_text "confidence_label" p) (harness_error "INVALID_CONFIDENCE")
  raise_if (not (among label confidence)) (harness_error "INVALID_CONFIDENCE")
  updates ← field_items (find_text "assessment_updates" p)
  checked ← check_updates (keys_of c.premise_map) updates ([], premises)
  ok checked.1

module _ (secrets : Secrets) where
  witness_of : ProposalJson → Compiled → Field → List Atom → Witness
  witness_of p c decision accepted = record {
    private_decision_id = decision;
    run_id = c.context.run_id;
    branch_id = c.context.branch_id;
    actor_id = c.context.actor_id;
    as_of = instant c.context.as_of;
    packet_hash = secrets.packet_digest c.public_packet;
    prior_belief_hash = c.context.prior_visible_belief_hash;
    accepted_premise_ids = atom_ids accepted;
    max_evidence_available_at = latest accepted;
  }

  -- `Harness.validate`
  unfoldable pub validate : ProposalJson → Compiled → Result Witness
  unfolding has_keys field_text witness_of
  validate p c = do
    raise_if (not (has_keys p proposal_keys)) (harness_error "OUTPUT_KEYS")
    raise_if (not (names_packet p c.public_packet)) (harness_error "STALE_OR_WRONG_CONTEXT")
    action ← field_text (find_text "action_id" p) (harness_error "UNKNOWN_ACTION")
    raise_if (not (among action (keys_of c.action_map))) (harness_error "UNKNOWN_ACTION")
    selected ← or_raise (find_entry action c.public_packet.action_menu) key_error
    premises ← check_fields p c selected
    accepted ← accepted_atoms c.premise_map (sorted_set premises)
    decision ← or_raise (find_text "decision_token" p) key_error
    ok (witness_of p c decision accepted)
