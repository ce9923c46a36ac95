-- ===== src/Knowledge/Packet.antt =====
-- The packet that a model sees (`Harness.compile` of epistemics/harness.py).
pub mod Entitled
use Prim.Native.String.{compare}
use Prim.Native.Nat.{Ordering}
use auto_options_call_debit.Common.{pos, ltb_ℤ, text_append}
use auto_options_call_debit.Common.Lists.{sorted}
use auto_options_call_debit.Common.{
  ℤ, ℕ, ◌-◌, ◌/◌, String, Bool, true, false, not, ◌||◌, Option, none, some, List, [], ◌∷◌, ◌++◌,
  str_eq, ltb, if◌then◌else◌, is_some,
}
use auto_options_call_debit.Common.Outcome.{
  ◌>>=◌, ◌>>◌, raise_if, or_raise, Result, harness_error, key_error, err, ok,
}
use auto_options_call_debit.Common.Dict.{Dict, lookup}
use auto_options_call_debit.Common.Lists.{member, among}
use auto_options_call_debit.Domain.Money.{finite, special}
use auto_options_call_debit.Knowledge.{
  aware_check, instant, Value, Atom, Delivery, Context, MenuChoice, text_value, not_text,
}
use auto_options_call_debit.Knowledge.Vocabulary.{registration, unknowns, actions}
use auto_options_call_debit.Knowledge.Atoms.{check_atom}
use auto_options_call_debit.Knowledge.Observations.{in_scope, AssessmentRecord}

-- What a token stands for.
pub data Subject : Type 0 where
  identifier : ℕ → Subject
  episode : Subject
  moment : ℕ → ℤ → ℤ → Subject
  belief : ℕ → Subject

pub record Premise : Type 0 where
  pub token : String
  pub metric : String
  pub value : Value
  pub unit : String
  pub kind : String
  pub age_minutes : ℕ

pub record MenuEntry : Type 0 where
  pub action_id : String
  pub kind : String
  pub target_token : Option String
  pub limit_option_token : Option String
  pub attributes : List (String × Value × String)
  pub required_premise_tokens : List String

pub record PublicAssessment : Type 0 where
  pub token : String
  pub topic : String
  pub assessment : String
  pub confidence_label : String
  pub premise_tokens : List String

pub record Public : Type 0 where
  pub schema_version : String
  pub actor_role : String
  pub episode_token : String
  pub decision_token : String
  pub packet_token : String
  pub prior_belief_token : String
  pub session_index : ℤ
  pub minute_from_open : ℤ
  pub premises : List Premise
  pub assessments : List PublicAssessment
  pub unknown_codes : List String
  pub action_menu : List MenuEntry

-- A dict whose keys are texts.
abbrev pub TextDict : Type 0 → Type 0
TextDict V = List (String × V)

module _ {V : Type 0} where
  abbrev pub find_text : String → TextDict V → Option V
  find_text key [] = none
  find_text key (entry ∷ rest) = if str_eq key entry.0 then some entry.1 else find_text key rest

  abbrev pub set_text : String → V → TextDict V → TextDict V
  set_text key value [] = (key, value) ∷ []
  set_text key value (entry ∷ rest) =
      if str_eq key entry.0 then (key, value) ∷ rest else entry ∷ set_text key value rest

pub record Compiled : Type 0 where
  pub public_packet : Public
  pub context : Context
  pub premise_map : TextDict Atom
  pub action_map : TextDict MenuChoice

-- HMAC and SHA-256: the token of a subject, by its namespace and kind, and that of a packet.
pub record Secrets : Type 0 where
  pub token : ℕ → String → Subject → String
  pub packet_digest : Public → String

unfoldable pub add_once : ℕ → List ℕ → List ℕ
add_once x xs = if member x xs then xs else xs ++ x ∷ []

-- A delivery that is in scope and not later than the context; its atom passes the checks.
unfoldable pub observe_one : Dict Atom → Context → Delivery → Option Atom → List ℕ → Result (List ℕ)
observe_one atoms ctx d none observed = err (harness_error "MISSING_OBSERVATION")
observe_one atoms ctx d (some a) observed = do
  available ← aware_check a.available_at
  raise_if (ltb (instant d.delivered_at) available) (harness_error "DELIVERY_BEFORE_AVAILABILITY")
  check_atom atoms ctx a.atom_id
  ok (add_once a.atom_id observed)

-- The loop over the deliveries: the identifiers of the observed atoms.
unfoldable pub observe : Dict Atom → Context → List Delivery → List ℕ → Result (List ℕ)
unfolding in_scope
observe atoms ctx [] observed = ok observed
observe atoms ctx (d ∷ ds) observed = aware_check d.delivered_at >>= λ at.
    if not (in_scope d.run_id d.branch_id d.actor_id ctx.run_id ctx.branch_id ctx.actor_id)
      || ltb (instant ctx.as_of) at
    then observe atoms ctx ds observed
    else (observe_one atoms ctx d (lookup d.atom_id atoms) observed >>= λ more.
        observe atoms ctx ds more)

-- `premise_ids is not None and atom_id not in premise_ids`
unfoldable pub left_out : Option (List ℕ) → ℕ → Bool
left_out none atom_id = false
left_out (some wanted) atom_id = not (member atom_id wanted)

-- The texts of a metric, and what `Decimal` reads.
attribute_value : Option (List String) → Value → Result (Unit {0})
attribute_value texts not_text = err (harness_error "INVALID_VALUE")
attribute_value (some texts) (text_value text number) =
    raise_if (not (among text texts)) (harness_error "UNAPPROVED_MENU_ATTRIBUTE")
attribute_value none (text_value text none) = err (harness_error "UNAPPROVED_MENU_ATTRIBUTE")
attribute_value none (text_value text (some special)) = err (harness_error "NONFINITE_VALUE")
attribute_value none (text_value text (some (finite v))) = ok tt

check_attributes : List (String × Value × String) → Result (Unit {0})
unfolding attribute_value
check_attributes [] = ok tt
check_attributes ((name, value, unit) ∷ rest) = do
  entry ← or_raise (registration name) (harness_error "UNAPPROVED_MENU_ATTRIBUTE")
  raise_if (not (str_eq entry.0 unit)) (harness_error "UNAPPROVED_MENU_ATTRIBUTE")
  attribute_value entry.1 value
  check_attributes rest

subset : List ℕ → List ℕ → Bool
subset [] ys = true
subset (x ∷ xs) ys = if member x ys then subset xs ys else false

is_empty : List ℕ → Bool
is_empty [] = true
is_empty (x ∷ xs) = false

unfoldable pub check_unknowns : List String → Result (Unit {0})
check_unknowns [] = ok tt
check_unknowns (code ∷ codes) =
    raise_if (not (among code unknowns)) (harness_error "UNAPPROVED_TEXT") >> check_unknowns codes

unfoldable pub text_before : String → String → Bool
text_before s t = elim (compare s t) [ Ordering.lt ↦ true | _ ↦ false ]

unfoldable pub insert_text : String → List String → List String
unfolding text_before
insert_text x [] = x ∷ []
insert_text x (y ∷ ys) =
    if str_eq x y then y ∷ ys else if text_before x y then x ∷ y ∷ ys else y ∷ insert_text x ys

-- `sorted(set(codes))`
unfoldable pub sorted_set : List String → List String
unfolding insert_text
sorted_set [] = []
sorted_set (x ∷ xs) = insert_text x (sorted_set xs)

no_entries : List MenuEntry → Bool
no_entries [] = true
no_entries (entry ∷ entries) = false

module _ (secrets : Secrets) where
  premise : Context → String → Atom → Premise
  premise ctx token a = record {
    token = token;
    metric = a.metric;
    value = a.value;
    unit = a.unit;
    kind = a.kind;
    age_minutes = (instant ctx.as_of - instant a.available_at) / 60000000;
  }

  -- The loop over the observed atoms, in their order.
  unfoldable pub collect :
      Dict Atom
      → Context
      → Option (List ℕ)
      → List ℕ
      → TextDict Atom × List Premise
      → Result (TextDict Atom × List Premise)
  unfolding premise
  collect atoms ctx wanted [] done = ok done
  collect atoms ctx wanted (x ∷ xs) (premise_map, premises) =
      or_raise (lookup x atoms) key_error >>= λ a.
      let token = secrets.token ctx.alias_namespace "ev" (identifier x) in
      collect atoms ctx wanted xs (
        set_text token a premise_map,
        (if left_out wanted x then premises else premises ++ premise ctx token a ∷ []),
      )

  optional_token : Context → String → Option ℕ → Option String
  optional_token ctx kind none = none
  optional_token ctx kind (some x) = some (secrets.token ctx.alias_namespace kind (identifier x))

  evidence_tokens : Context → List ℕ → List String
  evidence_tokens ctx [] = []
  evidence_tokens ctx (x ∷ xs) =
      secrets.token ctx.alias_namespace "ev" (identifier x) ∷ evidence_tokens ctx xs

  menu_entry : Context → String → MenuChoice → MenuEntry
  unfolding optional_token evidence_tokens
  menu_entry ctx token choice = record {
    action_id = token;
    kind = choice.kind;
    target_token = optional_token ctx "target" choice.target_internal_id;
    limit_option_token = optional_token ctx "limit" choice.limit_internal_id;
    attributes = choice.attributes;
    required_premise_tokens = evidence_tokens ctx choice.required_atoms;
  }

  -- One choice of the menu.
  unfoldable pub offer :
      Context
      → List String
      → List ℕ
      → MenuChoice
      → TextDict MenuChoice × List MenuEntry
      → Result (TextDict MenuChoice × List MenuEntry)
  unfolding menu_entry check_attributes subset is_empty
  offer ctx role_kinds observed choice (action_map, public_menu) = do
    raise_if (not (among choice.kind role_kinds)) (harness_error "ACTION_WRONG_ROLE")
    raise_if (is_empty choice.required_atoms || not (subset choice.required_atoms observed))
        (harness_error "MENU_UNKNOWN_PREMISE")
    let token = secrets.token ctx.alias_namespace "act" (identifier choice.internal_id)
    raise_if (is_some (find_text token action_map)) (harness_error "DUPLICATE_ACTION")
    check_attributes choice.attributes
    ok (set_text token choice action_map, public_menu ++ menu_entry ctx token choice ∷ [])

  unfoldable pub offer_all :
      Context
      → List String
      → List ℕ
      → List MenuChoice
      → TextDict MenuChoice × List MenuEntry
      → Result (TextDict MenuChoice × List MenuEntry)
  offer_all ctx role_kinds observed [] done = ok done
  offer_all ctx role_kinds observed (choice ∷ choices) done =
      offer ctx role_kinds observed choice done >>= λ more.
      offer_all ctx role_kinds observed choices more

  public_assessments : Context → List AssessmentRecord → List PublicAssessment
  unfolding evidence_tokens
  public_assessments ctx [] = []
  public_assessments ctx (rec ∷ recs) =
      record {
        token = secrets.token ctx.alias_namespace "as" (identifier rec.decision_token);
        topic = rec.topic;
        assessment = rec.assessment;
        confidence_label = rec.confidence_label;
        premise_tokens = evidence_tokens ctx rec.premise_atom_ids;
      }
      ∷ public_assessments ctx recs

  -- The packet, without its own token.
  unfoldable pub packet_of :
      Context → List Premise → List AssessmentRecord → List String → List MenuEntry → Public
  unfolding public_assessments
  packet_of ctx premises recs codes menu = record {
    schema_version = "2.1";
    actor_role = ctx.actor_role;
    episode_token = secrets.token ctx.alias_namespace "ep" episode;
    decision_token =
        secrets.token ctx.alias_namespace "dec"
          (moment ctx.actor_id ctx.session_index ctx.minute_from_open);
    packet_token = "";
    prior_belief_token =
        secrets.token ctx.alias_namespace "bel" (belief ctx.prior_visible_belief_hash);
    session_index = ctx.session_index;
    minute_from_open = ctx.minute_from_open;
    premises = premises;
    assessments = public_assessments ctx recs;
    unknown_codes = sorted_set codes;
    action_menu = menu;
  }

  -- `Harness.compile`
  unfoldable pub compile :
      Dict Atom
      → List Delivery
      → Context
      → List MenuChoice
      → List AssessmentRecord
      → List String
      → Option (List ℕ)
      → Result Compiled
  unfolding no_entries
  compile atoms deliveries ctx menu recs codes premise_ids = do
    as_of ← aware_check ctx.as_of
    role_kinds ← or_raise (actions ctx.actor_role) (harness_error "INVALID_ROLE")
    raise_if
        (ltb_ℤ ctx.session_index (pos 0)
          || ltb_ℤ ctx.minute_from_open (pos 0)
          || ltb_ℤ (pos 1440) ctx.minute_from_open)
        (harness_error "INVALID_RELATIVE_CLOCK")
    observed ← observe atoms ctx deliveries []
    evidence ← collect atoms ctx premise_ids (sorted (λ x y. ltb x y) observed) ([], [])
    offered ←
        offer_all ctx role_kinds observed (sorted (λ x y. ltb x.internal_id y.internal_id) menu)
          ([], [])
    raise_if (no_entries offered.1) (harness_error "EMPTY_ACTION_MENU")
    check_unknowns codes
    let packet : Public = packet_of ctx evidence.1 recs codes offered.1
    ok (record {
      public_packet = record packet {
        packet_token = text_append "pkt_" (secrets.packet_digest packet);
      };
      context = ctx;
      premise_map = evidence.0;
      action_map = offered.0;
    })
