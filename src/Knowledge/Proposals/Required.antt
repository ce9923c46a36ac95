-- ===== src/Knowledge/Proposals/Required.antt =====
-- The premises that the chosen action requires.
use auto_options_call_debit.Common.{sym, ap, ◌∙◌, not, some}
use auto_options_call_debit.Common.Outcome.{raise_if, or_raise, >>=-eq-ok, harness_error, key_error}
use auto_options_call_debit.Common.Lists.{member, All-map}
use auto_options_call_debit.Common.Equality.{text-TellsApart}
use auto_options_call_debit.Knowledge.{Atom}
use auto_options_call_debit.Knowledge.Vocabulary.{confidence, reasons, unknowns}
use auto_options_call_debit.Knowledge.Atoms.Known.{raised_none}
use auto_options_call_debit.Knowledge.Packet.{TextDict, find_text, text_before, MenuEntry, Compiled}
use auto_options_call_debit.Knowledge.Proposals.{
  ProposalJson, keys_of, names_packet, strings, find_entry, check_codes, check_updates,
  accepted_atoms, atom_ids, check_fields, validate, Witness, text, single, field_texts, read_update,
  field_text, field_items,
}
use auto_options_call_debit.Knowledge.Proposals.Accepted.{validate-Steps}
use auto_options_call_debit.Common.{
  String, ◌≡◌, refl, inl, inr, true, List, [], ◌∷◌, ◌++◌, arith, str_eq, if◌then◌else◌, Bool-cases,
}
use auto_options_call_debit.Common.Outcome.{ok}
use auto_options_call_debit.Common.Lists.{All, among}
use auto_options_call_debit.Knowledge.Packet.{Secrets, sorted_set, insert_text}
use auto_options_call_debit.Knowledge.Proposals.{unite, check_update, Item, all_among}

all_among-All :
    (ts allowed : List String) → all_among ts allowed ≡ true → All (λ t. among t allowed ≡ true) ts
unfolding all_among
all_among-All [] allowed each = tt
all_among-All (t ∷ ts) allowed each = elim (Bool-cases (among t allowed)) [
  | inl here ↦ (here, all_among-All ts allowed (ground (arith, here, each)))
  | inr missing ↦ ground (arith, missing, each)
]

among-append : (t x : String) (ts : List String) → among t ts ≡ true → among t (ts ++ x ∷ []) ≡ true
among-append t x [] here = cc
among-append t x (y ∷ ts) here = elim (Bool-cases (str_eq t y)) [
  | inl same ↦ rw same refl
  | inr other ↦ rw other (among-append t x ts (ground (arith, other, here)))
]

among-unite :
    (t : String) (premises refs : List String)
    → among t premises ≡ true
    → among t (unite premises refs) ≡ true
unfolding unite
among-unite t premises [] here = here
among-unite t premises (r ∷ refs) here = elim (Bool-cases (among r premises)) [
  | inl known ↦ rw known (among-unite t premises refs here)
  | inr new ↦ rw new (among-unite t (premises ++ r ∷ []) refs (among-append t r premises here))
]

among-insert_text :
    (t x : String) (ts : List String)
    → (if str_eq t x then true else among t ts) ≡ true
    → among t (insert_text x ts) ≡ true
unfolding insert_text
among-insert_text t x [] here = here
among-insert_text t x (y ∷ ts) here = elim (Bool-cases (str_eq x y)) [
  | inl same ↦ rw same (
      let equal : x ≡ y = text-TellsApart x y same in
      ground (arith, here, ap (λ (s : String). str_eq t s) equal))
  | inr other ↦ elim (Bool-cases (text_before x y)) [
    | inl less ↦ rw (other, less) here
    | inr more ↦
        rw (other, more)
          (elim (Bool-cases (str_eq t y)) [
            | inl is_y ↦ rw is_y refl
            | inr not_y ↦ rw not_y (among-insert_text t x ts (ground (arith, not_y, here)))
          ])
  ]
]

among-sorted_set :
    (t : String) (ts : List String) → among t ts ≡ true → among t (sorted_set ts) ≡ true
unfolding sorted_set
among-sorted_set t [] here = cc
among-sorted_set t (x ∷ ts) here = elim (Bool-cases (str_eq t x)) [
  | inl same ↦ among-insert_text t x (sorted_set ts) (ground (arith, same))
  | inr other ↦
      among-insert_text t x (sorted_set ts)
        (ground (arith, other, among-sorted_set t ts (ground (arith, other, here))))
]

updated :
    (t : String) (evidence : List String) (update : Item) (seen premises : List String)
    (out : List String × List String)
    → check_update evidence update (seen, premises) ≡ ok out
    → among t premises ≡ true
    → among t out.1 ≡ true
unfolding check_update
updated t evidence update seen premises out returned here =
    let (found, _, last) = >>=-eq-ok (read_update evidence update seen) _ returned in
    let same : (found.0 ∷ seen, unite premises found.1) ≡ out = cc in
    ap (λ (p : List String × List String). among t p.1) (sym same)
    ∙ among-unite t premises found.1 here

all_updated :
    (t : String) (evidence : List String) (updates : List Item)
    (done out : List String × List String)
    → check_updates evidence updates done ≡ ok out
    → among t done.1 ≡ true
    → among t out.1 ≡ true
unfolding check_updates
all_updated t evidence [] done out returned here =
    let same : done ≡ out = cc in
    ap (λ (p : List String × List String). among t p.1) (sym same) ∙ here
all_updated t evidence (update ∷ updates) done out returned here =
    let (more, first, rest) = >>=-eq-ok (check_update evidence update done) _ returned in
    all_updated t evidence updates more out rest
      (updated t evidence update done.0 done.1 more first here)

required_passed :
    (selected : MenuEntry) (own : List String)
    → raise_if
        (not (all_among selected.required_premise_tokens own))
        (harness_error "REQUIRED_PREMISE_MISSING")
      ≡ ok tt
    → all_among selected.required_premise_tokens own ≡ true
required_passed selected own passed = ground (arith, passed)

-- The premises that an action requires are among those that the checks return.
fields_Required :
    (p : ProposalJson) (c : Compiled) (selected : MenuEntry) (premises : List String)
    → check_fields p c selected ≡ ok premises
    → All (λ t. among t premises ≡ true) selected.required_premise_tokens
unfolding check_fields
fields_Required p c selected premises returned =
    let (own, _, r1) =
      >>=-eq-ok (strings (field_texts (find_text "premise_tokens" p)) (keys_of c.premise_map)) _
        returned in
    let (_, required, r2) =
      >>=-eq-ok
        (raise_if (not (all_among selected.required_premise_tokens own))
          (harness_error "REQUIRED_PREMISE_MISSING"))
        _ r1 in
    let (reason_codes, _, r3) =
      >>=-eq-ok (strings (field_texts (find_text "reason_codes" p)) reasons) _ r2 in
    let (uncertainty_codes, _, r4) =
      >>=-eq-ok (strings (field_texts (find_text "uncertainty_codes" p)) unknowns) _ r3 in
    let (_, _, r5) = >>=-eq-ok (check_codes reason_codes uncertainty_codes) _ r4 in
    let (label, _, r6) =
      >>=-eq-ok (field_text (find_text "confidence_label" p) (harness_error "INVALID_CONFIDENCE")) _
        r5 in
    let (_, _, r7) =
      >>=-eq-ok (raise_if (not (among label confidence)) (harness_error "INVALID_CONFIDENCE")) _
        r6 in
    let (updates, _, r8) = >>=-eq-ok (field_items (find_text "assessment_updates" p)) _ r7 in
    let (checked, steps, r9) =
      >>=-eq-ok (check_updates (keys_of c.premise_map) updates ([], own)) _ r8 in
    let same : checked.1 ≡ premises = cc in
    All-map (λ t. among t own ≡ true) (λ t. among t premises ≡ true)
      selected.required_premise_tokens
      (λ t here.
        ap (λ ts. among t ts) (sym same)
        ∙ all_updated t (keys_of c.premise_map) updates ([], own) checked steps here)
      (all_among-All selected.required_premise_tokens own (required_passed selected own required))

-- A premise that is looked up for its token is among the accepted ones.
accepted_atoms-member :
    (premise_map : TextDict Atom) (ts : List String) (accepted : List Atom) (t : String)
    → accepted_atoms premise_map ts ≡ ok accepted
    → among t ts ≡ true
    → (a : Atom) × (find_text t premise_map ≡ some a)
      × (member a.atom_id (atom_ids accepted) ≡ true)
unfolding accepted_atoms atom_ids
accepted_atoms-member premise_map [] accepted t returned here = cc
accepted_atoms-member premise_map (u ∷ ts) accepted t returned here =
    let (a, found, r1) = >>=-eq-ok (or_raise (find_text u premise_map) key_error) _ returned in
    let (rest, others, r2) = >>=-eq-ok (accepted_atoms premise_map ts) _ r1 in
    let same : a ∷ rest ≡ accepted = cc in
    rw (sym same) (elim (Bool-cases (str_eq t u)) [
      | inl is_u ↦ (
        a,
        ap (λ s. find_text s premise_map) (text-TellsApart t u is_u)
            ∙ raised_none (find_text u premise_map) key_error found,
        ground arith,
      )
      | inr other ↦
          let (b, found_b, in_rest) =
            accepted_atoms-member premise_map ts rest t others (ground (arith, other, here)) in
          (b, found_b, ground (arith, in_rest))
    ])

-- An accepted proposal answers the packet that it was made for and chooses an action of its menu, and
-- each premise that the action requires is among the accepted ones.
pub validate-Required :
    (secrets : Secrets) (p : ProposalJson) (c : Compiled) (w : Witness)
    → validate secrets p c ≡ ok w
    → (action : String) × (selected : MenuEntry) × (names_packet p c.public_packet ≡ true)
      × (find_text "action_id" p ≡ some (single (text action)))
      × (find_entry action c.public_packet.action_menu ≡ some selected)
      × All
          (λ t.
            (a : Atom) × (find_text t c.premise_map ≡ some a)
            × (member a.atom_id w.accepted_premise_ids ≡ true))
          selected.required_premise_tokens
validate-Required secrets p c w returned =
    let (action, selected, premises, accepted, names, chosen, listed, fields, named, ids, _, _) =
      validate-Steps secrets p c w returned in
    (
      action,
      selected,
      names,
      chosen,
      listed,
      All-map (λ t. among t premises ≡ true) _ selected.required_premise_tokens
          (λ t here. rw ids (
            accepted_atoms-member c.premise_map (sorted_set premises) accepted t named
              (among-sorted_set t premises here)))
          (fields_Required p c selected premises fields),
    )
