-- ===== src/Knowledge/Proposals/Ends.antt =====
-- The checks of a proposal (epistemics/harness.py) end.
use auto_options_call_debit.Common.{String, Option, none, some, List, [], ◌∷◌}
use auto_options_call_debit.Common.Outcome.{harness_error}
use auto_options_call_debit.Knowledge.{Atom}
use auto_options_call_debit.Knowledge.Packet.{TextDict, MenuEntry, Compiled, Secrets}
use auto_options_call_debit.Knowledge.Proposals.{
  ProposalJson, strings, check_codes, check_update, check_updates, accepted_atoms, check_fields,
  validate, Part, Item, Field, text, other_leaf, leaf, leaves, plain, object, single, items,
  field_text, field_items, read_update, object_of, part_text,
}
use auto_options_call_debit.Knowledge.Atoms.Terminates.{Ends, ends}

strings-Ends : (texts : Option (List String)) (allowed : List String) → Ends (strings texts allowed)
unfolding strings
strings-Ends texts allowed = search ends depth 20

check_codes-Ends : (rs us : List String) → Ends (check_codes rs us)
unfolding check_codes
check_codes-Ends rs us = search ends depth 20

field_text-Ends : (f : Option Field) (code : String) → Ends (field_text f (harness_error code))
unfolding field_text
field_text-Ends none code = search ends
field_text-Ends (some (items xs)) code = search ends
field_text-Ends (some (single other_leaf)) code = search ends
field_text-Ends (some (single (text t))) code = search ends

part_text-Ends : (f : Option Part) (code : String) → Ends (part_text f (harness_error code))
unfolding part_text
part_text-Ends none code = search ends
part_text-Ends (some (leaves xs)) code = search ends
part_text-Ends (some (leaf other_leaf)) code = search ends
part_text-Ends (some (leaf (text t))) code = search ends

object_of-Ends : (u : Item) → Ends (object_of u)
unfolding object_of
object_of-Ends (object parts) = search ends
object_of-Ends (plain l) = search ends

read_update-Ends :
    (evidence : List String) (u : Item) (seen : List String) → Ends (read_update evidence u seen)
unfolding read_update
read_update-Ends evidence u seen =
    search (ends, object_of-Ends, part_text-Ends, strings-Ends) depth 60

check_update-Ends :
    (evidence : List String) (u : Item) (done : List String × List String)
    → Ends (check_update evidence u done)
unfolding check_update
check_update-Ends evidence u (seen, premises) = search (ends, read_update-Ends) depth 20

check_updates-Ends :
    (evidence : List String) (us : List Item) (done : List String × List String)
    → Ends (check_updates evidence us done)
unfolding check_updates
check_updates-Ends evidence [] done = search ends
check_updates-Ends evidence (u ∷ us) done =
    search (ends, check_update-Ends, check_updates-Ends evidence us) depth 20

field_items-Ends : (f : Option Field) → Ends (field_items f)
unfolding field_items
field_items-Ends none = search ends
field_items-Ends (some (single l)) = search ends
field_items-Ends (some (items xs)) = search ends

accepted_atoms-Ends : (m : TextDict Atom) (ts : List String) → Ends (accepted_atoms m ts)
unfolding accepted_atoms
accepted_atoms-Ends m [] = search ends
accepted_atoms-Ends m (t ∷ ts) = search (ends, accepted_atoms-Ends m ts) depth 20

check_fields-Ends :
    (p : ProposalJson) (c : Compiled) (selected : MenuEntry) → Ends (check_fields p c selected)
unfolding check_fields
check_fields-Ends p c selected =
    search
      (ends, strings-Ends, check_codes-Ends, field_text-Ends, field_items-Ends, check_updates-Ends)
      depth 60

-- The check of a proposal ends.
pub validate-Ends :
    (secrets : Secrets) (p : ProposalJson) (c : Compiled) → Ends (validate secrets p c)
unfolding validate
validate-Ends secrets p c =
    search (ends, field_text-Ends, check_fields-Ends, accepted_atoms-Ends) depth 60
