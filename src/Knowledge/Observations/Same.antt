-- ===== src/Knowledge/Observations/Same.antt =====
-- The equality test of atoms tells them apart.
use auto_options_call_debit.Common.{
  eqb_ℤ→eq, ℕ, String, ◌≡◌, refl, sym, ap, ◌∙◌, Bool, true, false, Option, List,
}
use auto_options_call_debit.Common.Equality.{
  TellsApart, both_true, nat-TellsApart, text-TellsApart, list-TellsApart, option-TellsApart,
}
use auto_options_call_debit.Domain.Money.{Datetime, finite, special, aware, naive}
use auto_options_call_debit.Knowledge.{Value, Recipient, Atom, text_value, not_text, public, actor}
use auto_options_call_debit.Knowledge.Observations.{
  time_eq, decimal_eq, value_eq, recipient_eq, bool_eq, atom_eq,
}

time-TellsApart : TellsApart time_eq
unfolding time_eq
time-TellsApart (aware s) (aware t) h = ap aware (nat-TellsApart s t h)
time-TellsApart (naive s) (naive t) h = ap naive (nat-TellsApart s t h)
time-TellsApart (aware s) (naive t) h = cc
time-TellsApart (naive s) (aware t) h = cc

decimal-TellsApart : TellsApart decimal_eq
unfolding decimal_eq
decimal-TellsApart (finite v) (finite w) h = ap finite (eqb_ℤ→eq v w h)
decimal-TellsApart special special h = refl
decimal-TellsApart (finite v) special h = cc
decimal-TellsApart special (finite w) h = cc

value-TellsApart : TellsApart value_eq
unfolding value_eq
value-TellsApart (text_value s m) (text_value t n) h =
    let (first, second) = both_true h in
    let texts : s ≡ t = text-TellsApart s t first in
    let numbers : m ≡ n = option-TellsApart decimal_eq decimal-TellsApart m n second in cc
value-TellsApart not_text not_text h = refl
value-TellsApart (text_value s m) not_text h = cc
value-TellsApart not_text (text_value t n) h = cc

recipient-TellsApart : TellsApart recipient_eq
unfolding recipient_eq
recipient-TellsApart public public h = refl
recipient-TellsApart (actor a) (actor b) h = ap actor (nat-TellsApart a b h)
recipient-TellsApart public (actor b) h = cc
recipient-TellsApart (actor a) public h = cc

bool-TellsApart : TellsApart bool_eq
unfolding bool_eq
bool-TellsApart true true h = refl
bool-TellsApart true false h = cc
bool-TellsApart false true h = cc
bool-TellsApart false false h = refl

make :
    ℕ
    → String
    → Value
    → String
    → String
    → Datetime
    → Datetime
    → Datetime
    → Bool
    → List Recipient
    → List ℕ
    → Option String
    → Atom
make i m v u k p a s c r d t = record {
  atom_id = i;
  metric = m;
  value = v;
  unit = u;
  kind = k;
  published_at = p;
  available_at = a;
  subject_at = s;
  source_checked = c;
  recipients = r;
  dependencies = d;
  transform = t;
}

remade :
    (a : Atom)
    → make a.atom_id a.metric a.value a.unit a.kind a.published_at a.available_at a.subject_at
        a.source_checked a.recipients a.dependencies a.transform
      ≡ a
unfolding make
remade a = refl

pub atom-TellsApart : TellsApart atom_eq
unfolding atom_eq
atom-TellsApart a b h =
    let (h1, r1) = both_true h in
    let (h2, r2) = both_true r1 in
    let (h3, r3) = both_true r2 in
    let (h4, r4) = both_true r3 in
    let (h5, r5) = both_true r4 in
    let (h6, r6) = both_true r5 in
    let (h7, r7) = both_true r6 in
    let (h8, r8) = both_true r7 in
    let (h9, r9) = both_true r8 in
    let (h10, r10) = both_true r9 in
    let (h11, h12) = both_true r10 in
    let e1 : a.atom_id ≡ b.atom_id = nat-TellsApart _ _ h1 in
    let e2 : a.metric ≡ b.metric = text-TellsApart _ _ h2 in
    let e3 : a.value ≡ b.value = value-TellsApart _ _ h3 in
    let e4 : a.unit ≡ b.unit = text-TellsApart _ _ h4 in
    let e5 : a.kind ≡ b.kind = text-TellsApart _ _ h5 in
    let e6 : a.published_at ≡ b.published_at = time-TellsApart _ _ h6 in
    let e7 : a.available_at ≡ b.available_at = time-TellsApart _ _ h7 in
    let e8 : a.subject_at ≡ b.subject_at = time-TellsApart _ _ h8 in
    let e9 : a.source_checked ≡ b.source_checked = bool-TellsApart _ _ h9 in
    let e10 : a.recipients ≡ b.recipients =
      list-TellsApart recipient_eq recipient-TellsApart _ _ h10 in
    let e11 : a.dependencies ≡ b.dependencies = list-TellsApart _ nat-TellsApart _ _ h11 in
    let e12 : a.transform ≡ b.transform = option-TellsApart _ text-TellsApart _ _ h12 in
    let fields : make a.atom_id a.metric a.value a.unit a.kind a.published_at a.available_at
          a.subject_at a.source_checked a.recipients a.dependencies a.transform
        ≡ make b.atom_id b.metric b.value b.unit b.kind b.published_at b.available_at b.subject_at
            b.source_checked b.recipients b.dependencies b.transform =
      cc in
    sym (remade a) ∙ fields ∙ remade b
