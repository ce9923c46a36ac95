-- ===== src/Knowledge/Packet/Entitled.antt =====
-- A compiled packet shows only what its actor is entitled to know.
use mathlib.Core.List.{Memᴰ}
use auto_options_call_debit.Common.{pos, ltb_ℤ}
use auto_options_call_debit.Knowledge.Packet.{offer_all, check_unknowns, no_entries}
use auto_options_call_debit.Common.{String, refl, ap, Bool, not, ◌||◌, arith, str_eq, if◌then◌else◌}
use auto_options_call_debit.Common.Lists.{insert_sorted, sorted}
use auto_options_call_debit.Common.Outcome.{◌>>=◌, or_raise, key_error, harness_error}
use auto_options_call_debit.Common.Equality.{not_either}
use auto_options_call_debit.Common.Dict.{lookup}
use auto_options_call_debit.Domain.Money.{Datetime, aware, naive}
use auto_options_call_debit.Knowledge.Atoms.Known.{raised_none}
use auto_options_call_debit.Knowledge.Packet.{
  TextDict, set_text, collect, Premise, Secrets, compile, Compiled, actions,
}
use auto_options_call_debit.Common.{
  ℕ, ◌≤◌, ◌≡◌, sym, inl, inr, true, Option, none, some, List, [], ◌∷◌, ltb, Bool-cases,
}
use auto_options_call_debit.Common.Outcome.{raise_if, >>=-eq-ok, ok}
use auto_options_call_debit.Common.Dict.{Dict}
use auto_options_call_debit.Common.Lists.{All, All-append, member}
use auto_options_call_debit.Knowledge.{aware_check, instant, Atom, Delivery, Context, MenuChoice}
use auto_options_call_debit.Knowledge.Atoms.{check_atom}
use auto_options_call_debit.Knowledge.Observations.{in_scope, AssessmentRecord}
use auto_options_call_debit.Knowledge.Packet.{add_once, observe_one, observe}

-- The actor was told of an atom by the instant of the context, and its check passes.
pub record Told (atoms : Dict Atom) (ctx : Context) (deliveries : List Delivery) (x : ℕ)
    : Type 0 where
  pub told : Delivery
  pub within : Memᴰ told deliveries
  pub for_actor :
      in_scope told.run_id told.branch_id told.actor_id ctx.run_id ctx.branch_id ctx.actor_id ≡ true
  pub by_now : instant told.delivered_at ≤ instant ctx.as_of
  pub passes : check_atom atoms ctx x ≡ ok tt

add_once-All : (P : ℕ → Type 0) (x : ℕ) (xs : List ℕ) → P x → All P xs → All P (add_once x xs)
unfolding add_once
add_once-All P x xs this others = elim (Bool-cases (member x xs)) [
  | inl there ↦ rw there others
  | inr new ↦ rw new (All-append P xs (x ∷ []) others (this, tt))
]

observe_one-Told :
    (atoms : Dict Atom) (ctx : Context) (deliveries : List Delivery) (d : Delivery)
    (o : Option Atom) (observed more : List ℕ)
    → Memᴰ d deliveries
    → in_scope d.run_id d.branch_id d.actor_id ctx.run_id ctx.branch_id ctx.actor_id ≡ true
    → instant d.delivered_at ≤ instant ctx.as_of
    → observe_one atoms ctx d o observed ≡ ok more
    → All (Told atoms ctx deliveries) observed
    → All (Told atoms ctx deliveries) more
unfolding observe_one
observe_one-Told atoms ctx deliveries d none observed more here scope now returned before = cc
observe_one-Told atoms ctx deliveries d (some a) observed more here scope now returned before =
    let (available, _, r1) = >>=-eq-ok (aware_check a.available_at) _ returned in
    let (_, _, r2) = >>=-eq-ok (raise_if (ltb (instant d.delivered_at) available) _) _ r1 in
    let (_, passed, r3) = >>=-eq-ok (check_atom atoms ctx a.atom_id) _ r2 in
    let told : Told atoms ctx deliveries a.atom_id = record {
      told = d;
      within = here;
      for_actor = scope;
      by_now = now;
      passes = passed;
    } in
    let same : add_once a.atom_id observed ≡ more = cc in
    rw (sym same) (add_once-All (Told atoms ctx deliveries) a.atom_id observed told before)

aware_instant : (t : Datetime) {n : ℕ} → aware_check t ≡ ok n → instant t ≡ n
unfolding aware_check
aware_instant (aware t) read = cc
aware_instant (naive t) read = cc

observe_step :
    (atoms : Dict Atom) (ctx : Context) (deliveries : List Delivery) (d : Delivery)
    (ds : List Delivery) (observed out : List ℕ) (at : ℕ)
    → ((e : Delivery) → Memᴰ e (d ∷ ds) → Memᴰ e deliveries)
    → aware_check d.delivered_at ≡ ok at
    → ((more : List ℕ)
        → observe atoms ctx ds more ≡ ok out
        → All (Told atoms ctx deliveries) more
        → All (Told atoms ctx deliveries) out)
    → (if not (in_scope d.run_id d.branch_id d.actor_id ctx.run_id ctx.branch_id ctx.actor_id)
          || ltb (instant ctx.as_of) at
        then observe atoms ctx ds observed
        else (observe_one atoms ctx d (lookup d.atom_id atoms) observed >>= λ more.
            observe atoms ctx ds more))
      ≡ ok out
    → All (Told atoms ctx deliveries) observed
    → All (Told atoms ctx deliveries) out
observe_step atoms ctx deliveries d ds observed out at part read later returned before =
    elim (Bool-cases (
      not (in_scope d.run_id d.branch_id d.actor_id ctx.run_id ctx.branch_id ctx.actor_id)
      || ltb (instant ctx.as_of) at)) [
        | inl skipped ↦ later observed (ground (arith, skipped, returned)) before
        | inr kept ↦
            let (scope, now) =
              not_either
                (not
                  (in_scope d.run_id d.branch_id d.actor_id ctx.run_id ctx.branch_id ctx.actor_id))
                (ltb (instant ctx.as_of) at) kept in
            let (more, one, rest) =
              >>=-eq-ok (observe_one atoms ctx d (lookup d.atom_id atoms) observed)
                (λ more. observe atoms ctx ds more) (ground (arith, kept, returned)) in
            later more rest (
              observe_one-Told atoms ctx deliveries d (lookup d.atom_id atoms) observed more
                (part d (Memᴰ.head refl)) (ground (arith, scope))
                (ground (arith, now, aware_instant d.delivered_at read)) one before)
      ]

observe-Told :
    (atoms : Dict Atom) (ctx : Context) (deliveries ds : List Delivery) (observed out : List ℕ)
    → ((d : Delivery) → Memᴰ d ds → Memᴰ d deliveries)
    → observe atoms ctx ds observed ≡ ok out
    → All (Told atoms ctx deliveries) observed
    → All (Told atoms ctx deliveries) out
unfolding observe
observe-Told atoms ctx deliveries [] observed out part returned before =
    let same : observed ≡ out = cc in rw (sym same) before
observe-Told atoms ctx deliveries (d ∷ ds) observed out part returned before =
    let (at, read, r1) = >>=-eq-ok (aware_check d.delivered_at) _ returned in
    observe_step atoms ctx deliveries d ds observed out at part read
      (λ more. observe-Told atoms ctx deliveries ds more out (λ e m. part e (Memᴰ.tail m))) r1
      before

module _ {A : Type 0} where
  insert_sorted-All :
      (P : A → Type 0) (before : A → A → Bool) (x : A) (xs : List A)
      → P x
      → All P xs
      → All P (insert_sorted before x xs)
  unfolding insert_sorted
  insert_sorted-All P before x [] this others = (this, tt)
  insert_sorted-All P before x (y ∷ ys) this (first, rest) = elim (Bool-cases (before y x)) [
    | inl less ↦ rw less (first, insert_sorted-All P before x ys this rest)
    | inr more ↦ rw more (this, (first, rest))
  ]

  sorted-All :
      (P : A → Type 0) (before : A → A → Bool) (xs : List A) → All P xs → All P (sorted before xs)
  unfolding sorted
  sorted-All P before [] others = tt
  sorted-All P before (x ∷ xs) (this, others) =
      insert_sorted-All P before x (sorted before xs) this (sorted-All P before xs others)

  set_text-All :
      (P : A → Type 0) (key : String) (v : A) (d : TextDict A)
      → P v
      → All (λ entry. P entry.1) d
      → All (λ entry. P entry.1) (set_text key v d)
  set_text-All P key v [] this others = (this, tt)
  set_text-All P key v (entry ∷ d) this (first, rest) = elim (Bool-cases (str_eq key entry.0)) [
    | inl same ↦ rw same (this, rest)
    | inr other ↦ rw other (first, set_text-All P key v d this rest)
  ]

-- A premise of the packet: an atom of the dictionary that the actor was told of.
abbrev pub Entitled : Dict Atom → Context → List Delivery → Atom → Type 0
Entitled atoms ctx deliveries a = (x : ℕ) × (lookup x atoms ≡ some a) × Told atoms ctx deliveries x

collect-Entitled :
    (secrets : Secrets) (atoms : Dict Atom) (ctx : Context) (deliveries : List Delivery)
    (wanted : Option (List ℕ)) (xs : List ℕ) (premise_map : TextDict Atom) (premises : List Premise)
    {out : TextDict Atom × List Premise}
    → collect secrets atoms ctx wanted xs (premise_map, premises) ≡ ok out
    → All (Told atoms ctx deliveries) xs
    → All (λ entry. Entitled atoms ctx deliveries entry.1) premise_map
    → All (λ entry. Entitled atoms ctx deliveries entry.1) out.0
unfolding collect
collect-Entitled secrets atoms ctx deliveries wanted [] premise_map premises {out} returned told
      before =
    let all : (premise_map, premises) ≡ out = cc in
    let same : premise_map ≡ out.0 = ap (λ (p : TextDict Atom × List Premise). p.0) all in
    rw (sym same) before
collect-Entitled secrets atoms ctx deliveries wanted (x ∷ xs) premise_map premises returned told
      before =
    let (a, found, rest) = >>=-eq-ok (or_raise (lookup x atoms) key_error) _ returned in
    collect-Entitled secrets atoms ctx deliveries wanted xs _ _ rest told.1 (
      set_text-All (Entitled atoms ctx deliveries) _ a premise_map
        (x, raised_none (lookup x atoms) key_error found, told.0) before)

observed-Told :
    (atoms : Dict Atom) (ctx : Context) (deliveries : List Delivery) (observed : List ℕ)
    → observe atoms ctx deliveries [] ≡ ok observed
    → All (Told atoms ctx deliveries) (sorted (λ x y. ltb x y) observed)
observed-Told atoms ctx deliveries observed returned =
    sorted-All (Told atoms ctx deliveries) (λ x y. ltb x y) observed
      (observe-Told atoms ctx deliveries deliveries [] observed (λ d m. m) returned tt)

ok_premise_map : {c d : Compiled} → ok c ≡ ok d → c.premise_map ≡ d.premise_map
ok_premise_map {c} {d} same = let equal : c ≡ d = cc in ap (λ (c : Compiled). c.premise_map) equal

-- Each premise of a compiled packet is an atom that the actor was told of by the instant of the context,
-- and whose check passes.
pub compile-Entitled :
    (secrets : Secrets) (atoms : Dict Atom) (deliveries : List Delivery) (ctx : Context)
    (menu : List MenuChoice) (recs : List AssessmentRecord) (codes : List String)
    (premise_ids : Option (List ℕ)) {c : Compiled}
    → compile secrets atoms deliveries ctx menu recs codes premise_ids ≡ ok c
    → All (λ entry. Entitled atoms ctx deliveries entry.1) c.premise_map
unfolding compile
compile-Entitled secrets atoms deliveries ctx menu recs codes premise_ids {c} returned =
    let (_, _, r1) = >>=-eq-ok (aware_check ctx.as_of) _ returned in
    let (role_kinds, _, r2) =
      >>=-eq-ok (or_raise (actions ctx.actor_role) (harness_error "INVALID_ROLE")) _ r1 in
    let (_, _, r3) =
      >>=-eq-ok
        (raise_if
          (ltb_ℤ ctx.session_index (pos 0)
            || ltb_ℤ ctx.minute_from_open (pos 0)
            || ltb_ℤ (pos 1440) ctx.minute_from_open)
          (harness_error "INVALID_RELATIVE_CLOCK"))
        _ r2 in
    let (observed, seen, r4) = >>=-eq-ok (observe atoms ctx deliveries []) _ r3 in
    let (evidence, collected, r5) =
      >>=-eq-ok (collect secrets atoms ctx premise_ids (sorted (λ x y. ltb x y) observed) ([], []))
        _ r4 in
    let (offered, _, r6) =
      >>=-eq-ok
        (offer_all secrets ctx role_kinds observed
          (sorted (λ x y. ltb x.internal_id y.internal_id) menu) ([], []))
        _ r5 in
    let (_, _, r7) =
      >>=-eq-ok (raise_if (no_entries offered.1) (harness_error "EMPTY_ACTION_MENU")) _ r6 in
    let (_, _, r8) = >>=-eq-ok (check_unknowns codes) _ r7 in
    let same : evidence.0 ≡ c.premise_map = ok_premise_map r8 in
    rw (sym same) (
      collect-Entitled secrets atoms ctx deliveries premise_ids (sorted (λ x y. ltb x y) observed)
        [] [] collected (observed-Told atoms ctx deliveries observed seen) tt)
