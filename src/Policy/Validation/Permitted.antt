-- ===== src/Policy/Validation/Permitted.antt =====
-- What a manager may do: the rule check, described apart from its code.
use auto_options_call_debit.Common.{Option, none}
use auto_options_call_debit.Policy.{
  DecisionContext, wait, open_spread, hold, close_spread, unknown_kind,
}
use auto_options_call_debit.Policy.Validation.{
  manager_action, check_manager, validate_manager_proposal, fields_empty, allocate_fields,
}
use auto_options_call_debit.Common.{
  ◌≤ℤ◌, ◌+ℤ◌, ℕ, ◌≡◌, refl, ◌≢◌, ◌⊎◌, inl, inr, true, false, ◌&&◌, some, List, [], ◌∷◌, arith, ◌==◌,
  Bool-cases,
}
use auto_options_call_debit.Common.Outcome.{ok}
use auto_options_call_debit.Common.Lists.{All}
use auto_options_call_debit.Domain.State.{is_seeking, Reservation, res_seeking}
use auto_options_call_debit.Policy.{
  Counts, nonempty, ManagerView, Kind, Proposal, allocate, pause_new, resume_new, retire_slots,
  no_change,
}
use auto_options_call_debit.Policy.Validation.{
  bullish_after, bearish_after, allocation_rules, seeks, all_seek, occurs, no_repeats,
}

-- An allocation that keeps to the targets and the capacity.
abbrev pub KeepsLimits : ManagerView → Counts → Type 0
KeepsLimits view counts =
    (bullish_after view counts ≤ℤ view.bullish_target)
    × (bearish_after view counts ≤ℤ view.bearish_target)
    × (bullish_after view counts +ℤ bearish_after view counts ≤ℤ view.capacity)

abbrev Among : Reservation → List Reservation → Type 0
Among x [] = ⊥
Among x (y ∷ ys) = (x ≡ y) ⊎ Among x ys

-- One of the reservations has this id and seeks an entry.
abbrev IsSought : List Reservation → ℕ → Type 0
IsSought rs id = (r : Reservation) × Among r rs × (r.reservation_id ≡ id) × (r.status ≡ res_seeking)

abbrev Distinct : List ℕ → Type 0
Distinct [] = Unit
Distinct (id ∷ ids) = All (λ other. id ≢ other) ids × Distinct ids

abbrev pub Permitted : ManagerView → Kind → Proposal → Type 0
Permitted view allocate p =
    (view.paused ≡ false)
    × ((counts : Counts) × (p.allocation ≡ some counts) × KeepsLimits view counts)
Permitted view retire_slots p =
    All (IsSought view.reservations) p.retire_reservation_ids
    × Distinct p.retire_reservation_ids
    × (p.retire_reservation_ids ≢ [])
Permitted view pause_new p = p.retire_reservation_ids ≡ []
Permitted view resume_new p = p.retire_reservation_ids ≡ []
Permitted view no_change p = p.retire_reservation_ids ≡ []
Permitted view _ p = ⊥

later : (r : Reservation) (rs : List Reservation) (id : ℕ) → IsSought rs id → IsSought (r ∷ rs) id
later r rs id (s, among, same, seeking) = (s, inr among, same, seeking)

seeks-IsSought : (id : ℕ) (rs : List Reservation) → seeks id rs ≡ true → IsSought rs id
unfolding seeks
seeks-IsSought id [] h = ground arith
seeks-IsSought id (r ∷ rs) h = elim (Bool-cases ((r.reservation_id == id) && is_seeking r.status)) [
  | inl this ↦ (r, inl refl, ground arith, ground arith)
  | inr other ↦ later r rs id (seeks-IsSought id rs (ground arith))
]

all_seek-All :
    (rs : List Reservation) (ids : List ℕ) → all_seek rs ids ≡ true → All (IsSought rs) ids
unfolding all_seek
all_seek-All rs [] h = tt
all_seek-All rs (id ∷ ids) h =
    (seeks-IsSought id rs (ground arith), all_seek-All rs ids (ground arith))

occurs-not : (id : ℕ) (ids : List ℕ) → occurs id ids ≡ false → All (λ other. id ≢ other) ids
unfolding occurs
occurs-not id [] h = tt
occurs-not id (other ∷ others) h = (ground arith, occurs-not id others (ground arith))

no_repeats-Distinct : (ids : List ℕ) → no_repeats ids ≡ true → Distinct ids
unfolding no_repeats
no_repeats-Distinct [] h = tt
no_repeats-Distinct (id ∷ ids) h =
    (occurs-not id ids (ground arith), no_repeats-Distinct ids (ground arith))

allocation-KeepsLimits :
    (view : ManagerView) (counts : Counts) (retired : List ℕ)
    → allocation_rules view counts retired ≡ ok tt
    → (view.paused ≡ false) × KeepsLimits view counts
unfolding allocation_rules
allocation-KeepsLimits view counts retired h = ground arith

nonempty_ne : (ids : List ℕ) → nonempty ids ≡ true → ids ≢ []
unfolding nonempty
nonempty_ne [] h e = ground arith
nonempty_ne (x ∷ xs) h e = ground arith

empty_eq : (ids : List ℕ) → nonempty ids ≡ false → ids ≡ []
unfolding nonempty
empty_eq [] h = refl
empty_eq (x ∷ xs) h = ground arith

allocate_rules :
    (view : ManagerView) (a : Option Counts) (retired : List ℕ)
    → allocate_fields view a retired ≡ ok tt
    → (view.paused ≡ false) × ((counts : Counts) × (a ≡ some counts) × KeepsLimits view counts)
unfolding allocate_fields
allocate_rules view none retired h = cc
allocate_rules view (some counts) retired h =
    let (unpaused, limits) = allocation-KeepsLimits view counts retired h in
    (unpaused, (counts, refl, limits))

retire_rules :
    (view : ManagerView) (p : Proposal)
    → manager_action retire_slots view p ≡ ok tt
    → Permitted view retire_slots p
unfolding manager_action
retire_rules view p h = (
  all_seek-All view.reservations p.retire_reservation_ids (ground arith),
  no_repeats-Distinct p.retire_reservation_ids (ground arith),
  nonempty_ne p.retire_reservation_ids (ground arith),
)

idle_rules : (p : Proposal) → fields_empty p ≡ ok tt → p.retire_reservation_ids ≡ []
unfolding fields_empty
idle_rules p h = empty_eq p.retire_reservation_ids (ground arith)

kind_rules :
    (view : ManagerView) (p : Proposal) (kind : Kind)
    → manager_action kind view p ≡ ok tt
    → Permitted view kind p
unfolding manager_action
kind_rules view p allocate h = allocate_rules view p.allocation p.retire_reservation_ids h
kind_rules view p retire_slots h = retire_rules view p h
kind_rules view p pause_new h = idle_rules p h
kind_rules view p resume_new h = idle_rules p h
kind_rules view p no_change h = idle_rules p h
kind_rules view p wait h = ground arith
kind_rules view p open_spread h = ground arith
kind_rules view p hold h = ground arith
kind_rules view p close_spread h = ground arith
kind_rules view p (unknown_kind text) h = ground arith

-- What a manager may do if the rule check accepts: allocate within the capacity and both targets while
-- allocations are not paused, retire distinct reservations that seek an entry, at least one, or
-- pause, resume or change nothing, without retiring any.
pub validate_manager-Permitted :
    (ctx : DecisionContext) (view : ManagerView) (p : Proposal)
    → ctx.manager_view ≡ some view
    → validate_manager_proposal ctx p ≡ ok tt
    → Permitted view p.kind p
unfolding validate_manager_proposal check_manager
validate_manager-Permitted ctx view p seen h = kind_rules view p p.kind (ground (arith, seen))
