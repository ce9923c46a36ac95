-- ===== src/Calendar/Lookup.antt =====
-- Sessions by their day, and the next review.
use auto_options_call_debit.Common.{◌+◌, ◌*◌, refl, ap, ◌∙◌, ltb, Bool-cases}
use auto_options_call_debit.Common.Outcome.{>>=-eq-ok}
use auto_options_call_debit.Calendar.{review_times, next_grid, Zone, next_in}
use auto_options_call_debit.Common.{
  ℕ, ◌<◌, ◌≡◌, ◌⊎◌, inl, inr, true, false, Option, none, some, List, [], ◌∷◌, arith, Option-cases,
}
use auto_options_call_debit.Common.Outcome.{Result, ok}
use auto_options_call_debit.Calendar.{
  seen, repeats, make_calendar, session, first_after, SessionDay,
}

abbrev pub Among : SessionDay → List SessionDay → Type 0
Among s [] = ⊥
Among s (x ∷ xs) = (s ≡ x) ⊎ Among s xs

seen_of : (s : SessionDay) (ss : List SessionDay) → Among s ss → seen s.day ss ≡ true
unfolding seen
seen_of s [] a = absurd a
seen_of s (x ∷ xs) (inl same) = rw same (ground arith)
seen_of s (x ∷ xs) (inr later) = ground (arith, seen_of s xs later)

found_at :
    (s : SessionDay) (ss : List SessionDay)
    → repeats ss ≡ false
    → Among s ss
    → session ss s.day ≡ some s
unfolding repeats session
found_at s [] r a = absurd a
found_at s (x ∷ xs) r (inl same) = rw same (ground arith)
found_at s (x ∷ xs) r (inr later) =
    ground (arith, seen_of s xs later, found_at s xs (ground arith) later)

no_repeats_of :
    (ss : List SessionDay) {out : List SessionDay}
    → make_calendar ss ≡ ok out
    → (out ≡ ss) × (repeats ss ≡ false)
unfolding make_calendar
no_repeats_of ss h = ground arith

-- In a calendar that its constructor returned, each session is the one found by its day.
pub session_complete :
    (ss : List SessionDay) {calendar : List SessionDay} (s : SessionDay)
    → make_calendar ss ≡ ok calendar
    → Among s ss
    → session calendar s.day ≡ some s
session_complete ss s h a = let (same, once) = no_repeats_of ss h in rw same (found_at s ss once a)

first_after_later : (t : ℕ) (reviews : List ℕ) (r : ℕ) → first_after t reviews ≡ some r → t < r
unfolding first_after
first_after_later t [] r h = ground arith
first_after_later t (x ∷ xs) r h = ground (arith, first_after_later t xs r)

same_value : (x r : ℕ) → ◌≡◌ {A = Result (Option ℕ)} (ok (some x)) (ok (some r)) → x ≡ r
same_value x r h = cc

review_of :
    (t : ℕ) (reviews : List ℕ) (rest : Result (Option ℕ)) (r : ℕ)
    → elim (first_after t reviews) [ none ↦ rest | some review ↦ ok (some review) ] ≡ ok (some r)
    → (rest ≡ ok (some r)) ⊎ (t < r)
review_of t reviews rest r h = elim (Option-cases (first_after t reviews)) [
  | inl nothing ↦ inl (rw nothing at h)
  | inr (x, found) ↦
      inr (first_after_later t reviews r (found ∙ ap some (same_value x r (rw found at h))))
]

next_in_later :
    (z : Zone) (all ss : List SessionDay) (interval t r : ℕ)
    → next_in z all ss interval t ≡ ok (some r)
    → t < r
unfolding next_in
next_in_later z all [] interval t r h = cc
next_in_later z all (s ∷ ss) interval t r h = elim (Bool-cases (ltb s.day (z.date t))) [
  | inl past ↦ next_in_later z all ss interval t r (rw past at h)
  | inr ahead ↦
      let (reviews, made, found) =
        >>=-eq-ok (review_times z all s.day interval) _ (rw ahead at h) in
      elim (review_of t reviews (next_in z all ss interval t) r found) [
        | inl rest ↦ next_in_later z all ss interval t r rest
        | inr later ↦ later
      ]
]

grid_or_day :
    (t : ℕ) (found : Option ℕ) (n : ℕ)
    → ((r : ℕ) → found ≡ some r → t < r)
    → elim found [ none ↦ ok (t + 1440 * 60000000) | some review ↦ ok review ] ≡ ok n
    → t < n
grid_or_day t none n later h = ground arith
grid_or_day t (some r) n later h = ground (arith, later r refl)

-- The next review that is asked for at a time lies after that time, also past the calendar's end.
pub next_grid_later :
    (z : Zone) (ss : List SessionDay) (interval t n : ℕ) → next_grid z ss interval t ≡ ok n → t < n
unfolding next_grid
next_grid_later z ss interval t n h =
    let (found, made, rest) = >>=-eq-ok (next_in z ss ss interval t) _ h in
    grid_or_day t found n (λ r same. next_in_later z ss ss interval t r (made ∙ ap ok same)) rest
