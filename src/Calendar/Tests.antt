-- ===== src/Calendar/Tests.antt =====
-- Two sessions, in a zone whose days start at midnight.
use auto_options_call_debit.Common.{ℕ, ◌+◌, ◌*◌, ◌/◌, ◌<◌, ◌≡◌, refl, some, List, [], ◌∷◌, arith}
use auto_options_call_debit.Common.Outcome.{ok}
use auto_options_call_debit.Calendar.{
  repeats, ascending, make_calendar, session, grid, first_after, close_utc, session_reviews,
  review_times, next_grid, SessionDay, Zone, open_utc,
}
use auto_options_call_debit.Calendar.Grid.{Elem, review_times_iff}
use auto_options_call_debit.Calendar.Lookup.{next_grid_later}

abbrev plain : Zone
plain = record {
  instant = λ day seconds. (day * 86400 + seconds) * 1000000;
  date = λ t. t / 86400000000;
}

-- From 9:30 to 13:00, and to 16:00 on the next day.
abbrev half : SessionDay
half = record { day = 3; open_local = 34200; close_local = 46800 }

abbrev full : SessionDay
full = record { day = 4; open_local = 34200; close_local = 57600 }

abbrev week : List SessionDay
week = half ∷ full ∷ []

accepted : make_calendar week ≡ ok week
unfolding make_calendar repeats ascending
accepted = refl

found_half : session week 3 ≡ some half
unfolding session
found_half = refl

-- Hourly, the grid of the half day is 10:30, 11:30 and 12:30.
hourly : review_times plain week 3 60 ≡ ok (297000000000 ∷ 300600000000 ∷ 304200000000 ∷ [])
unfolding review_times session session_reviews grid open_utc close_utc
hourly = refl

review_times_iff_example :
    (times : List ℕ) × (review_times plain week 3 60 ≡ ok times)
    × ((x : ℕ)
        → Elem x times
        → (k : ℕ) × (x ≡ open_utc plain half + (k + 1) * (60 * 60000000))
          × (x < close_utc plain half))
    × ((k : ℕ)
        → open_utc plain half + (k + 1) * (60 * 60000000) < close_utc plain half
        → Elem (open_utc plain half + (k + 1) * (60 * 60000000)) times)
review_times_iff_example = review_times_iff plain week 3 60 (omega arith) found_half

-- After 12:30 comes 10:30 of the next day.
overnight : next_grid plain week 60 304200000000 ≡ ok 383400000000
unfolding next_grid review_times session session_reviews grid open_utc close_utc first_after
overnight = refl

next_grid_later_example : 304200000000 < 383400000000
next_grid_later_example = next_grid_later plain week 60 304200000000 383400000000 overnight
