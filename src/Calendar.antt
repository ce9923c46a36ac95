-- ===== src/Calendar.antt =====
-- The exchange calendar (temporal/calendar.py) and the next review (engine/scheduler.py). Local times
-- are seconds of the day, instants microseconds; the conversion by `zoneinfo` is a parameter.
pub mod Grid
pub mod Lookup
mod Tests
use auto_options_call_debit.Common.{
  ℕ, zero, suc, ◌+◌, ◌-◌, ◌*◌, ◌/◌, ◌%◌, Bool, true, false, not, ◌&&◌, ◌||◌, Option, none, some,
  List, [], ◌∷◌, ltb, leb, ◌==◌, if◌then◌else◌,
}
use auto_options_call_debit.Common.Outcome.{◌>>=◌, ◌>>◌, raise_if, Result, calendar_error, err, ok}

pub record SessionDay : Type 0 where
  pub day : ℕ
  pub open_local : ℕ
  pub close_local : ℕ

-- `SessionDay.__post_init__`
unfoldable pub make_session : SessionDay → Result SessionDay
make_session s = do
  raise_if (leb s.close_local s.open_local) (calendar_error "INVALID_SESSION_HOURS")
  raise_if (not (s.open_local % 60 == 0) || not (s.close_local % 60 == 0))
      (calendar_error "SESSION_NOT_MINUTE_ALIGNED")
  ok s

unfoldable pub seen : ℕ → List SessionDay → Bool
seen day [] = false
seen day (s ∷ ss) = (day == s.day) || seen day ss

unfoldable pub repeats : List SessionDay → Bool
unfolding seen
repeats [] = false
repeats (s ∷ ss) = seen s.day ss || repeats ss

-- `days == sorted(days)`
unfoldable pub ascending : List SessionDay → Bool
ascending [] = true
ascending (s ∷ []) = true
ascending (s ∷ next ∷ ss) = leb s.day next.day && ascending (next ∷ ss)

-- `CalendarManifest.__post_init__`
unfoldable pub make_calendar : List SessionDay → Result (List SessionDay)
make_calendar ss = do
  raise_if (repeats ss) (calendar_error "DUPLICATE_SESSION_DATE")
  raise_if (not (ascending ss)) (calendar_error "SESSIONS_NOT_SORTED")
  ok ss

-- `CalendarManifest.session`
unfoldable pub session : List SessionDay → ℕ → Option SessionDay
session [] day = none
session (s ∷ ss) day = if s.day == day then some s else session ss day

-- `CalendarManifest.session_days`
unfoldable pub session_days : ℕ → ℕ → List SessionDay → List SessionDay
session_days start end [] = []
session_days start end (s ∷ ss) =
    let rest = session_days start end ss in
    if leb start s.day && leb s.day end then s ∷ rest else rest

abbrev minute : ℕ
minute = 60000000

-- The loop of `review_times`, from `t` on.
unfoldable pub grid : ℕ → ℕ → ℕ → ℕ → List ℕ
grid zero t step close = []
grid (suc fuel) t step close =
    let rest = grid fuel (t + step) step close in if ltb t close then t ∷ rest else []

unfoldable pub first_after : ℕ → List ℕ → Option ℕ
first_after t [] = none
first_after t (review ∷ reviews) = if ltb t review then some review else first_after t reviews

-- `instant` gives the UTC time of a local time on a day, `date` the New York day of an instant.
pub record Zone : Type 0 where
  pub instant : ℕ → ℕ → ℕ
  pub date : ℕ → ℕ

module _ (z : Zone) where
  -- `open_utc` and `close_utc`
  unfoldable pub open_utc : SessionDay → ℕ
  open_utc s = z.instant s.day s.open_local

  unfoldable pub close_utc : SessionDay → ℕ
  close_utc s = z.instant s.day s.close_local

  -- The number of offsets in `minute_offsets`
  unfoldable pub minutes : SessionDay → ℕ
  minutes s = (close_utc s - open_utc s) / minute

  -- The grid of one session: there is at most one review for each microsecond.
  unfoldable pub session_reviews : SessionDay → ℕ → List ℕ
  session_reviews s interval =
      grid (close_utc s) (open_utc s + interval * minute) (interval * minute) (close_utc s)

  -- `review_times`
  unfoldable pub review_times : List SessionDay → ℕ → ℕ → Result (List ℕ)
  review_times ss day interval =
      if interval == 0
      then err (calendar_error "INVALID_REVIEW_INTERVAL")
      else ok (elim (session ss day) [ none ↦ [] | some s ↦ session_reviews s interval ])

  -- `utc_minute`
  unfoldable pub utc_minute : List SessionDay → ℕ → ℕ → Result ℕ
  utc_minute ss day offset = elim (session ss day) [
    | none ↦ err (calendar_error "NOT_A_TRADING_MINUTE")
    | some s ↦
        if ltb offset (minutes s)
        then ok (open_utc s + offset * minute)
        else err (calendar_error "NOT_A_TRADING_MINUTE")
  ]

  -- The search of `_next_grid`, over the sessions that are left; the reviews are those of the session
  -- that the calendar has for the day.
  next_in : List SessionDay → List SessionDay → ℕ → ℕ → Result (Option ℕ)
  next_in all [] interval t = ok none
  next_in all (s ∷ ss) interval t =
      let rest = next_in all ss interval t in
      if ltb s.day (z.date t)
      then rest
      else review_times all s.day interval >>= λ reviews. elim (first_after t reviews) [
        | none ↦ rest
        | some review ↦ ok (some review)
      ]

  -- `_next_grid`: after the calendar's last review, a day later
  unfoldable pub next_grid : List SessionDay → ℕ → ℕ → Result ℕ
  unfolding next_in
  next_grid ss interval t = next_in ss ss interval t >>= λ found. elim found [
    | none ↦ ok (t + 1440 * minute)
    | some review ↦ ok review
  ]
