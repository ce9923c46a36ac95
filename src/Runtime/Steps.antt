-- ===== src/Runtime/Steps.antt =====
-- The stores that the operations lead to, and what each operation does to caps and attempts.
use auto_options_call_debit.Runtime.Barriers.{with_events, append_events, committed_before}
use auto_options_call_debit.Common.{[], ◌∷◌}
use auto_options_call_debit.Common.Dict.{Dict}
use auto_options_call_debit.Store.{append_batch}
use auto_options_call_debit.Runtime.Barriers.{new_run, commit_new}
use auto_options_call_debit.Knowledge.Observations.{ObservationLedger}
use auto_options_call_debit.Runtime.{put_run, put_decision, put_barrier, journaled, BarrierRow}
use auto_options_call_debit.Common.{if◌then◌else◌}
use auto_options_call_debit.Common.Outcome.{◌>>=◌, Result, err}
use auto_options_call_debit.Runtime.{barrier_key}
use auto_options_call_debit.Common.{
  ℕ, String, ◌≡◌, refl, sym, ap, ◌∙◌, inl, inr, Bool, true, false, Option, none, some, List, arith,
  str_eq, ◌==◌, Bool-cases, Option-cases,
}
use auto_options_call_debit.Common.Outcome.{ok}
use auto_options_call_debit.Domain.Money.{Decimal}
use auto_options_call_debit.Store.{Linked, Hashing}
use auto_options_call_debit.Knowledge.Observations.{AssessmentRecord}
use auto_options_call_debit.Runtime.{
  find_row, put_row, run_key, require_run, Pause, RunRow, DecisionRow, AttemptRow, Tables, Json,
  decision_key,
}
use auto_options_call_debit.Runtime.Attempts.{
  reconcile_attempt, prepare_decision, start_attempt, complete_attempt, accept_decision,
}
use auto_options_call_debit.Runtime.Barriers.{
  begin_run, persist_cursor, append_run_batch, prepare_barrier, commit_barrier, Observed, Barriers,
}
use auto_options_call_debit.Runtime.Rows.{find_row-true, find_run-put}

-- One operation that returns.
pub data Step {P J : Type 0} (hashing : Hashing P) (json : Json J) (barriers : Barriers P J)
    : Tables P J → Tables P J → Type 0 where
  begun :
      (s t : Tables P J) (run : ℕ) (manifest : J) (row : RunRow J)
      → begin_run hashing json barriers run manifest s ≡ ok (row, t)
      → Step hashing json barriers s t
  cursor_kept :
      (s t : Tables P J) (run : ℕ) (cursor : J) (status : String) (pause : Option Pause)
      → persist_cursor hashing json barriers run cursor status pause s ≡ ok (tt, t)
      → Step hashing json barriers s t
  appended :
      (s t : Tables P J) (events out : List (Linked P)) (expected : ℕ)
      → append_run_batch hashing json barriers events expected s ≡ ok (out, t)
      → Step hashing json barriers s t
  barrier_prepared :
      (s t : Tables P J) (run barrier expected : ℕ) (requests cursor : J)
      → prepare_barrier hashing json barriers run barrier expected requests cursor s ≡ ok (tt, t)
      → Step hashing json barriers s t
  barrier_committed :
      (s t : Tables P J) (run barrier expected : ℕ) (events out : List (Linked P)) (cursor : J)
      (recs : List AssessmentRecord) (outbox : List J) (obs : Observed)
      → commit_barrier hashing json barriers run barrier expected events cursor recs outbox obs s
        ≡ ok (out, t)
      → Step hashing json barriers s t
  decision_prepared :
      (s t : Tables P J) (run decision : ℕ) (request : J) (row : DecisionRow J)
      → prepare_decision json run decision request s ≡ ok (row, t)
      → Step hashing json barriers s t
  attempt_started :
      (s t : Tables P J) (run decision attempt : ℕ) (reserved budget : Decimal) (request : Option J)
      (row : AttemptRow J)
      → start_attempt json run decision attempt reserved budget request s ≡ ok (row, t)
      → Step hashing json barriers s t
  -- A completion with the outcome DISPATCH_RESERVED, which no caller passes, is no step.
  attempt_completed :
      (s t : Tables P J) (run attempt : ℕ) (response : Option J) (actual : Option Decimal)
      (outcome error_code : String) (row : AttemptRow J)
      → str_eq outcome "DISPATCH_RESERVED" ≡ false
      → complete_attempt json run attempt response actual outcome error_code s ≡ ok (row, t)
      → Step hashing json barriers s t
  attempt_reconciled :
      (s t : Tables P J) (run attempt : ℕ) (actual : Decimal) (blank : Bool) (row : AttemptRow J)
      → reconcile_attempt run attempt actual blank s ≡ ok (row, t)
      → Step hashing json barriers s t
  decision_accepted :
      (s t : Tables P J) (run decision : ℕ) (result : J) (attempt : Option ℕ) (row : DecisionRow J)
      → accept_decision json run decision result attempt s ≡ ok (row, t)
      → Step hashing json barriers s t

module _ {J : Type 0} where
  abbrev pub cap_of : Option (RunRow J) → Option ℕ
  cap_of none = none
  cap_of (some row) = row.budget_cap

  abbrev pub cap_in : List (RunRow J) → ℕ → Option ℕ
  cap_in runs run = cap_of (find_row (run_key run) runs)

  pub put_run-cap :
      (runs : List (RunRow J)) (run : ℕ) (row new : RunRow J)
      → find_row (run_key run) runs ≡ some row
      → new.run_id ≡ row.run_id
      → new.budget_cap ≡ row.budget_cap
      → (r : ℕ) → cap_in (put_row (run_key new.run_id) new runs) r ≡ cap_in runs r
  put_run-cap runs run row new found same_id same_cap r = elim (Bool-cases (new.run_id == r)) [
    | inl mine ↦
        let is_run : row.run_id == run ≡ true = find_row-true (run_key run) runs row found in
        let there : find_row (run_key r) runs ≡ some row =
          ap (λ (k : ℕ). find_row (run_key k) runs) (ground (arith, mine, is_run, same_id))
          ∙ found in
        ap cap_of (find_run-put r new runs) ∙ rw (mine, there) same_cap
    | inr other ↦ ap cap_of (find_run-put r new runs) ∙ rw other refl
  ]

module _ {P J : Type 0} where
  -- Neither the attempts nor the caps change.
  unfoldable pub SameMoney : Tables P J → Tables P J → Type 0
  SameMoney s t = (t.attempts ≡ s.attempts) × ((run : ℕ) → cap_in t.runs run ≡ cap_in s.runs run)

  money_kept : (s : Tables P J) → SameMoney s s
  unfolding SameMoney
  money_kept s = (refl, λ run. refl)

  decision_put :
      (s : Tables P J) (row : DecisionRow J) (run : ℕ) (kind : String)
      → SameMoney s (journaled run kind (put_decision row s))
  unfolding SameMoney
  decision_put s row run kind = (refl, λ r. refl)

  barrier_put :
      (s : Tables P J) (row : BarrierRow J) (run : ℕ) (kind : String)
      → SameMoney s (journaled run kind (put_barrier row s))
  unfolding SameMoney
  barrier_put s row run kind = (refl, λ r. refl)

  -- What holds of the store that an operation returns with, if it returns.
  unfoldable pub Yields : {A : Type 0} (C : Tables P J → Type 0) → Result (A × Tables P J) → Type 0
  Yields C (ok p) = C p.1
  Yields C (err e) = Unit

  pub Yields-bind :
      {A V : Type 0} (C : Tables P J → Type 0) (call : Result V)
      (rest : V → Result (A × Tables P J))
      → ((v : V) → call ≡ ok v → Yields C (rest v))
      → Yields C (call >>= rest)
  unfolding Yields
  Yields-bind C (ok v) rest held = held v refl
  Yields-bind C (err e) rest held = tt

  pub Yields-ok :
      {A : Type 0} (C : Tables P J → Type 0) (p : A × Tables P J) → C p.1 → Yields C (ok p)
  unfolding Yields
  Yields-ok C p held = held

  pub Yields-if :
      {A : Type 0} (C : Tables P J → Type 0) (b : Bool) (c d : Result (A × Tables P J))
      → (b ≡ true → Yields C c)
      → (b ≡ false → Yields C d)
      → Yields C (if b then c else d)
  unfolding Yields
  Yields-if C true c d first second = first refl
  Yields-if C false c d first second = second refl

  pub Yields-returned :
      {A : Type 0} (C : Tables P J → Type 0) (call : Result (A × Tables P J)) (a : A)
      (t : Tables P J)
      → Yields C call
      → call ≡ ok (a, t)
      → C t
  unfolding Yields
  Yields-returned {A = A} C (ok p) a t held returned =
      let pairs : p ≡ (a, t) = cc in
      let states : p.1 ≡ t = ap (λ (r : A × Tables P J). r.1) pairs in rw (sym states) held
  Yields-returned C (err e) a t held returned = cc

  pub required_run :
      (run : ℕ) (s : Tables P J) (row : RunRow J)
      → require_run run s ≡ ok row
      → find_row (run_key run) s.runs ≡ some row
  unfolding require_run
  required_run run s row h = elim (Option-cases (find_row (run_key run) s.runs)) [
    | inl missing ↦ ground (arith, missing, h)
    | inr (r, found) ↦ ground (arith, found, h)
  ]

module _ {P J : Type 0} (hashing : Hashing P) (json : Json J) (barriers : Barriers P J) where
  run_changed :
      (run : ℕ) (s t : Tables P J) (row new : RunRow J)
      → require_run run s ≡ ok row
      → t.attempts ≡ s.attempts
      → new.run_id ≡ row.run_id
      → new.budget_cap ≡ row.budget_cap
      → t.runs ≡ put_row (run_key new.run_id) new s.runs
      → SameMoney s t
  unfolding SameMoney
  run_changed run s t row new required same_attempts same_id same_cap changed = (
    same_attempts,
    λ r.
        ap (λ (runs : List (RunRow J)). cap_in runs r) changed
        ∙ put_run-cap s.runs run row new (required_run run s row required) same_id same_cap r,
  )

  cursor_put :
      (run : ℕ) (s : Tables P J) (row : RunRow J) (cursor : J) (status : String)
      (pause : Option Pause) (kind : String)
      → require_run run s ≡ ok row
      → SameMoney s (
          journaled run kind
            (put_run (record row { cursor = cursor; status = status; pause = pause }) s))
  cursor_put run s row cursor status pause kind required =
      run_changed run s _ row (record row { cursor = cursor; status = status; pause = pause })
        required refl refl refl refl

  pub persist_cursor-SameMoney :
      (run : ℕ) (cursor : J) (status : String) (pause : Option Pause) (s : Tables P J)
      → Yields (SameMoney s) (persist_cursor hashing json barriers run cursor status pause s)
  unfolding persist_cursor
  persist_cursor-SameMoney run cursor status pause s =
      search (Yields-bind, Yields-ok, cursor_put) depth 20

  pub prepare_decision-SameMoney :
      (run decision : ℕ) (request : J) (s : Tables P J)
      → Yields (SameMoney s) (prepare_decision json run decision request s)
  unfolding prepare_decision
  prepare_decision-SameMoney run decision request s =
      elim (Option-cases (find_row (decision_key run decision) s.decisions)) [
        | inl missing ↦ rw missing (search (Yields-bind, Yields-ok, decision_put) depth 20)
        | inr (old, found) ↦ rw found (search (Yields-bind, Yields-ok, money_kept) depth 20)
      ]

  pub accept_decision-SameMoney :
      (run decision : ℕ) (result : J) (attempt : Option ℕ) (s : Tables P J)
      → Yields (SameMoney s) (accept_decision json run decision result attempt s)
  unfolding accept_decision
  accept_decision-SameMoney run decision result attempt s =
      search (Yields-bind, Yields-ok, Yields-if, decision_put, money_kept) depth 20

  pub prepare_barrier-SameMoney :
      (run barrier expected : ℕ) (requests cursor : J) (s : Tables P J)
      → Yields
          (SameMoney s)
          (prepare_barrier hashing json barriers run barrier expected requests cursor s)
  unfolding prepare_barrier
  prepare_barrier-SameMoney run barrier expected requests cursor s =
      elim (Option-cases (find_row (barrier_key run barrier) s.barriers)) [
        | inl missing ↦ rw missing (search (Yields-bind, Yields-ok, barrier_put) depth 20)
        | inr (old, found) ↦ rw found (search (Yields-bind, Yields-ok, money_kept) depth 20)
      ]

  fresh_put :
      (run : ℕ) (manifest : J) (s : Tables P J) (kind : String)
      → find_row (run_key run) s.runs ≡ none
      → SameMoney s (journaled run kind (put_run (new_run json run manifest) s))
  unfolding SameMoney
  fresh_put run manifest s kind absent = (
    refl,
    λ r. elim (Bool-cases (run == r)) [
      | inl mine ↦
          let missing : find_row (run_key r) s.runs ≡ none =
            ap (λ (k : ℕ). find_row (run_key k) s.runs) (ground (arith, mine)) ∙ absent in
          ap cap_of (find_run-put r (new_run json run manifest) s.runs) ∙ rw (mine, missing) refl
      | inr other ↦ ap cap_of (find_run-put r (new_run json run manifest) s.runs) ∙ rw other refl
    ],
  )

  pub begin_run-SameMoney :
      (run : ℕ) (manifest : J) (s : Tables P J)
      → Yields (SameMoney s) (begin_run hashing json barriers run manifest s)
  unfolding begin_run
  begin_run-SameMoney run manifest s = elim (Option-cases (find_row (run_key run) s.runs)) [
    | inl missing ↦
        rw missing (
          search (Yields-bind, Yields-ok, fresh_put run manifest s "RUN_PREPARED" missing) depth 20)
    | inr (old, found) ↦ rw found (search (Yields-bind, Yields-ok, money_kept) depth 20)
  ]

  with_events-same :
      (s : Tables P J) (r : Result (List (Linked P)) × Dict (List (Linked P)))
      (out : List (Linked P) × Tables P J)
      → with_events s r ≡ ok out
      → (out.1.attempts ≡ s.attempts) × (out.1.runs ≡ s.runs)
  unfolding with_events
  with_events-same s (err e, after) out returned = cc
  with_events-same s (ok committed, after) out returned =
      let t : Tables P J = record s { events = after } in
      let pairs : (committed, t) ≡ out = cc in
      let states : t ≡ out.1 = ap (λ (p : List (Linked P) × Tables P J). p.1) pairs in
      rw (sym states) (refl, refl)

  batch_put :
      (run : ℕ) (s : Tables P J) (row : RunRow J) (events : List (Linked P)) (expected : ℕ)
      (out : List (Linked P) × Tables P J) (status : String)
      → require_run run s ≡ ok row
      → append_events hashing json barriers events expected s ≡ ok out
      → SameMoney s (put_run (record row { status = status }) out.1)
  unfolding append_events
  batch_put run s row events expected out status required returned =
      let (attempts, runs) =
        with_events-same s (append_batch hashing events expected s.events) out returned in
      run_changed run s _ row (record row { status = status }) required attempts refl refl
        (ap
          (λ (rows : List (RunRow J)).
            put_row (run_key row.run_id) (record row { status = status }) rows)
          runs)

  pub append_run_batch-SameMoney :
      (events : List (Linked P)) (expected : ℕ) (s : Tables P J)
      → Yields (SameMoney s) (append_run_batch hashing json barriers events expected s)
  unfolding append_run_batch
  append_run_batch-SameMoney [] expected s = Yields-ok _ _ (money_kept s)
  append_run_batch-SameMoney (first ∷ rest) expected s =
      search (Yields-bind, Yields-ok, batch_put) depth 20

  commit_put :
      (run kept_run : ℕ) (s : Tables P J) (row : RunRow J) (barrier : BarrierRow J)
      (events : List (Linked P)) (expected : ℕ) (out : List (Linked P) × Tables P J) (cursor : J)
      (status : String) (outbox : List J) (led : ObservationLedger J)
      → require_run run s ≡ ok row
      → append_events hashing json barriers events expected s ≡ ok out
      → SameMoney s (
          journaled kept_run "BARRIER_COMMITTED" (
            put_run
              (record row { cursor = cursor; status = status; pause = none })
              (put_barrier barrier (record (out.1) { outbox = outbox; observations = led }))))
  unfolding append_events
  commit_put run kept_run s row barrier events expected out cursor status outbox led required
        returned =
      let (attempts, runs) =
        with_events-same s (append_batch hashing events expected s.events) out returned in
      let new : RunRow J = record row { cursor = cursor; status = status; pause = none } in
      run_changed run s _ row new required attempts refl refl
        (ap (λ (rows : List (RunRow J)). put_row (run_key row.run_id) new rows) runs)

  commit_new-SameMoney :
      (run barrier expected : ℕ) (events : List (Linked P)) (cursor : J)
      (recs : List AssessmentRecord) (outbox : List J) (obs : Observed) (requests : J)
      (body_hash : ℕ) (row : RunRow J) (s : Tables P J)
      → require_run run s ≡ ok row
      → Yields (SameMoney s) (
          commit_new hashing json barriers run barrier expected events cursor recs outbox obs
            requests body_hash row s)
  unfolding commit_new
  commit_new-SameMoney run barrier expected events cursor recs outbox obs requests body_hash row s
        required =
      search (Yields-bind, Yields-ok, commit_put) depth 20

  pub commit_barrier-SameMoney :
      (run barrier expected : ℕ) (events : List (Linked P)) (cursor : J)
      (recs : List AssessmentRecord) (outbox : List J) (obs : Observed) (s : Tables P J)
      → Yields (SameMoney s) (
          commit_barrier hashing json barriers run barrier expected events cursor recs outbox obs s)
  unfolding commit_barrier committed_before
  commit_barrier-SameMoney run barrier expected events cursor recs outbox obs s =
      elim (Option-cases (find_row (barrier_key run barrier) s.barriers)) [
        | inl missing ↦ rw missing (search (Yields-bind, commit_new-SameMoney) depth 20)
        | inr (old, found) ↦
            rw found (
              search (Yields-bind, Yields-ok, Yields-if, money_kept, commit_new-SameMoney) depth 20)
      ]
