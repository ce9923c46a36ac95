-- ===== src/Runtime/Barriers.antt =====
-- Runs, their cursors, and the barriers that commit together what a decision leads to
-- (persistence/runtime.py).
use auto_options_call_debit.Common.Dict.{Dict}
use auto_options_call_debit.Common.{
  ℕ, String, Bool, true, false, not, ◌&&◌, ◌||◌, Option, none, some, List, [], ◌∷◌, ◌++◌, str_eq,
  ltb, leb, ◌==◌, if◌then◌else◌,
}
use auto_options_call_debit.Common.Outcome.{◌>>=◌, ◌>>◌, raise_if, Result, ledger_error, err, ok}
use auto_options_call_debit.Common.Lists.{keep, among}
use auto_options_call_debit.Domain.Money.{Datetime, aware, naive}
use auto_options_call_debit.Store.{hash_eq, log_of, tip, append_batch, Hash, Linked, Hashing}
use auto_options_call_debit.Knowledge.{Atom, Delivery}
use auto_options_call_debit.Knowledge.Observations.{
  put_atom, deliver, put_assessment, AssessmentRecord, ObservationLedger,
}
use auto_options_call_debit.Runtime.{
  Transaction, find_row, run_key, barrier_key, require_run, put_run, put_barrier, journaled,
  is_finished, optional_eq, Pause, RunRow, BarrierRow, Tables, LedgerPosition, Json, unnamed,
  incomplete, position,
}

-- What a barrier adds to the ledger of observations.
pub record Observed : Type 0 where
  pub atoms : List Atom
  pub deliveries : List Delivery

-- SHA-256 of a barrier's body, and the status in the payload of an event.
pub record Barriers (P J : Type 0) : Type 0 where
  pub batch_digest : List (Linked P) → J → List AssessmentRecord → Observed → List J → ℕ
  pub payload_status : P → Option String

-- The value of an action on the ledger of observations, and the ledger after it
and_state : {S A : Type 0} → Result A × S → Result S
and_state (ok a, s) = ok s
and_state (err e, s) = err e

-- `_datetime`
unfoldable pub runtime_time : Datetime → Result (Unit {0})
runtime_time (aware t) = ok tt
runtime_time (naive t) = err (ledger_error "NAIVE_RUNTIME_TIMESTAMP")

-- `status not in {...}`
unfoldable pub is_status : String → Bool
is_status status = among status ("RUNNING" ∷ "PAUSED" ∷ "COMPLETED" ∷ "FAILED" ∷ [])

other_run_event : {P : Type 0} → ℕ → List (Linked P) → Bool
other_run_event run [] = false
other_run_event run (e ∷ es) = if e.run_id == run then other_run_event run es else true

other_run_item : ℕ → List ℕ → Bool
other_run_item run [] = false
other_run_item run (r ∷ rs) = if r == run then other_run_item run rs else true

runs_of : List AssessmentRecord → List Delivery → List ℕ
runs_of [] [] = []
runs_of [] (d ∷ ds) = d.run_id ∷ runs_of [] ds
runs_of (r ∷ rs) ds = r.run_id ∷ runs_of rs ds

-- The number of the last event of a batch, or the one before it
last_seq_of : {P : Type 0} → ℕ → List (Linked P) → ℕ
last_seq_of seq [] = seq
last_seq_of seq (e ∷ es) = last_seq_of e.seq es

-- `row["status"]` after the events of a batch, in their order
status_after : {P : Type 0} → (P → Option String) → String → List (Linked P) → String
status_after payload_status status [] = status
status_after payload_status status (e ∷ es) =
    if str_eq e.type "RUN_STARTED"
    then status_after payload_status "RUNNING" es
    else if str_eq e.type "RUN_ENDED"
    then status_after payload_status
        (elim (payload_status e.payload) [ none ↦ "COMPLETED" | some s ↦ s ]) es
    else status_after payload_status status es

-- The status after a barrier: that of its last event that ends the run, or "RUNNING"
ended_status : {P : Type 0} → (P → Option String) → String → List (Linked P) → String
ended_status payload_status status [] = status
ended_status payload_status status (e ∷ es) =
    if str_eq e.type "RUN_ENDED"
    then ended_status payload_status
        (elim (payload_status e.payload) [ none ↦ "COMPLETED" | some s ↦ s ]) es
    else ended_status payload_status status es

-- Whether a cursor that names a position names another than the ledger's
stale_cursor : LedgerPosition → ℕ × Hash → Bool
stale_cursor unnamed at_tip = false
stale_cursor incomplete at_tip = true
stale_cursor (position seq hash) at_tip = not (seq == at_tip.0) || not (hash_eq hash at_tip.1)

module _ {J : Type 0} where
  put_atoms : List Atom → ObservationLedger J → Result (ObservationLedger J)
  unfolding runtime_time and_state
  put_atoms [] led = ok led
  put_atoms (a ∷ rest) led = do
    runtime_time a.published_at
    runtime_time a.available_at
    runtime_time a.subject_at
    next ← and_state (put_atom a led)
    put_atoms rest next

  deliver_all : List Delivery → ObservationLedger J → Result (ObservationLedger J)
  unfolding runtime_time and_state
  deliver_all [] led = ok led
  deliver_all (d ∷ rest) led = do
    runtime_time d.delivered_at
    next ← and_state (deliver d.run_id d.branch_id d.actor_id d.atom_id d.delivered_at led)
    deliver_all rest next

  put_assessments : List AssessmentRecord → ObservationLedger J → Result (ObservationLedger J)
  unfolding runtime_time and_state
  put_assessments [] led = ok led
  put_assessments (r ∷ rest) led = do
    runtime_time r.accepted_at
    next ← and_state (put_assessment r led)
    put_assessments rest next

  -- `observations` of a transaction
  unfoldable pub add_observations :
      Observed → List AssessmentRecord → ObservationLedger J → Result (ObservationLedger J)
  unfolding put_atoms deliver_all put_assessments
  add_observations obs recs led = put_atoms obs.atoms led >>= λ with_atoms.
      deliver_all obs.deliveries with_atoms >>= λ delivered. put_assessments recs delivered

module _ {P J : Type 0} where
  -- The store after its events were appended to
  unfoldable pub with_events :
      Tables P J
      → Result (List (Linked P)) × Dict (List (Linked P))
      → Result (List (Linked P) × Tables P J)
  with_events s (err e, after) = err e
  with_events s (ok committed, after) = ok (committed, record s { events = after })

abbrev pub new_run : {J : Type 0} → Json J → ℕ → J → RunRow J
new_run json run manifest = record {
  run_id = run;
  manifest = manifest;
  manifest_hash = json.record_hash manifest;
  status = "RUNNING";
  cursor = json.nothing;
  pause = none;
  budget_cap = none;
}

module _ {P J : Type 0} (hashing : Hashing P) (json : Json J) (barriers : Barriers P J) where
  -- `begin_run`
  unfoldable pub begin_run : ℕ → J → Transaction P J (RunRow J)
  begin_run run manifest s = do
    raise_if (not (optional_eq (json.format_version manifest) (some 2)))
        (ledger_error "LEGACY_RUN_READ_ONLY")
    let hash : ℕ = json.record_hash manifest
    elim (find_row (run_key run) s.runs) [
      | some row ↦
          raise_if (not (row.manifest_hash == hash)) (ledger_error "RUN_MANIFEST_MISMATCH")
          >> ok (row, s)
      | none ↦
          raise_if (not ((tip s.events run).0 == 0)) (ledger_error "LEGACY_RUN_READ_ONLY") >>= λ _.
          ok (
            new_run json run manifest,
            journaled run "RUN_PREPARED" (put_run (new_run json run manifest) s),
          )
    ]

  -- `persist_cursor`
  unfoldable pub persist_cursor : ℕ → J → String → Option Pause → Transaction P J (Unit {0})
  unfolding stale_cursor
  persist_cursor run cursor status pause s = do
    raise_if (not (is_status status)) (ledger_error "INVALID_RUN_STATUS")
    row ← require_run run s
    raise_if (stale_cursor (json.ledger_position cursor) (tip s.events run))
        (ledger_error "STALE_CURSOR_WRITE")
    raise_if
        (is_finished row.status
          && (not (str_eq status row.status) || not (json.json_eq cursor row.cursor)))
        (ledger_error "TERMINAL_RUN_IMMUTABLE")
    ok (
      tt,
      journaled run "CURSOR"
          (put_run (record row { cursor = cursor; status = status; pause = pause }) s),
    )

  unfoldable pub append_events :
      List (Linked P) → ℕ → Tables P J → Result (List (Linked P) × Tables P J)
  unfolding with_events
  append_events events expected s = with_events s (append_batch hashing events expected s.events)

  -- `append_batch`
  unfoldable pub append_run_batch : List (Linked P) → ℕ → Transaction P J (List (Linked P))
  unfolding append_events status_after
  append_run_batch [] expected s = ok ([], s)
  append_run_batch (first ∷ rest) expected s = do
    row ← require_run first.run_id s
    appended ← append_events (first ∷ rest) expected s
    ok (
      appended.0,
      put_run (record row { status = status_after barriers.payload_status row.status appended.0 })
          appended.1,
    )

  same_barrier : BarrierRow J → BarrierRow J → Bool
  same_barrier row wanted =
      (row.expected_seq == wanted.expected_seq)
      && (json.json_eq row.request_hashes wanted.request_hashes
          && json.json_eq row.cursor wanted.cursor)

  -- `prepare_barrier`
  unfoldable pub prepare_barrier : ℕ → ℕ → ℕ → J → J → Transaction P J (Unit {0})
  unfolding same_barrier
  prepare_barrier run barrier expected request_hashes cursor s =
      let wanted : BarrierRow J = record {
        run_id = run;
        barrier_id = barrier;
        expected_seq = expected;
        request_hashes = request_hashes;
        cursor = cursor;
        batch_hash = none;
        last_seq = none;
        status = "PREPARED";
      } in
      require_run run s >>= λ _. elim (find_row (barrier_key run barrier) s.barriers) [
        | some row ↦
            raise_if (not (same_barrier row wanted)) (ledger_error "BARRIER_PREPARATION_MISMATCH")
            >> ok (tt, s)
        | none ↦
            raise_if (not ((tip s.events run).0 == expected)) (ledger_error "SEQUENCE_MISMATCH")
            >> ok (tt, journaled run "BARRIER_PREPARED" (put_barrier wanted s))
      ]

  -- A barrier that was committed before: its events again, if it is the same
  unfoldable pub committed_before :
      ℕ → BarrierRow J → ℕ → ℕ → Tables P J → Result (List (Linked P) × Tables P J)
  committed_before run row expected body_hash s =
      raise_if
        (not (optional_eq row.batch_hash (some body_hash)) || not (row.expected_seq == expected))
        (ledger_error "BARRIER_COMMIT_MISMATCH")
      >> ok (
        keep
            (λ e.
              ltb expected e.seq
              && (elim row.last_seq [ none ↦ false | some last ↦ leb e.seq last ]))
            (log_of run s.events),
        s,
      )

  -- The checks and writes of a barrier that is not committed yet
  unfoldable pub commit_new :
      ℕ
      → ℕ
      → ℕ
      → List (Linked P)
      → J
      → List AssessmentRecord
      → List J
      → Observed
      → J
      → ℕ
      → RunRow J
      → Transaction P J (List (Linked P))
  unfolding append_events other_run_event other_run_item runs_of last_seq_of ended_status
  commit_new run barrier expected events cursor recs outbox obs request_hashes body_hash run_row s =
      do
        raise_if (not ((tip s.events run).0 == expected)) (ledger_error "SEQUENCE_MISMATCH")
        raise_if (other_run_event run events) (ledger_error "CROSS_RUN_BARRIER")
        raise_if (other_run_item run (runs_of recs obs.deliveries))
            (ledger_error "CROSS_RUN_OBSERVATION")
        appended ← append_events events expected s
        led ← add_observations obs recs s.observations
        let observed : Tables P J = record (appended.1) {
          outbox = s.outbox ++ outbox;
          observations = led;
        }
        let row : BarrierRow J = record {
          run_id = run;
          barrier_id = barrier;
          expected_seq = expected;
          request_hashes = request_hashes;
          cursor = cursor;
          batch_hash = some body_hash;
          last_seq = some (last_seq_of expected appended.0);
          status = "COMMITTED";
        }
        let ended : RunRow J = record run_row {
          cursor = cursor;
          status = ended_status barriers.payload_status "RUNNING" appended.0;
          pause = none;
        }
        ok (
          appended.0,
          journaled run "BARRIER_COMMITTED" (put_run ended (put_barrier row observed)),
        )

  -- `commit_barrier`
  unfoldable pub commit_barrier :
      ℕ
      → ℕ
      → ℕ
      → List (Linked P)
      → J
      → List AssessmentRecord
      → List J
      → Observed
      → Transaction P J (List (Linked P))
  unfolding committed_before
  commit_barrier run barrier expected events cursor recs outbox obs s =
      let body_hash : ℕ = barriers.batch_digest events cursor recs obs outbox in
      require_run run s >>= λ run_row. elim (find_row (barrier_key run barrier) s.barriers) [
        | none ↦
            commit_new run barrier expected events cursor recs outbox obs json.nothing body_hash
              run_row s
        | some row ↦
            if str_eq row.status "COMMITTED"
            then committed_before run row expected body_hash s
            else (raise_if (not (row.expected_seq == expected))
                  (ledger_error "BARRIER_PREPARATION_MISMATCH")
                >> commit_new run barrier expected events cursor recs outbox obs row.request_hashes
                    body_hash run_row s)
      ]
