-- ===== src/Store.antt =====
-- The append-only, hash-chained event store (persistence/events.py, domain/state.py), and the check
-- of a stored chain on resume (engine/scheduler.py). The payload is any JSON value; its canonical text
-- and SHA-256 are parameters.
pub mod Append
pub mod Evidence
mod Tests
use auto_options_call_debit.Common.{
  ℕ, ◌+◌, String, Bool, true, false, not, ◌&&◌, ◌||◌, none, some, List, [], ◌∷◌, ◌++◌, ◌==◌,
  if◌then◌else◌,
}
use auto_options_call_debit.Common.Outcome.{◌>>=◌, Result, ledger_error, ok, err}
use auto_options_call_debit.Common.Dict.{Dict, lookup, insert}

-- The text in a hash field: empty before linking, "genesis", or a hexadecimal digest.
pub data Hash : Type 0 where
  unset genesis : Hash
  digest : ℕ → Hash

pub hash_eq : Hash → Hash → Bool
hash_eq unset unset = true
hash_eq genesis genesis = true
hash_eq (digest a) (digest b) = a == b
hash_eq _ _ = false

-- The fields that `event_hash` serialises.
pub record Envelope : Type 0 where
  pub run_id : ℕ
  pub seq : ℕ
  pub sim_time_utc : ℕ
  pub phase : String
  pub type : String
  pub payload_hash : Hash
  pub previous_hash : Hash

pub record Linked (P : Type 0) : Type 0 where
  pub run_id : ℕ
  pub seq : ℕ
  pub sim_time_utc : ℕ
  pub phase : String
  pub type : String
  pub payload : P
  pub payload_hash : Hash
  pub previous_hash : Hash
  pub event_hash : Hash

-- `hashlib` and `json.dumps`: the digest of a payload, and that of an envelope.
pub record Hashing (P : Type 0) : Type 0 where
  pub payload_digest : P → ℕ
  pub envelope_digest : Envelope → ℕ

abbrev pub envelope : {P : Type 0} → Linked P → Envelope
envelope e = record {
  run_id = e.run_id;
  seq = e.seq;
  sim_time_utc = e.sim_time_utc;
  phase = e.phase;
  type = e.type;
  payload_hash = e.payload_hash;
  previous_hash = e.previous_hash;
}

module _ {P : Type 0} (h : Hashing P) where
  pub payload_hash : P → Hash
  payload_hash p = digest (h.payload_digest p)

  pub event_hash : Linked P → Hash
  event_hash e = digest (h.envelope_digest (envelope e))

  -- `Event.with_hashes`
  unfoldable pub with_hashes : Linked P → Hash → Hash → Linked P
  unfolding event_hash
  with_hashes e payload previous =
      let linked : Linked P = record e { payload_hash = payload; previous_hash = previous } in
      record linked { event_hash = event_hash linked }

  -- The loop over a batch: every event is of the run and takes the next number.
  pub link : ℕ → ℕ → Hash → List (Linked P) → Result (List (Linked P))
  unfolding with_hashes payload_hash
  link run seq previous [] = ok []
  link run seq previous (event ∷ events) =
      if not (event.run_id == run) || not (event.seq == seq + 1)
      then err (ledger_error "SEQUENCE_MISMATCH")
      else let e = with_hashes event (payload_hash event.payload) previous in
        link run e.seq e.event_hash events >>= λ rest. ok (e ∷ rest)

  -- The check of an existing chain in `Engine.run`, from an index and a previous hash.
  unfoldable pub verify : ℕ → ℕ → Hash → List (Linked P) → Bool
  unfolding payload_hash event_hash hash_eq
  verify run index previous [] = true
  verify run index previous (e ∷ events) =
      (e.run_id == run)
      && ((e.seq == index)
          && (hash_eq e.previous_hash previous
              && (hash_eq e.payload_hash (payload_hash e.payload)
                  && (hash_eq e.event_hash (event_hash e)
                      && verify run (index + 1) e.event_hash events))))

-- `tip`, of the events of one run: the last number and hash.
unfoldable pub tip_from : {P : Type 0} → ℕ × Hash → List (Linked P) → ℕ × Hash
tip_from last [] = last
tip_from last (e ∷ events) = tip_from (e.seq, e.event_hash) events

unfoldable pub log_of : {P : Type 0} → ℕ → Dict (List (Linked P)) → List (Linked P)
log_of run store = elim (lookup run store) [ none ↦ [] | some log ↦ log ]

unfoldable pub tip : {P : Type 0} → Dict (List (Linked P)) → ℕ → ℕ × Hash
unfolding tip_from log_of
tip store run = tip_from (0, genesis) (log_of run store)

-- `append_batch` on the events of each run; the store comes back beside the outcome.
commit_batch :
    {P : Type 0}
    → ℕ
    → Dict (List (Linked P))
    → Result (List (Linked P))
    → Result (List (Linked P)) × Dict (List (Linked P))
unfolding log_of
commit_batch run store (err e) = (err e, store)
commit_batch run store (ok committed) =
    (ok committed, insert run (log_of run store ++ committed) store)

pub append_batch :
    {P : Type 0}
    → Hashing P
    → List (Linked P)
    → ℕ
    → Dict (List (Linked P))
    → Result (List (Linked P)) × Dict (List (Linked P))
unfolding commit_batch
append_batch h [] expected store = (ok [], store)
append_batch h (event ∷ events) expected store =
    let (seq, previous) = tip store event.run_id in
    if not (expected == seq)
    then (err (ledger_error "SEQUENCE_MISMATCH"), store)
    else commit_batch event.run_id store (link h event.run_id seq previous (event ∷ events))
