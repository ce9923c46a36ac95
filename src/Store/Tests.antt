-- ===== src/Store/Tests.antt =====
-- A store with one run, under a digest that adds up what it is given.
use auto_options_call_debit.Common.{
  ℕ, ◌+◌, ◌*◌, ◌≡◌, refl, ap, ◌≢◌, true, List, [], ◌∷◌, ◌++◌, arith,
}
use auto_options_call_debit.Common.Outcome.{Result, ledger_error, ok, err}
use auto_options_call_debit.Common.Dict.{Dict}
use auto_options_call_debit.Common.Lists.{length}
use auto_options_call_debit.Store.{
  hash_eq, payload_hash, event_hash, with_hashes, link, verify, tip_from, log_of, tip, append_batch,
  Hash, Linked, Hashing, unset, genesis, digest, commit_batch,
}
use auto_options_call_debit.Store.Append.{IsChain, all_unhashed, append_atomic, append-IsChain}
use auto_options_call_debit.Store.Evidence.{NoCollision, IsCollisionFree, tip_determines_log}

hash_number : Hash → ℕ
hash_number unset = 0
hash_number genesis = 1
hash_number (digest n) = n + 2

abbrev adding : Hashing ℕ
adding = record {
  payload_digest = λ p. p;
  envelope_digest =
      λ e. e.seq * 1000 + hash_number e.payload_hash * 10 + hash_number e.previous_hash;
}

abbrev raw : ℕ → ℕ → Linked ℕ
raw n p = record {
  run_id = 1;
  seq = n;
  sim_time_utc = n * 60;
  phase = "RUN";
  type = "RUN_STARTED";
  payload = p;
  payload_hash = unset;
  previous_hash = unset;
  event_hash = unset;
}

abbrev first : Linked ℕ
first = record (raw 1 7) {
  payload_hash = digest 7;
  previous_hash = genesis;
  event_hash = digest 1091;
}

abbrev second : Linked ℕ
second = record (raw 2 4) {
  payload_hash = digest 4;
  previous_hash = digest 1091;
  event_hash = digest 3153;
}

committed :
    append_batch adding (raw 1 7 ∷ raw 2 4 ∷ []) 0 []
    ≡ (ok (first ∷ second ∷ []), (1, first ∷ second ∷ []) ∷ [])
unfolding append_batch commit_batch tip tip_from log_of link with_hashes payload_hash event_hash
    hash_number
committed = refl

out_of_order :
    (append_batch adding (raw 1 7 ∷ raw 3 4 ∷ []) 0 []).0 ≡ err (ledger_error "SEQUENCE_MISMATCH")
unfolding append_batch commit_batch tip tip_from log_of link with_hashes payload_hash event_hash
    hash_number
out_of_order = refl

append_atomic_example : (append_batch adding (raw 1 7 ∷ raw 3 4 ∷ []) 0 []).1 ≡ []
append_atomic_example = append_atomic adding (raw 1 7 ∷ raw 3 4 ∷ []) 0 [] out_of_order

append-IsChain_example :
    let after = (append_batch adding (raw 1 7 ∷ raw 2 4 ∷ []) 0 []).1 in
    (0 ≡ length (log_of {P = ℕ} 1 []))
    × (log_of 1 after ≡ log_of 1 [] ++ first ∷ second ∷ [])
    × (all_unhashed (first ∷ second ∷ []) ≡ all_unhashed (raw 1 7 ∷ raw 2 4 ∷ []))
    × ((run : ℕ) → run ≢ 1 → log_of run after ≡ log_of run [])
    × IsChain adding 1 after
append-IsChain_example =
    append-IsChain adding (raw 1 7) (raw 2 4 ∷ []) 0 [] (unfold log_of verify in refl)
      (ap (λ (r : Result (List (Linked ℕ)) × Dict (List (Linked ℕ))). r.0) committed)

verified : verify adding 1 1 genesis (first ∷ second ∷ []) ≡ true
unfolding verify payload_hash event_hash hash_eq hash_number
verified = refl

same : (e : Linked ℕ) → NoCollision adding e e
same e = record { payloads = λ h. refl; envelopes = λ h. refl }

apart : NoCollision adding first second
unfolding hash_number
apart = record { payloads = λ h. absurd (omega arith); envelopes = λ h. absurd (omega arith) }

apart_back : NoCollision adding second first
unfolding hash_number
apart_back = record { payloads = λ h. absurd (omega arith); envelopes = λ h. absurd (omega arith) }

no_collisions : IsCollisionFree adding (first ∷ second ∷ []) (first ∷ second ∷ [])
no_collisions = ((same first, (apart, tt)), ((apart_back, (same second, tt)), tt))

tip_determines_log_example : first ∷ second ∷ [] ≡ first ∷ second ∷ []
tip_determines_log_example =
    tip_determines_log adding 1 (first ∷ second ∷ []) (first ∷ second ∷ []) no_collisions verified
      verified refl
