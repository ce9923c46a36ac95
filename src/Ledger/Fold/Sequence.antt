-- ===== src/Ledger/Fold/Sequence.antt =====
-- The order of the log: runs, sequence numbers, and replay in parts.
use native.Mathlib.Decide.{ℕ_discrete}
use auto_options_call_debit.Common.{
  ◌∷◌, [], ℕ, ap, sym, ◌∙◌, refl, ◌++◌, ℤ, ◌+◌, ◌≡◌, ◌≢◌, List, arith,
}
use auto_options_call_debit.Common.Action.{◌>>◌}
use auto_options_call_debit.Common.Outcome.{Result, domain_error, ok, err}
use auto_options_call_debit.Common.Lists.{length}
use auto_options_call_debit.Ledger.Payload.{spread_of}
use auto_options_call_debit.Ledger.Event.{
  Body, Event, EngineState, reservation_held, order_submitted,
}
use auto_options_call_debit.Ledger.Fold.{fold, fold_all}
use auto_options_call_debit.Ledger.Fold.{replay, apply_body, finished, initial_state}

-- The payload moves neither the run nor the sequence number, whether it raises or not.
apply_body_seq :
    (b : Body) (s : EngineState)
    → ((apply_body b s).1.seq ≡ s.seq) × ((apply_body b s).1.run_id ≡ s.run_id)
unfolding apply_body
apply_body_seq (reservation_held r a d reserve at until) s = ground arith
apply_body_seq (order_submitted k agent spread intent limit at eligible) s =
    elim (spread_of spread)
      as (λ x.
        ((apply_body (order_submitted k agent spread intent limit at eligible) s).1.seq ≡ s.seq)
        × ((apply_body (order_submitted k agent spread intent limit at eligible) s).1.run_id
            ≡ s.run_id)) [ ok p ↦ ground arith | err e ↦ ground arith ]
apply_body_seq b s = ground arith

fold_next :
    (ev : Event) (s : EngineState)
    → ev.run_id ≡ s.run_id
    → ev.seq ≡ s.seq + 1
    → fold ev s ≡ apply_body ev.body (record s { seq = ev.seq })
unfolding fold
fold_next ev s p q = ground arith

fold_cross_run :
    (ev : Event) (s : EngineState)
    → ev.run_id ≢ s.run_id
    → fold ev s ≡ (err (domain_error "CROSS_RUN_EVENT"), s)
unfolding fold
fold_cross_run ev s p = ground arith

fold_out_of_order :
    (ev : Event) (s : EngineState)
    → ev.run_id ≡ s.run_id
    → ev.seq ≢ s.seq + 1
    → fold ev s ≡ (err (domain_error "EVENT_SEQUENCE_MISMATCH"), s)
unfolding fold
fold_out_of_order ev s p q = ground arith

-- An event that was folded.
pub record IsNext (ev : Event) (s t : EngineState) : Type 0 where
  pub same_run : ev.run_id ≡ s.run_id
  pub next_seq : ev.seq ≡ s.seq + 1
  pub run_kept : t.run_id ≡ s.run_id
  pub seq_taken : t.seq ≡ s.seq + 1

pub fold_ok : (ev : Event) (s : EngineState) → (fold ev s).0 ≡ ok tt → IsNext ev s (fold ev s).1
fold_ok ev s h = elim (ℕ_discrete ev.run_id s.run_id) [
  | no p ↦ cc (ap (λ (r : Result (Unit {0}) × EngineState). r.0) (fold_cross_run ev s p))
  | yes p ↦ elim (ℕ_discrete ev.seq (s.seq + 1)) [
    | no q ↦ cc (ap (λ (r : Result (Unit {0}) × EngineState). r.0) (fold_out_of_order ev s p q))
    | yes q ↦
        let kept = apply_body_seq ev.body (record s { seq = ev.seq }) in
        rw (fold_next ev s p q)
          (record { same_run = p; next_seq = q; run_kept = kept.1; seq_taken = kept.0 ∙ q })
  ]
]

-- A folded event belongs to the run and takes the next sequence number, and the state moves to that
-- number and stays in the run; an event of another run or number is refused with its own code and
-- leaves the state as it was.
pub fold_sequence :
    (ev : Event) (s : EngineState)
    → ((fold ev s).0 ≡ ok tt → IsNext ev s (fold ev s).1)
      × (ev.run_id ≢ s.run_id → fold ev s ≡ (err (domain_error "CROSS_RUN_EVENT"), s))
      × (ev.run_id ≡ s.run_id
          → ev.seq ≢ s.seq + 1
          → fold ev s ≡ (err (domain_error "EVENT_SEQUENCE_MISMATCH"), s))
fold_sequence ev s = (fold_ok ev s, fold_cross_run ev s, fold_out_of_order ev s)

pub fold_all_cons :
    (ev : Event) (evs : List Event) (s : EngineState)
    → (fold_all (ev ∷ evs) s).0 ≡ ok tt
    → ((fold ev s).0 ≡ ok tt) × (fold_all (ev ∷ evs) s ≡ fold_all evs (fold ev s).1)
unfolding fold_all
fold_all_cons ev evs s h = ground arith

pub fold_all_seq :
    (evs : List Event) (s : EngineState)
    → (fold_all evs s).0 ≡ ok tt
    → ((fold_all evs s).1.seq ≡ s.seq + length evs) × ((fold_all evs s).1.run_id ≡ s.run_id)
fold_all_seq [] s h = unfold fold_all in (omega arith, refl)
fold_all_seq (ev ∷ evs) s h =
    let (first, rest) = fold_all_cons ev evs s h in
    let next = fold_ok ev s first in
    let ih =
      fold_all_seq evs (fold ev s).1
        (ap (λ (r : Result (Unit {0}) × EngineState). r.0) (sym rest) ∙ h) in
    rw rest (omega (arith, ih.0, next.seq_taken), ih.1 ∙ next.run_kept)

pub fold_all-append :
    (xs ys : List Event) (s : EngineState) → fold_all (xs ++ ys) s ≡ (fold_all xs >> fold_all ys) s
unfolding fold_all
fold_all-append [] ys s = refl
fold_all-append (x ∷ xs) ys s = ground (arith, fold_all-append xs ys (fold x s).1)

pub replay_ok :
    (run : ℕ) (cash : ℤ) (evs : List Event) {s : EngineState}
    → replay run cash evs ≡ ok s
    → fold_all evs (initial_state run cash) ≡ (ok tt, s)
unfolding replay finished
replay_ok run cash evs h = ground arith

-- A replay that succeeds has folded each event: its state is of the run, at the log's length.
pub replay_seq :
    (run : ℕ) (cash : ℤ) (evs : List Event) {s : EngineState}
    → replay run cash evs ≡ ok s
    → (s.seq ≡ length evs) × (s.run_id ≡ run)
unfolding initial_state
replay_seq run cash evs h =
    let e = replay_ok run cash evs h in
    let w =
      fold_all_seq evs (initial_state run cash)
        (ap (λ (r : Result (Unit {0}) × EngineState). r.0) e) in
    let w' = rw e at w in (omega (arith, w'.0), w'.1)
