-- ===== src/Knowledge/Beliefs/Prefix.antt =====
-- A belief depends only on what had happened by the instant of its context.
use auto_options_call_debit.Common.{
  ℕ, ◌<◌, String, ◌≡◌, refl, ap, ◌∙◌, inl, inr, Bool, false, List, [], ◌∷◌, ◌++◌, arith, leb,
  lt→ltb, Bool-cases,
}
use auto_options_call_debit.Common.Dict.{Dict}
use auto_options_call_debit.Common.Lists.{keep, All, All-map}
use auto_options_call_debit.Knowledge.{instant, Atom, Delivery, Context}
use auto_options_call_debit.Knowledge.Observations.{
  in_scope, deliveries_of, assessments_of, AssessmentRecord, ObservationLedger,
}
use auto_options_call_debit.Knowledge.Beliefs.{believe, accepted_by_now, reduce_belief, Blob}

-- What comes after the instant of the context.
abbrev pub LateDelivery : Context → Delivery → Type 0
LateDelivery ctx d = instant ctx.as_of < instant d.delivered_at

abbrev pub LateAssessment : Context → AssessmentRecord → Type 0
LateAssessment ctx r = instant ctx.as_of < instant r.accepted_at

module _ {A : Type 0} where
  keep-append :
      (test : A → Bool) (xs ys : List A) → keep test (xs ++ ys) ≡ keep test xs ++ keep test ys
  keep-append test [] ys = refl
  keep-append test (x ∷ xs) ys = elim (Bool-cases (test x)) [
    | inl kept ↦ rw kept (ap (λ (zs : List A). x ∷ zs) (keep-append test xs ys))
    | inr dropped ↦ rw dropped (keep-append test xs ys)
  ]

  keep-All : (P : A → Type 0) (test : A → Bool) (xs : List A) → All P xs → All P (keep test xs)
  keep-All P test [] each = tt
  keep-All P test (x ∷ xs) (first, rest) = elim (Bool-cases (test x)) [
    | inl kept ↦ rw kept (first, keep-All P test xs rest)
    | inr dropped ↦ rw dropped (keep-All P test xs rest)
  ]

  keep_none : (test : A → Bool) (xs : List A) → All (λ x. test x ≡ false) xs → keep test xs ≡ []
  keep_none test [] each = refl
  keep_none test (x ∷ xs) (first, rest) = rw first (keep_none test xs rest)

  append_nil : (xs : List A) → xs ++ [] ≡ xs
  append_nil [] = refl
  append_nil (x ∷ xs) = ap (λ (zs : List A). x ∷ zs) (append_nil xs)

believe_late :
    (atoms : Dict Atom) (ctx : Context) (ds late : List Delivery)
    → All (LateDelivery ctx) late
    → believe atoms ctx (ds ++ late) ≡ believe atoms ctx ds
unfolding believe
believe_late atoms ctx [] [] each = refl
believe_late atoms ctx [] (d ∷ late) (first, rest) =
    rw (lt→ltb (instant ctx.as_of) (instant d.delivered_at) first)
      (believe_late atoms ctx [] late rest)
believe_late atoms ctx (d ∷ ds) late each = rw (believe_late atoms ctx ds late each) refl

accepted_late :
    (ctx : Context) (recs late : List AssessmentRecord)
    → All (LateAssessment ctx) late
    → accepted_by_now ctx (recs ++ late) ≡ accepted_by_now ctx recs
unfolding accepted_by_now
accepted_late ctx recs late each =
    keep-append (λ r. leb (instant r.accepted_at) (instant ctx.as_of)) recs late
    ∙ ap (λ (zs : List AssessmentRecord). accepted_by_now ctx recs ++ zs)
        (keep_none (λ r. leb (instant r.accepted_at) (instant ctx.as_of)) late
          (All-map (LateAssessment ctx) _ late (λ r after. ground (arith, after)) each))
    ∙ append_nil (accepted_by_now ctx recs)

-- Deliveries and accepted assessments after the instant of a context, of any run and actor, leave the
-- belief at that instant as it is.
pub reduce_belief_prefix :
    {Payload : Type 0} (belief_digest : Blob → ℕ) (s : ObservationLedger Payload) (ctx : Context)
    (extra : List String) (late : List Delivery) (recs : List AssessmentRecord)
    → All (LateDelivery ctx) late
    → All (LateAssessment ctx) recs
    → reduce_belief belief_digest
        (record s { deliveries = s.deliveries ++ late; assessments = s.assessments ++ recs })
        ctx
        extra
      ≡ reduce_belief belief_digest s ctx extra
unfolding reduce_belief deliveries_of assessments_of
reduce_belief_prefix belief_digest s ctx extra late recs after after_recs =
    let scope : Delivery → Bool =
      λ d. in_scope d.run_id d.branch_id d.actor_id ctx.run_id ctx.branch_id ctx.actor_id in
    let scope_rec : AssessmentRecord → Bool =
      λ r. in_scope r.run_id r.branch_id r.actor_id ctx.run_id ctx.branch_id ctx.actor_id in
    rw
      (
        keep-append scope s.deliveries late,
        believe_late s.atoms ctx (keep scope s.deliveries) (keep scope late)
            (keep-All (LateDelivery ctx) scope late after),
        keep-append scope_rec s.assessments recs,
        accepted_late ctx (keep scope_rec s.assessments) (keep scope_rec recs)
            (keep-All (LateAssessment ctx) scope_rec recs after_recs),
      )
      refl
