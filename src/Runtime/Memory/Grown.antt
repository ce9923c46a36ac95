-- ===== src/Runtime/Memory/Grown.antt =====
-- The loops of `observations` only add to the deliveries, and to the assessments (persistence/runtime.py,
-- epistemics/store.py).
use auto_options_call_debit.Common.{
  ◌≡◌, refl, sym, ap, ◌∙◌, Bool, true, false, Option, none, some, List, [], ◌∷◌, ◌++◌,
  if◌then◌else◌,
}
use auto_options_call_debit.Common.Action.{Action, pure, lift, gets, need, guard_not, ◌>>=◌, modify}
use auto_options_call_debit.Domain.Money.{Datetime}
use auto_options_call_debit.Knowledge.{Delivery}
use auto_options_call_debit.Knowledge.Observations.{
  deliver, put_assessment, AssessmentRecord, ObservationLedger, record_delivery,
}
use auto_options_call_debit.Runtime.Memory.Loops.{deliver_each, assess_each}
use auto_options_call_debit.Common.Outcome.{Error, Result, err, ok}
use auto_options_call_debit.Common.{ℕ}

module _ {A : Type 0} where
  pub append_nil : (xs : List A) → xs ++ [] ≡ xs
  append_nil [] = refl
  append_nil (x ∷ xs) = ap (λ (t : List A). x ∷ t) (append_nil xs)

  append_assoc : (xs ys zs : List A) → (xs ++ ys) ++ zs ≡ xs ++ (ys ++ zs)
  append_assoc [] ys zs = refl
  append_assoc (x ∷ xs) ys zs = ap (λ (t : List A). x ∷ t) (append_assoc xs ys zs)

pub both_empty : {A : Type 0} → (xs ys : List A) → xs ≡ [] → ys ≡ [] → xs ++ ys ≡ []
both_empty {A = A} xs ys h k = ap (λ (t : List A). t ++ ys) h ∙ k

-- Whether a list has an element
abbrev pub any : {A : Type 0} → List A → Bool
any [] = false
any (x ∷ xs) = true

module _ {J : Type 0} where
  abbrev pub grow :
      List Delivery → List AssessmentRecord → ObservationLedger J → ObservationLedger J
  grow ds rs led = record led {
    deliveries = led.deliveries ++ ds;
    assessments = led.assessments ++ rs;
  }

  pub grow_nothing : (led : ObservationLedger J) → grow [] [] led ≡ led
  grow_nothing led =
      ap (λ (t : List Delivery). record led { deliveries = t; assessments = led.assessments ++ [] })
        (append_nil led.deliveries)
      ∙ ap (λ (t : List AssessmentRecord). record led { assessments = t })
          (append_nil led.assessments)

  pub grow-grow :
      (ds ds' : List Delivery) (rs rs' : List AssessmentRecord) (led : ObservationLedger J)
      → grow ds' rs' (grow ds rs led) ≡ grow (ds ++ ds') (rs ++ rs') led
  grow-grow ds ds' rs rs' led =
      ap
        (λ (t : List Delivery). record led {
          deliveries = t;
          assessments = (led.assessments ++ rs) ++ rs';
        })
        (append_assoc led.deliveries ds ds')
      ∙ ap
          (λ (t : List AssessmentRecord). record led {
            deliveries = led.deliveries ++ (ds ++ ds');
            assessments = t;
          })
          (append_assoc led.assessments rs rs')

  -- What an action adds, whether it returns or raises: to the deliveries where the first test holds, to the
  -- assessments where the second one does
  abbrev pub Added : Bool → Bool → ObservationLedger J → ObservationLedger J → Type 0
  Added d r led next =
      (ds : List Delivery) × (rs : List AssessmentRecord) × (d ≡ false → ds ≡ [])
      × (r ≡ false → rs ≡ [])
      × (next ≡ grow ds rs led)

  unfoldable pub Grows : {A : Type 0} → Bool → Bool → Action (ObservationLedger J) A → Type 0
  Grows d r act = (led : ObservationLedger J) → Added d r led (act led).1

module _ (J : Type 0) where
  same-Added : (d r : Bool) (led : ObservationLedger J) → Added d r led led
  same-Added d r led = ([], [], λ _. refl, λ _. refl, sym (grow_nothing led))

  twice-Added :
      (d r : Bool) (led mid next : ObservationLedger J)
      → Added d r led mid
      → Added d r mid next
      → Added d r led next
  twice-Added d r led mid next (ds, rs, nd, nr, first) (ds', rs', nd', nr', second) = (
    ds ++ ds',
    rs ++ rs',
    λ off. both_empty ds ds' (nd off) (nd' off),
    λ off. both_empty rs rs' (nr off) (nr' off),
    second ∙ ap (grow ds' rs') first ∙ grow-grow ds ds' rs rs' led,
  )

  module _ {A B : Type 0} where
    after :
        (d r : Bool) (f : A → Action (ObservationLedger J) B)
        → ((a : A) → Grows {J = J} d r (f a))
        → (led : ObservationLedger J) (p : Result A × ObservationLedger J) → Added d r led p.1
        → Added d r led (((λ (_ : ObservationLedger J). p) >>= f) p.1).1
    unfolding Grows
    after d r f g led (ok a, mid) h = twice-Added d r led mid _ h (g a mid)
    after d r f g led (err x, mid) h = h

    bind-Grows :
        (d r : Bool) (w : Action (ObservationLedger J) A) (f : A → Action (ObservationLedger J) B)
        → Grows {J = J} d r w
        → ((a : A) → Grows {J = J} d r (f a))
        → Grows {J = J} d r (w >>= f)
    unfolding Grows
    bind-Grows d r w f h g led = after d r f g led (w led) (h led)

  pure-Grows : {A : Type 0} → (d r : Bool) (a : A) → Grows {J = J} d r (pure a)
  unfolding Grows
  pure-Grows d r a led = same-Added d r led

  lift-Grows : {A : Type 0} → (d r : Bool) (m : Result A) → Grows {J = J} d r (lift m)
  unfolding Grows
  lift-Grows d r m led = same-Added d r led

  gets-Grows :
      {A : Type 0} → (d r : Bool) (f : ObservationLedger J → A) → Grows {J = J} d r (gets f)
  unfolding Grows
  gets-Grows d r f led = same-Added d r led

  need-Grows : {A : Type 0} → (d r : Bool) (m : Option A) (x : Error) → Grows {J = J} d r (need m x)
  unfolding Grows
  need-Grows d r none x led = same-Added d r led
  need-Grows d r (some a) x led = same-Added d r led

  guard-Grows : (d r : Bool) (test : Bool) (x : Error) → Grows {J = J} d r (guard_not test x)
  unfolding Grows
  guard-Grows d r true x led = same-Added d r led
  guard-Grows d r false x led = same-Added d r led

  if-Grows :
      {A : Type 0}
      → (d r : Bool) (test : Bool) (w v : Action (ObservationLedger J) A) → Grows {J = J} d r w
      → Grows {J = J} d r v
      → Grows {J = J} d r (if test then w else v)
  unfolding Grows
  if-Grows d r true w v h k = h
  if-Grows d r false w v h k = k

  record_delivery-Grows :
      (r : Bool) (found : Option Delivery) (new : Delivery)
      → Grows {J = J} true r (record_delivery found new)
  unfolding Grows record_delivery
  record_delivery-Grows r (some d) new led = same-Added true r led
  record_delivery-Grows r none new led = (
    new ∷ [],
    [],
    λ off. cc,
    λ _. refl,
    ap
        (λ (t : List AssessmentRecord). record led {
          deliveries = led.deliveries ++ new ∷ [];
          assessments = t;
        })
        (sym (append_nil led.assessments)),
  )

  assessment-Grows :
      (d : Bool) (rec : AssessmentRecord)
      → Grows {J = J} d true (modify (λ s. record s { assessments = s.assessments ++ rec ∷ [] }))
  unfolding Grows
  assessment-Grows d rec led = (
    [],
    rec ∷ [],
    λ _. refl,
    λ off. cc,
    ap
        (λ (t : List Delivery). record led {
          deliveries = t;
          assessments = led.assessments ++ rec ∷ [];
        })
        (sym (append_nil led.deliveries)),
  )

  ruleset growing = (
    bind-Grows, pure-Grows, lift-Grows, gets-Grows, need-Grows, guard-Grows, if-Grows,
    record_delivery-Grows, assessment-Grows,
  )

  deliver-Grows :
      (r : Bool) (run branch actor_id atom_id : ℕ) (t : Datetime)
      → Grows {J = J} true r (deliver run branch actor_id atom_id t)
  unfolding deliver
  deliver-Grows r run branch actor_id atom_id t = search growing depth 30

  put_assessment-Grows :
      (d : Bool) (rec : AssessmentRecord) → Grows {J = J} d true (put_assessment rec)
  unfolding put_assessment
  put_assessment-Grows d rec = search growing depth 30

  deliver_all-Grows : (ds : List Delivery) → Grows {J = J} true false (deliver_each ds)
  unfolding deliver_each
  deliver_all-Grows [] = search growing
  deliver_all-Grows (d ∷ ds) = search (growing, deliver-Grows, deliver_all-Grows ds) depth 30

  assess_all-Grows : (rs : List AssessmentRecord) → Grows {J = J} false true (assess_each rs)
  unfolding assess_each
  assess_all-Grows [] = search growing
  assess_all-Grows (r ∷ rs) = search (growing, put_assessment-Grows, assess_all-Grows rs) depth 30

  pub deliver_each-Grows : (ds : List Delivery) → Grows {J = J} (any ds) false (deliver_each ds)
  unfolding deliver_each
  deliver_each-Grows [] = pure-Grows false false tt
  deliver_each-Grows (d ∷ ds) = deliver_all-Grows (d ∷ ds)

  pub assess_each-Grows :
      (rs : List AssessmentRecord) → Grows {J = J} false (any rs) (assess_each rs)
  unfolding assess_each
  assess_each-Grows [] = pure-Grows false false tt
  assess_each-Grows (r ∷ rs) = assess_all-Grows (r ∷ rs)
