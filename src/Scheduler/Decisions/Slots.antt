-- ===== src/Scheduler/Decisions/Slots.antt =====
-- How far an allocation gets, and what it emits.
use mathlib.Core.Path.{subst₂}
use auto_options_call_debit.Domain.State.{Agent}
use auto_options_call_debit.Common.{◌+◌, String, ◌∙◌, none, some, List, [], ◌∷◌, ◌++◌}
use auto_options_call_debit.Common.Action.{bind_ok}
use auto_options_call_debit.Domain.State.{seeking_entry, spread_role}
use auto_options_call_debit.Ledger.Event.{Body, Event, reservation_held, agent_created}
use auto_options_call_debit.Scheduler.{next_event, emit, new_id}
use auto_options_call_debit.Common.{ltb_ℤ, zero, sym, ap, arith, Bool-cases}
use auto_options_call_debit.Domain.Contract.{Direction}
use auto_options_call_debit.Scheduler.Decisions.{allocate_side, hold_one}
use auto_options_call_debit.Common.Action.{pure, ◌>>=◌}
use auto_options_call_debit.Common.{ℤ, ◌<ℤ◌, ℕ, suc, ◌≤◌, ◌≡◌, refl, ◌⊎◌, inl, inr}
use auto_options_call_debit.Common.Outcome.{Result, ok}
use auto_options_call_debit.Accounting.{available}
use auto_options_call_debit.Scheduler.{Engine}
use auto_options_call_debit.Scheduler.Decisions.{Desk}

same_number : (j k : ℕ) → ◌≡◌ {A = Result ℕ} (ok j) (ok k) → j ≡ k
same_number j k h = cc

-- What the events of a buffer say.
unfoldable pub payloads : List Event → List Body
payloads [] = []
payloads (ev ∷ evs) = ev.body ∷ payloads evs

payloads-append :
    (evs : List Event) (ev : Event) → payloads (evs ++ ev ∷ []) ≡ payloads evs ++ ev.body ∷ []
unfolding payloads
payloads-append [] ev = refl
payloads-append (e ∷ evs) ev = ap (λ (b : List Body). e.body ∷ b) (payloads-append evs ev)

join_nothing : (xs : List Body) → xs ++ [] ≡ xs
join_nothing [] = refl
join_nothing (x ∷ xs) = ap (λ (b : List Body). x ∷ b) (join_nothing xs)

join_all : (xs ys zs : List Body) → (xs ++ ys) ++ zs ≡ xs ++ (ys ++ zs)
join_all [] ys zs = refl
join_all (x ∷ xs) ys zs = ap (λ (b : List Body). x ∷ b) (join_all xs ys zs)

join_two : (xs : List Body) (y z : Body) → (xs ++ y ∷ []) ++ z ∷ [] ≡ xs ++ y ∷ z ∷ []
join_two xs y z = join_all xs (y ∷ []) (z ∷ [])

module _ (m : Desk) where
  -- All of the slots are held, or the cash is short for one more.
  abbrev pub HeldOrShort : ℤ → ℕ → ℕ → Engine → Type 0
  HeldOrShort reserve n k e = (k ≡ n) ⊎ ((suc k ≤ n) × (available e.state.account <ℤ reserve))

  -- The agent of a slot, given the last identifier before it
  unfoldable pub slot_agent : ℕ → Direction → ℕ → Agent
  slot_agent t direction last = record {
    agent_id = last + 1 + 1;
    role = spread_role;
    direction = some direction;
    state = seeking_entry;
    created_at_utc = t;
    next_review_at_utc = m.next_grid t;
    reservation_id = some (last + 1);
    position_id = none;
  }

  abbrev pub slot : ℕ → Direction → ℤ → ℕ → Body
  slot t direction reserve last =
      reservation_held (last + 1) (last + 1 + 1) direction reserve t (m.session_close t)

  -- The payloads of so many slots: each a reservation and its agent, with the next two identifiers.
  unfoldable pub slots : ℕ → Direction → ℤ → ℕ → ℕ → List Body
  slots t direction reserve zero last = []
  slots t direction reserve (suc k) last =
      slot t direction reserve last
      ∷ agent_created (slot_agent t direction last)
      ∷ slots t direction reserve k (last + 1 + 1)

  same_outcome :
      (j k : ℕ) (f e : Engine) → ◌≡◌ {A = Result ℕ × Engine} (ok j, f) (ok k, e) → (j ≡ k) × (f ≡ e)
  same_outcome j k f e h = (
    same_number j k (ap (λ (p : Result ℕ × Engine). p.0) h),
    ap (λ (p : Result ℕ × Engine). p.1) h,
  )

  emitted :
      (t : ℕ) (phase : String) (body : Body) (e f : Engine) (u : Unit {0})
      → emit t phase body e ≡ (ok u, f)
      → (payloads f.buffer ≡ payloads e.buffer ++ body ∷ []) × (f.id_counter ≡ e.id_counter)
  unfolding emit next_event
  emitted t phase body e f u h =
      let last : (emit t phase body e).1 ≡ f = ap (λ (p : Result (Unit {0}) × Engine). p.1) h in
      (
        ap (λ (g : Engine). payloads g.buffer) (sym last)
            ∙ payloads-append e.buffer (next_event e.state t phase body),
        ap (λ (g : Engine). g.id_counter) (sym last),
      )

  hold_one_ok :
      (t : ℕ) (d : Direction) (reserve : ℤ) (start f : Engine) (u : Unit {0})
      → hold_one m t d reserve start ≡ (ok u, f)
      → (payloads f.buffer ≡ payloads start.buffer ++ slots t d reserve 1 start.id_counter)
        × (f.id_counter ≡ start.id_counter + 1 + 1)
  unfolding hold_one new_id slots slot_agent
  hold_one_ok t d reserve start f u h =
      let numbered : Engine = record start { id_counter = start.id_counter + 1 + 1 } in
      let held : Body = slot t d reserve start.id_counter in
      let agent : Body = agent_created (slot_agent t d start.id_counter) in
      let (v, g, first, rest) =
        bind_ok (emit t "RESERVATION" held numbered) (λ _. emit t "AGENT" agent) numbered f u h in
      let (one, kept) = emitted t "RESERVATION" held numbered g v first in
      let (two, last) = emitted t "AGENT" agent g f u rest in
      (
        two
            ∙ ap (λ (b : List Body). b ++ agent ∷ []) one
            ∙ join_two (payloads start.buffer) held agent,
        last ∙ kept,
      )

  -- What an allocation of `k` slots out of `n` leaves
  abbrev pub Allocated : ℕ → Direction → ℤ → ℕ → Engine → ℕ → Engine → Type 0
  Allocated t d reserve n start k e =
      HeldOrShort reserve n k e
      × (payloads e.buffer ≡ payloads start.buffer ++ slots t d reserve k start.id_counter)
      × (e.id_counter ≡ start.id_counter + (k + k))

  nothing_held :
      (t : ℕ) (d : Direction) (reserve : ℤ) (n : ℕ) (start : Engine)
      → HeldOrShort reserve n 0 start
      → Allocated t d reserve n start 0 start
  unfolding slots
  nothing_held t d reserve n start far =
      (far, sym (join_nothing (payloads start.buffer)), omega arith)

  next_slot :
      (reserve : ℤ) (n j : ℕ) (f : Engine)
      → HeldOrShort reserve n j f
      → HeldOrShort reserve (suc n) (suc j) f
  next_slot reserve n j f (inl all) = inl (ap suc all)
  next_slot reserve n j f (inr (some_left, short)) = inr (omega (arith, some_left), short)

  one_held :
      (t : ℕ) (d : Direction) (reserve : ℤ) (n j : ℕ) (start f e : Engine) (u : Unit {0})
      → hold_one m t d reserve start ≡ (ok u, f)
      → Allocated t d reserve n f j e
      → Allocated t d reserve (suc n) start (suc j) e
  unfolding slots
  one_held t d reserve n j start f e u held (far, emitted_rest, counted) =
      let (emitted_one, numbered) = hold_one_ok t d reserve start f u held in
      (
        next_slot reserve n j e far,
        emitted_rest
            ∙ ap (λ (c : ℕ). payloads f.buffer ++ slots t d reserve j c) numbered
            ∙ ap (λ (b : List Body). b ++ slots t d reserve j (start.id_counter + 1 + 1))
                emitted_one
            ∙ join_all (payloads start.buffer) (slots t d reserve 1 start.id_counter)
                (slots t d reserve j (start.id_counter + 1 + 1)),
        omega (arith, counted, numbered),
      )

  -- An allocation of one side that does not raise returns how many slots it holds: all that it was asked
  -- for, or fewer where the available capital is now below the reserve of one more. It has emitted
  -- exactly the reservations and the agents of that many slots, of that direction and reserve, with fresh
  -- identifiers in order, and it has used up two identifiers for each.
  pub allocate_side-Allocated :
      (t : ℕ) (d : Direction) (reserve : ℤ) (n : ℕ) (start : Engine) (k : ℕ) (e : Engine)
      → allocate_side m t d reserve n start ≡ (ok k, e)
      → Allocated t d reserve n start k e
  unfolding allocate_side
  allocate_side-Allocated t d reserve Prim.Native.Nat.zero start k e h =
      let (number, engine) = same_outcome 0 k start e h in
      subst₂ (λ x g. Allocated t d reserve 0 start x g) number engine
        (nothing_held t d reserve 0 start (inl refl))
  allocate_side-Allocated t d reserve (suc n) start k e h =
      elim (Bool-cases (ltb_ℤ (available start.state.account) reserve)) [
        | inl short ↦
            let (number, engine) = same_outcome 0 k start e (rw short at h) in
            subst₂ (λ x g. Allocated t d reserve (suc n) start x g) number engine
              (nothing_held t d reserve (suc n) start (inr (omega arith, ground (arith, short))))
        | inr enough ↦
            let (u, f, held, rest) =
              bind_ok (hold_one m t d reserve start)
                (λ _. allocate_side m t d reserve n >>= λ j. pure (suc j)) start e k
                (rw enough at h) in
            let (j, g, others, last) =
              bind_ok (allocate_side m t d reserve n f) (λ j. pure (suc j)) f e k rest in
            let (number, engine) = same_outcome (suc j) k g e last in
            subst₂ (λ x z. Allocated t d reserve (suc n) start x z) number engine
              (one_held t d reserve n j start f g u held
                (allocate_side-Allocated t d reserve n f j g others))
      ]
