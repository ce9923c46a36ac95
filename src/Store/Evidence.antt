-- ===== src/Store/Evidence.antt =====
-- Whether a stored log can be altered under a known tip.
use auto_options_call_debit.Common.{[], ◌∷◌, List, true, arith, refl, ◌+◌, ℕ, ◌≡◌, sym, ap, ◌∙◌}
use auto_options_call_debit.Common.Lists.{length}
use auto_options_call_debit.Common.Lists.{length, All}
use auto_options_call_debit.Store.{
  tip_from, verify, genesis, envelope, payload_hash, event_hash, Hash, Envelope, Linked, Hashing,
  digest,
}
use auto_options_call_debit.Store.Append.{verify_seq, verify_cons, IsLink}

-- What SHA-256 over the canonical texts is relied on for, of two events: inputs that differ have
-- digests that differ.
pub record NoCollision {P : Type 0} (h : Hashing P) (e f : Linked P) : Type 0 where
  pub payloads : h.payload_digest e.payload ≡ h.payload_digest f.payload → e.payload ≡ f.payload
  pub envelopes :
      h.envelope_digest (envelope e) ≡ h.envelope_digest (envelope f) → envelope e ≡ envelope f

-- No event of the one log collides with an event of the other.
abbrev pub IsCollisionFree : {P : Type 0} → Hashing P → List (Linked P) → List (Linked P) → Type 0
IsCollisionFree h xs ys = All (λ x. All (λ y. NoCollision h x y) ys) xs

IsCollisionFree-tails :
    {P : Type 0} (h : Hashing P) (y : Linked P) (xs ys : List (Linked P))
    → IsCollisionFree h xs (y ∷ ys)
    → IsCollisionFree h xs ys
IsCollisionFree-tails h y [] ys c = tt
IsCollisionFree-tails h y (x ∷ xs) ys c = (c.0.1, IsCollisionFree-tails h y xs ys c.1)

digest_inj : (a b : ℕ) → digest a ≡ digest b → a ≡ b
digest_inj a b e = cc

module _ {P : Type 0} (h : Hashing P) where
  same_event :
      (run i j : ℕ) (p q : Hash) (e f : Linked P)
      → NoCollision h e f
      → IsLink h run i p e
      → IsLink h run j q f
      → e.event_hash ≡ f.event_hash
      → (e ≡ f) × (p ≡ q)
  unfolding event_hash payload_hash
  same_event run i j p q e f free a b eq =
      let env = free.envelopes (digest_inj _ _ (sym a.event_hashed ∙ eq ∙ b.event_hashed)) in
      let pay = free.payloads (
        digest_inj _ _
          (sym a.payload_hashed ∙ ap (λ (v : Envelope). v.payload_hash) env ∙ b.payload_hashed)) in
      (cc (env, pay, eq), sym a.follows ∙ ap (λ (v : Envelope). v.previous_hash) env ∙ b.follows)

  same_chain :
      (run i j m n : ℕ) (p q : Hash) (xs ys : List (Linked P))
      → IsCollisionFree h xs ys
      → verify h run i p xs ≡ true
      → verify h run j q ys ≡ true
      → length xs ≡ length ys
      → (tip_from (m, p) xs).1 ≡ (tip_from (n, q) ys).1
      → (xs ≡ ys) × (p ≡ q)
  unfolding tip_from
  same_chain run i j m n p q [] [] c v w l e = (refl, e)
  same_chain run i j m n p q [] (y ∷ ys) c v w l e = absurd (omega arith)
  same_chain run i j m n p q (x ∷ xs) [] c v w l e = absurd (omega arith)
  same_chain run i j m n p q (x ∷ xs) (y ∷ ys) c v w l e =
      let (a, v') = verify_cons h run i p x xs v in
      let (b, w') = verify_cons h run j q y ys w in
      let (rest, hash) =
        same_chain run (i + 1) (j + 1) x.seq y.seq x.event_hash y.event_hash xs ys
          (IsCollisionFree-tails h y xs ys c.1) v' w' (omega (arith, l)) e in
      let (head, previous) = same_event run i j p q x y c.0.0 a b hash in
      (cc (head, rest), previous)

  -- Two logs of a run that pass the check on resume and have the same tip are the same log, event by
  -- event, if no event of the one collides with an event of the other under the digests.
  pub tip_determines_log :
      (run : ℕ) (xs ys : List (Linked P))
      → IsCollisionFree h xs ys
      → verify h run 1 genesis xs ≡ true
      → verify h run 1 genesis ys ≡ true
      → tip_from (0, genesis) xs ≡ tip_from (0, genesis) ys
      → xs ≡ ys
  tip_determines_log run xs ys c v w e =
      (same_chain run 1 1 0 0 genesis genesis xs ys c v w
        (omega (
          arith,
          verify_seq h run 0 genesis xs v,
          verify_seq h run 0 genesis ys w,
          ap (λ (t : ℕ × Hash). t.0) e,
        ))
        (ap (λ (t : ℕ × Hash). t.1) e)).0
