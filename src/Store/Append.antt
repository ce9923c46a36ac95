-- ===== src/Store/Append.antt =====
-- Appending a batch keeps the chain whole, or does nothing.
use auto_options_call_debit.Common.{sym, ap, ◌∙◌}
use auto_options_call_debit.Common.{◌≢◌, [], ◌++◌, ℕ, ◌+◌, ◌≡◌, refl, true, List, ◌∷◌, arith}
use auto_options_call_debit.Common.Lists.{length}
use auto_options_call_debit.Common.Outcome.{Error, err, ok, ◌>>=◌, >>=-eq-ok}
use auto_options_call_debit.Common.Dict.{Dict, insert, lookup-insert_self, lookup-insert_ne}
use auto_options_call_debit.Store.{
  append_batch, tip, log_of, link, tip_from, with_hashes, genesis, hash_eq, payload_hash,
  event_hash, verify, Hash, Linked, Hashing, unset, digest, ok,
}

hash_eq_refl : (a : Hash) → hash_eq a a ≡ true
unfolding hash_eq
hash_eq_refl unset = refl
hash_eq_refl genesis = refl
hash_eq_refl (digest n) = ground arith

hash_eq_of : (a b : Hash) → a ≡ b → hash_eq a b ≡ true
hash_eq_of a b p = rw p (hash_eq_refl b)

hash_eq_sound : (a b : Hash) → hash_eq a b ≡ true → a ≡ b
unfolding hash_eq
hash_eq_sound a b h = ground arith

pub log-insert_self :
    {P : Type 0} (run : ℕ) (log : List (Linked P)) (store : Dict (List (Linked P)))
    → log_of run (insert run log store) ≡ log
unfolding log_of
log-insert_self run log store = rw (lookup-insert_self run log store, log_of)

log-insert_ne :
    {P : Type 0} (other run : ℕ) (log : List (Linked P)) (store : Dict (List (Linked P)))
    → other ≢ run
    → log_of other (insert run log store) ≡ log_of other store
unfolding log_of
log-insert_ne other run log store ne = rw (lookup-insert_ne other run log store ne, log_of)

module _ {P : Type 0} where
  -- The event without its hashes, which is what the caller of the store gives.
  abbrev pub unhashed : Linked P → Linked P
  unhashed e = record e { payload_hash = unset; previous_hash = unset; event_hash = unset }

  abbrev pub all_unhashed : List (Linked P) → List (Linked P)
  all_unhashed [] = []
  all_unhashed (e ∷ es) = unhashed e ∷ all_unhashed es

module _ {P : Type 0} (h : Hashing P) where
  -- One link of a verified chain.
  pub record IsLink (run index : ℕ) (previous : Hash) (e : Linked P) : Type 0 where
    pub of_run : e.run_id ≡ run
    pub numbered : e.seq ≡ index
    pub follows : e.previous_hash ≡ previous
    pub payload_hashed : e.payload_hash ≡ payload_hash h e.payload
    pub event_hashed : e.event_hash ≡ event_hash h e

  pub verify_cons :
      (run index : ℕ) (previous : Hash) (e : Linked P) (es : List (Linked P))
      → verify h run index previous (e ∷ es) ≡ true
      → IsLink run index previous e × (verify h run (index + 1) e.event_hash es ≡ true)
  unfolding verify
  verify_cons run index previous e es v = ground (
    arith,
    hash_eq_sound e.previous_hash previous,
    hash_eq_sound e.payload_hash (payload_hash h e.payload),
    hash_eq_sound e.event_hash (event_hash h e),
  )

  verify_intro :
      (run index : ℕ) (previous : Hash) (e : Linked P) (es : List (Linked P))
      → IsLink run index previous e
      → verify h run (index + 1) e.event_hash es ≡ true
      → verify h run index previous (e ∷ es) ≡ true
  unfolding verify
  verify_intro run index previous e es l v = ground (
    arith,
    l.of_run,
    l.numbered,
    hash_eq_of e.previous_hash previous l.follows,
    hash_eq_of e.payload_hash (payload_hash h e.payload) l.payload_hashed,
    hash_eq_of e.event_hash (event_hash h e) l.event_hashed,
  )

  -- The numbers of a verified chain run on from the one before it.
  pub verify_seq :
      (run seq : ℕ) (previous : Hash) (es : List (Linked P))
      → verify h run (seq + 1) previous es ≡ true
      → (tip_from (seq, previous) es).0 ≡ seq + length es
  unfolding tip_from
  verify_seq run seq previous [] v = omega arith
  verify_seq run seq previous (e ∷ es) v =
      let (l, rest) = verify_cons run (seq + 1) previous e es v in
      omega (arith, l.numbered, verify_seq run e.seq e.event_hash es (rw l.numbered rest))

  -- Two chains join where the second takes up the number and the hash of the first.
  verify_join :
      (run seq : ℕ) (previous : Hash) (xs ys : List (Linked P))
      → verify h run (seq + 1) previous xs ≡ true
      → verify h run ((tip_from (seq, previous) xs).0 + 1) (tip_from (seq, previous) xs).1 ys ≡ true
      → verify h run (seq + 1) previous (xs ++ ys) ≡ true
  unfolding tip_from
  verify_join run seq previous [] ys v w = w
  verify_join run seq previous (x ∷ xs) ys v w =
      let (l, rest) = verify_cons run (seq + 1) previous x xs v in
      verify_intro run (seq + 1) previous x (xs ++ ys) l
        (rw (← l.numbered) (verify_join run x.seq x.event_hash xs ys (rw l.numbered rest) w))

  with_hashes-IsLink :
      (run seq : ℕ) (previous : Hash) (e : Linked P)
      → e.run_id ≡ run
      → e.seq ≡ seq + 1
      → IsLink run (seq + 1) previous (with_hashes h e (payload_hash h e.payload) previous)
  unfolding with_hashes event_hash
  with_hashes-IsLink run seq previous e p q = record {
    of_run = p;
    numbered = q;
    follows = refl;
    payload_hashed = refl;
    event_hashed = refl;
  }

  -- The event as the store links it.
  abbrev pub linked : Hash → Linked P → Linked P
  linked previous e = with_hashes h e (payload_hash h e.payload) previous

  link_step :
      (run seq : ℕ) (previous : Hash) (e : Linked P) (es : List (Linked P)) {cs : List (Linked P)}
      → link h run seq previous (e ∷ es) ≡ ok cs
      → (e.run_id ≡ run)
        × (e.seq ≡ seq + 1)
        × ((link h run e.seq (linked previous e).event_hash es >>= λ rest.
              ok (linked previous e ∷ rest))
            ≡ ok cs)
  unfolding link
  link_step run seq previous e es l = ground arith

  pub link_cons :
      (run seq : ℕ) (previous : Hash) (e : Linked P) (es : List (Linked P)) {cs : List (Linked P)}
      → link h run seq previous (e ∷ es) ≡ ok cs
      → (e.run_id ≡ run)
        × (e.seq ≡ seq + 1)
        × (rest : List (Linked P)) × (link h run e.seq (linked previous e).event_hash es ≡ ok rest)
        × (cs ≡ linked previous e ∷ rest)
  link_cons run seq previous e es l =
      let (p, q, bind) = link_step run seq previous e es l in
      let (rest, r, k) = >>=-eq-ok (link h run e.seq (linked previous e).event_hash es) _ bind in
      (p, q, rest, r, cc k)

  pub nil_of :
      (run seq : ℕ) (previous : Hash) {cs : List (Linked P)}
      → link h run seq previous [] ≡ ok cs
      → [] ≡ cs
  unfolding link
  nil_of run seq previous l = cc

  -- What a batch commits is a verified chain.
  pub link-verify :
      (run seq : ℕ) (previous : Hash) (es : List (Linked P)) {cs : List (Linked P)}
      → link h run seq previous es ≡ ok cs
      → verify h run (seq + 1) previous cs ≡ true
  link-verify run seq previous [] {cs} l = rw (← nil_of run seq previous l) (unfold verify in refl)
  link-verify run seq previous (e ∷ es) {cs} l =
      let (p, q, rest, r, k) = link_cons run seq previous e es l in
      rw k (
        verify_intro run (seq + 1) previous (linked previous e) rest
          (with_hashes-IsLink run seq previous e p q)
          (rw (← q) (link-verify run e.seq (linked previous e).event_hash es r)))

  -- Linking keeps each event of a batch, in its order, and adds none.
  pub link-unhashed :
      (run seq : ℕ) (previous : Hash) (es : List (Linked P)) {cs : List (Linked P)}
      → link h run seq previous es ≡ ok cs
      → all_unhashed cs ≡ all_unhashed es
  unfolding with_hashes
  link-unhashed run seq previous [] {cs} l = ap all_unhashed (sym (nil_of run seq previous l))
  link-unhashed run seq previous (e ∷ es) {cs} l =
      let (p, q, rest, r, k) = link_cons run seq previous e es l in
      ap all_unhashed k
      ∙ ap (λ (t : List (Linked P)). unhashed e ∷ t)
          (link-unhashed run e.seq (linked previous e).event_hash es r)

  -- The chain of a run, from its start.
  abbrev pub IsChain : ℕ → Dict (List (Linked P)) → Type 0
  IsChain run store = verify h run 1 genesis (log_of run store) ≡ true

  pub committed_cases :
      (e : Linked P) (es : List (Linked P)) (expected : ℕ) (store : Dict (List (Linked P)))
      {cs : List (Linked P)}
      → (append_batch h (e ∷ es) expected store).0 ≡ ok cs
      → (expected ≡ (tip store e.run_id).0)
        × (link h e.run_id (tip store e.run_id).0 (tip store e.run_id).1 (e ∷ es) ≡ ok cs)
        × ((append_batch h (e ∷ es) expected store).1
            ≡ insert e.run_id (log_of e.run_id store ++ cs) store)
  unfolding append_batch
  committed_cases e es expected store a = ground arith

  pub append_nothing :
      (expected : ℕ) (store : Dict (List (Linked P)))
      → append_batch h [] expected store ≡ (ok [], store)
  unfolding append_batch
  append_nothing expected store = refl

  -- A batch that is refused leaves the whole store as it was.
  pub append_atomic :
      (es : List (Linked P)) (expected : ℕ) (store : Dict (List (Linked P))) {x : Error}
      → (append_batch h es expected store).0 ≡ err x
      → (append_batch h es expected store).1 ≡ store
  unfolding append_batch
  append_atomic [] expected store a = cc
  append_atomic (e ∷ es) expected store a = ground arith

  -- The log of the batch's run is a verified chain, and the batch, which is not empty, is accepted: then
  -- it was given for the log's length. What is added at the end of that log are the events of the
  -- batch, each once and in their order, with their hashes set and nothing else changed. The logs of the
  -- other runs stay, and the log is a verified chain again.
  pub append-IsChain :
      (e : Linked P) (es : List (Linked P)) (expected : ℕ) (store : Dict (List (Linked P)))
      {cs : List (Linked P)}
      → IsChain e.run_id store
      → (append_batch h (e ∷ es) expected store).0 ≡ ok cs
      → let after = (append_batch h (e ∷ es) expected store).1 in
        (expected ≡ length (log_of e.run_id store))
        × (log_of e.run_id after ≡ log_of e.run_id store ++ cs)
        × (all_unhashed cs ≡ all_unhashed (e ∷ es))
        × ((run : ℕ) → run ≢ e.run_id → log_of run after ≡ log_of run store)
        × IsChain e.run_id after
  append-IsChain e es expected store {cs} chain a =
      let run = e.run_id in
      let log = log_of run store in
      let (at_tip, linked_ok, stored) = committed_cases e es expected store a in
      let seq_ok = verify_seq run 0 genesis log chain in
      (
        unfold tip in omega (arith, at_tip, seq_ok),
        rw stored (log-insert_self run (log ++ cs) store),
        link-unhashed run (tip store run).0 (tip store run).1 (e ∷ es) linked_ok,
        λ other ne. rw stored (log-insert_ne other run (log ++ cs) store ne),
        rw (stored, log-insert_self run (log ++ cs) store)
            (verify_join run 0 genesis log cs chain (
              unfold tip in
              link-verify run (tip store run).0 (tip store run).1 (e ∷ es) linked_ok)),
      )
