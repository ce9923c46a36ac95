-- ===== src/Runtime/Memory/Refines.antt =====
-- The undo list makes the transactions of the in-memory store atomic (persistence/runtime.py).
use auto_options_call_debit.Runtime.Memory.{
  Outcome, rollback, Memory, MemoryTransaction, Block, Backing, done, fails, calls, reads,
}
use auto_options_call_debit.Runtime.Memory.Calls.{write, proceed, run_body, closed, transaction}
use auto_options_call_debit.Common.{◌≡◌, refl, ap, ◌∙◌, Bool, []}
use auto_options_call_debit.Common.Outcome.{◌>>=◌, Result, err, ok}
use auto_options_call_debit.Runtime.Memory.Atomic.{written, computed, all_or_none, atomically}
use auto_options_call_debit.Runtime.Memory.Writes.{Matches, write-Matches}
use mathlib.Core.Path.{subst}

module _ {Row P J V : Type 0} where
  -- The body comes to what the atomic one does, and its undo list leads back to the start.
  unfoldable Follows :
      MemoryTransaction Row P J
      → Result V × MemoryTransaction Row P J
      → Result (V × Memory Row P J)
      → Type 0
  Follows tx (err e, after) plain =
      (rollback after.undo after.memory ≡ rollback tx.undo tx.memory) × (plain ≡ err e)
  Follows tx (ok v, after) plain = plain ≡ ok (v, after.memory)

  earlier :
      (tx after : MemoryTransaction Row P J)
      → rollback after.undo after.memory ≡ rollback tx.undo tx.memory
      → (r : Result V × MemoryTransaction Row P J) (plain : Result (V × Memory Row P J))
      → Follows after r plain
      → Follows tx r plain
  unfolding Follows
  earlier tx after back (err e, last) plain (later, raised) = (later ∙ back, raised)
  earlier tx after back (ok v, last) plain returned = returned

  proceed-Follows :
      (tx : MemoryTransaction Row P J) (outcome : Outcome Row P J) (first : Result (Memory Row P J))
      (rest : MemoryTransaction Row P J → Result V × MemoryTransaction Row P J)
      (plain : Bool → Memory Row P J → Result (V × Memory Row P J))
      → Matches tx outcome first
      → ((later : MemoryTransaction Row P J)
          → Follows later (rest later) (plain later.readonly later.memory))
      → Follows tx (proceed outcome rest) (first >>= plain tx.readonly)
  unfolding Matches proceed Follows
  proceed-Follows tx (err e, after) first rest plain (back, raised) deeper = rw raised (back, refl)
  proceed-Follows tx (ok _, after) first rest plain (back, returned, same) deeper = rw returned (
      subst (λ (ro : Bool). Follows tx (rest after) (plain ro after.memory)) same
        (earlier tx after back (rest after) (plain after.readonly after.memory) (deeper after)))

  run_body-Follows :
      (b : Backing Row P) (body : Block Row P J V) (tx : MemoryTransaction Row P J)
      → Follows tx (run_body b body tx) (computed b tx.readonly body tx.memory)
  unfolding run_body computed Follows
  run_body-Follows b (done v) tx = refl
  run_body-Follows b (fails e) tx = (refl, refl)
  run_body-Follows b (calls w rest) tx =
      proceed-Follows tx (write b w tx) (written b tx.readonly w tx.memory) (run_body b rest)
        (λ readonly next. computed b readonly rest next) (write-Matches b w tx)
        (run_body-Follows b rest)
  run_body-Follows b (reads rest) tx = run_body-Follows b (rest tx.memory) tx

  closed-Follows :
      (tx : MemoryTransaction Row P J) (r : Result V × MemoryTransaction Row P J)
      (plain : Result (V × Memory Row P J))
      → Follows tx r plain
      → closed r ≡ all_or_none (rollback tx.undo tx.memory) plain
  unfolding Follows closed all_or_none
  closed-Follows tx (err e, after) plain (back, raised) =
      rw raised (ap (λ (m : Memory Row P J). (err e, m)) back)
  closed-Follows tx (ok v, after) plain returned = rw returned refl

  -- A transaction of the in-memory store is atomic, whatever its body reads and calls: the store
  -- afterwards is the one that the body computes if it returns, and the one before it if anything
  -- raised, with the rows and their index, the journal, the events of its run, the outbox, and the atoms,
  -- deliveries and assessments of the ledger of observations. The payloads of the journal, which are left
  -- out, are taken to encode.
  pub transaction_atomic :
      (b : Backing Row P) (readonly : Bool) (body : Block Row P J V) (m : Memory Row P J)
      → transaction b readonly body m ≡ atomically b readonly body m
  unfolding transaction atomically rollback
  transaction_atomic b readonly body m =
      closed-Follows (record { readonly = readonly; undo = []; memory = m }) _ _
        (run_body-Follows b body (record { readonly = readonly; undo = []; memory = m }))
