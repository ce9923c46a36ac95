-- ===== src/Runtime/Memory/Undone.antt =====
-- What each entry of the undo list takes back (persistence/runtime.py).
use auto_options_call_debit.Common.{
  suc, String, ◌≡◌, refl, sym, ap, ◌∙◌, inl, inr, none, some, List, [], ◌∷◌, ◌++◌, arith,
  Bool-cases,
}
use auto_options_call_debit.Common.Lists.{length}
use auto_options_call_debit.Runtime.Memory.{
  Key, key_eq, position_of, without_key, row_at, set_at, without_last, cut, replaced, extended,
  shortened, table, set_table, undo_one, TableName, Table, Memory, put_back, take_off, pop_journal,
  cut_events, cut_outbox,
}
use auto_options_call_debit.Runtime.Memory.{
  runtime_runs, runtime_decisions, runtime_attempts, runtime_barriers,
}
use auto_options_call_debit.Common.{ℕ, zero}
use auto_options_call_debit.Common.{true, false}

module _ {A : Type 0} where
  pub cut-append : (xs ys : List A) → cut (length xs) (xs ++ ys) ≡ xs
  unfolding cut
  cut-append [] ys = refl
  cut-append (x ∷ xs) ys = ap (λ (t : List A). x ∷ t) (cut-append xs ys)

  cut-length : (xs : List A) → cut (length xs) xs ≡ xs
  unfolding cut
  cut-length [] = refl
  cut-length (x ∷ xs) = ap (λ (t : List A). x ∷ t) (cut-length xs)

  without_last-append : (xs : List A) (a : A) → without_last (xs ++ a ∷ []) ≡ xs
  unfolding without_last
  without_last-append [] a = refl
  without_last-append (x ∷ []) a = refl
  without_last-append (x ∷ y ∷ ys) a = ap (λ (t : List A). x ∷ t) (without_last-append (y ∷ ys) a)

  set_at-set_at :
      (n : ℕ) (xs : List A) (a old : A) → row_at n xs ≡ some old → set_at n old (set_at n a xs) ≡ xs
  unfolding row_at set_at
  set_at-set_at n [] a old h = cc
  set_at-set_at zero (x ∷ xs) a old h = let same : x ≡ old = cc in ap (λ (t : A). t ∷ xs) (sym same)
  set_at-set_at (suc n) (x ∷ xs) a old h = ap (λ (t : List A). x ∷ t) (set_at-set_at n xs a old h)

key_eq_refl : (k : Key) → key_eq k k ≡ true
key_eq_refl k = ground arith

without_key-append :
    (key : Key) (index : List (Key × ℕ)) (n : ℕ)
    → position_of key index ≡ none
    → without_key key (index ++ (key, n) ∷ []) ≡ index
unfolding position_of without_key
without_key-append key [] n absent = rw (key_eq_refl key) refl
without_key-append key (entry ∷ index) n absent = elim (Bool-cases (key_eq entry.0 key)) [
  | inl found ↦ cc
  | inr other ↦
      rw other (
        ap (λ (t : List (Key × ℕ)). entry ∷ t) (without_key-append key index n (after_other other)))
]
  where
    after_other : key_eq entry.0 key ≡ false → position_of key index ≡ none
    after_other other = cc

module _ {Row : Type 0} where
  shortened-extended :
      (key : Key) (row : Row) (t : Table Row)
      → position_of key t.index ≡ none
      → shortened key (extended key row t) ≡ t
  unfolding shortened extended
  shortened-extended key row t absent =
      let rows : without_last (t.rows ++ row ∷ []) ≡ t.rows = without_last-append t.rows row in
      let index : without_key key (t.index ++ (key, length t.rows) ∷ []) ≡ t.index =
        without_key-append key t.index (length t.rows) absent in
      ap
        (λ (r : List Row). record {
          rows = r;
          index = without_key key (t.index ++ (key, length t.rows) ∷ []);
        })
        rows
      ∙ ap (λ (x : List (Key × ℕ)). record t { index = x }) index

module _ {Row P J : Type 0} where
  pub put_back_lem :
      (name : TableName) (p : ℕ) (old row : Row) (m : Memory Row P J)
      → row_at p (table name m).rows ≡ some old
      → undo_one (put_back name p old) (set_table name (replaced p row (table name m)) m) ≡ m
  unfolding undo_one table set_table replaced
  put_back_lem runtime_runs p old row m h =
      ap (λ (r : List Row). record m { runs = record (m.runs) { rows = r } })
        (set_at-set_at p m.runs.rows row old h)
  put_back_lem runtime_decisions p old row m h =
      ap (λ (r : List Row). record m { decisions = record (m.decisions) { rows = r } })
        (set_at-set_at p m.decisions.rows row old h)
  put_back_lem runtime_attempts p old row m h =
      ap (λ (r : List Row). record m { attempts = record (m.attempts) { rows = r } })
        (set_at-set_at p m.attempts.rows row old h)
  put_back_lem runtime_barriers p old row m h =
      ap (λ (r : List Row). record m { barriers = record (m.barriers) { rows = r } })
        (set_at-set_at p m.barriers.rows row old h)

  pub take_off_lem :
      (name : TableName) (key : Key) (row : Row) (m : Memory Row P J)
      → position_of key (table name m).index ≡ none
      → undo_one (take_off name key) (set_table name (extended key row (table name m)) m) ≡ m
  unfolding undo_one table set_table
  take_off_lem runtime_runs key row m h =
      ap (λ (t : Table Row). record m { runs = t }) (shortened-extended key row m.runs h)
  take_off_lem runtime_decisions key row m h =
      ap (λ (t : Table Row). record m { decisions = t }) (shortened-extended key row m.decisions h)
  take_off_lem runtime_attempts key row m h =
      ap (λ (t : Table Row). record m { attempts = t }) (shortened-extended key row m.attempts h)
  take_off_lem runtime_barriers key row m h =
      ap (λ (t : Table Row). record m { barriers = t }) (shortened-extended key row m.barriers h)

  pub outbox_back :
      (more : List J) (m : Memory Row P J)
      → undo_one (cut_outbox (length m.outbox)) (record m { outbox = m.outbox ++ more }) ≡ m
  unfolding undo_one
  outbox_back more m = ap (λ (t : List J). record m { outbox = t }) (cut-append m.outbox more)

  pub events_back :
      (linked : List P) (m : Memory Row P J)
      → undo_one (cut_events (length m.events)) (record m { events = m.events ++ linked }) ≡ m
  unfolding undo_one
  events_back linked m = ap (λ (t : List P). record m { events = t }) (cut-append m.events linked)

  pub none_cut : (m : Memory Row P J) → undo_one (cut_events (length m.events)) m ≡ m
  unfolding undo_one
  none_cut m = ap (λ (t : List P). record m { events = t }) (cut-length m.events)

  pub journal_back :
      (run : ℕ) (kind : String) (m : Memory Row P J)
      → undo_one pop_journal (record m { journal = m.journal ++ (run, kind) ∷ [] }) ≡ m
  unfolding undo_one
  journal_back run kind m =
      ap (λ (t : List (ℕ × String)). record m { journal = t })
        (without_last-append m.journal (run, kind))
