-- ===== src/Scheduler/Decisions/Logged.antt =====
-- Accepted proposals are logged.
use auto_options_call_debit.Domain.State.{Position, Agent}
use auto_options_call_debit.Policy.{
  LimitTemplate, SpreadView, wait, open_spread, hold, close_spread, pause_new, resume_new,
  retire_slots, no_change, unknown_kind,
}
use auto_options_call_debit.Scheduler.Decisions.{
  apply_spread, submit_close, manager_kind, submit_open, spread_kind,
}
use auto_options_call_debit.Common.{ℤ, ℕ, zero, suc, Option, none, some}
use auto_options_call_debit.Domain.Contract.{Direction}
use auto_options_call_debit.Policy.{Counts, Kind, Proposal, allocate}
use auto_options_call_debit.Scheduler.Decisions.{
  allocate_side, apply_manager, Desk, allocate_counts, hold_one, allocation_of, retire_slot,
}
use auto_options_call_debit.Scheduler.Logged.{IsLogged, logged}

module _ (m : Desk) where
  hold_one-IsLogged : (t : ℕ) (d : Direction) (reserve : ℤ) → IsLogged (hold_one m t d reserve)
  unfolding hold_one
  hold_one-IsLogged t d reserve = search logged

  allocate_side-IsLogged :
      (t : ℕ) (d : Direction) (reserve : ℤ) (n : ℕ) → IsLogged (allocate_side m t d reserve n)
  unfolding allocate_side
  allocate_side-IsLogged t d reserve Prim.Native.Nat.zero = search logged
  allocate_side-IsLogged t d reserve (suc n) =
      search (logged, hold_one-IsLogged, allocate_side-IsLogged t d reserve n)

  allocate_counts-IsLogged :
      (t : ℕ) (reserve : ℤ) (counts : Counts) → IsLogged (allocate_counts m t reserve counts)
  unfolding allocate_counts
  allocate_counts-IsLogged t reserve counts = search (logged, allocate_side-IsLogged)

  retire_slot-IsLogged : (t k : ℕ) → IsLogged (retire_slot m t k)
  unfolding retire_slot
  retire_slot-IsLogged t k = search logged

  allocation_of-IsLogged : (t : ℕ) (a : Option Counts) → IsLogged (allocation_of m t a)
  unfolding allocation_of
  allocation_of-IsLogged t none = search logged
  allocation_of-IsLogged t (some counts) = allocate_counts-IsLogged t _ counts

  manager_kind-IsLogged : (t : ℕ) (p : Proposal) (kind : Kind) → IsLogged (manager_kind m t p kind)
  unfolding manager_kind
  manager_kind-IsLogged t p wait = search logged
  manager_kind-IsLogged t p open_spread = search logged
  manager_kind-IsLogged t p hold = search logged
  manager_kind-IsLogged t p close_spread = search logged
  manager_kind-IsLogged t p allocate = allocation_of-IsLogged t p.allocation
  manager_kind-IsLogged t p pause_new = search logged
  manager_kind-IsLogged t p resume_new = search logged
  manager_kind-IsLogged t p retire_slots = search (logged, retire_slot-IsLogged)
  manager_kind-IsLogged t p no_change = search logged
  manager_kind-IsLogged t p (unknown_kind text) = search logged

  pub apply_manager-IsLogged : (t : ℕ) (p : Proposal) → IsLogged (apply_manager m t p)
  unfolding apply_manager
  apply_manager-IsLogged t p = manager_kind-IsLogged t p p.kind

  submit_open-IsLogged :
      (t : ℕ) (a : Agent) (view : SpreadView) (p : Proposal) → IsLogged (submit_open m t a view p)
  unfolding submit_open
  submit_open-IsLogged t a view p = search logged depth 12

  submit_close-IsLogged :
      (t : ℕ) (a : Agent) (x : LimitTemplate) (q : Option Position)
      → IsLogged (submit_close m t a x q)
  unfolding submit_close
  submit_close-IsLogged t a x none = search logged
  submit_close-IsLogged t a x (some q) = search logged

  spread_kind-IsLogged :
      (a : Agent) (view : SpreadView) (t : ℕ) (p : Proposal) (kind : Kind)
      → IsLogged (spread_kind m a view t p kind)
  unfolding spread_kind
  spread_kind-IsLogged a view t p wait = search logged
  spread_kind-IsLogged a view t p open_spread = submit_open-IsLogged t a view p
  spread_kind-IsLogged a view t p hold = search logged
  spread_kind-IsLogged a view t p close_spread = search (logged, submit_close-IsLogged)
  spread_kind-IsLogged a view t p allocate = search logged
  spread_kind-IsLogged a view t p pause_new = search logged
  spread_kind-IsLogged a view t p resume_new = search logged
  spread_kind-IsLogged a view t p retire_slots = search logged
  spread_kind-IsLogged a view t p no_change = search logged
  spread_kind-IsLogged a view t p (unknown_kind text) = search logged

  pub apply_spread-IsLogged :
      (a : Agent) (view : SpreadView) (t : ℕ) (p : Proposal) → IsLogged (apply_spread m a view t p)
  unfolding apply_spread
  apply_spread-IsLogged a view t p = spread_kind-IsLogged a view t p p.kind
