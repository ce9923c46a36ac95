-- ===== src/Domain.antt =====
-- The domain types of domain/types.py and domain/state.py.
pub mod Money
pub mod Contract
pub mod Quote
pub mod State
pub mod Tests
