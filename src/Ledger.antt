-- ===== src/Ledger.antt =====
-- The engine's state and the fold of committed events (engine/ledger.py).
pub mod Payload
pub mod Event
pub mod Fold
mod Tests
