-- ===== src/Rea/Paper.antt =====
-- research/rea_engines/execution_resilience.py: paper orders, the paper state, fills and snapshots.
pub mod Order
pub mod State
pub mod Fill
pub mod Snapshot
pub mod Checkpoint
pub mod Tests
