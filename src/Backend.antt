-- ===== src/Backend.antt =====
-- The trading backend (senecio_polymarket/backend).
pub mod Receipts
pub mod Settlement
pub mod Cohort
pub mod Bus
