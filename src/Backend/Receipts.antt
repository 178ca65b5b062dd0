-- ===== src/Backend/Receipts.antt =====
-- The durable queue of predictions (senecio_polymarket/backend/prediction_persistence.py).
pub mod Lines
pub mod Store
pub mod Queue
pub mod Recovery
pub mod Keeping
pub mod Events
pub mod History
pub mod Lasting
pub mod Again
pub mod Pending
pub mod Stuck
pub mod Tests
