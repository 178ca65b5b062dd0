-- ===== src/Backend/Settlement.antt =====
-- The settlement of predictions: price evidence, the proof gate and the repair of old rows
-- (senecio_polymarket/backend: settlement_contract.py, settlement_proof.py, settlement_reconciler.py).
pub mod Contract
pub mod Causal
pub mod Proof
pub mod Repair
pub mod Repaired
pub mod Qualified
pub mod Batch
pub mod Tests
