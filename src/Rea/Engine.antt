-- ===== src/Rea/Engine.antt =====
-- research/rea_engines/paper_execution_contract.py: the journaled paper execution engine.
pub mod Event
pub mod Reduce
pub mod Journal
pub mod Commands
pub mod Recover
pub mod Log
pub mod Durable
pub mod Tests
