-- ===== src/Rea.antt =====
-- research/rea_engines: the offline PAPER replay lab.
pub mod Decimal
pub mod Contracts
pub mod Paper
pub mod Bracket
pub mod Accounting
pub mod Replay
pub mod Engine
