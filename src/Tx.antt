-- ===== src/Tx.antt =====
-- src/stm/transaction_mixinv.h: the transaction descriptor and its algorithm.
pub mod WordLog
pub mod State
pub mod Locks
pub mod Control
pub mod Rollback
pub mod Validate
pub mod Contention
pub mod Write
pub mod Read
pub mod Commit
pub mod Start
