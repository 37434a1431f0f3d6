-- ===== src/Reconciliation.antt =====
-- backend/src/modules/reconciliation: the comparison of Master, system and Slave.
pub mod Engine
pub mod Service
