-- ===== src/Slaves.antt =====
-- backend/src/modules/slaves
pub mod SymbolMapping
pub mod Config
pub mod Routes
