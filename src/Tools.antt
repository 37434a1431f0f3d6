-- ===== src/Tools.antt =====
-- backend/tools: the development tools.
pub mod SimulateSlave
pub mod Seed
pub mod SimulateMaster
