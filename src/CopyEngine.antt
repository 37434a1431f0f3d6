-- ===== src/CopyEngine.antt =====
-- backend/src/modules/copy-engine: sizing, risk limits, queries, dispatch and results.
pub mod VolumeCalculator
pub mod RiskChecks
pub mod Queries
pub mod Plan
pub mod Dispatch
pub mod Results
pub mod Fanout
