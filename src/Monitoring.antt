-- ===== src/Monitoring.antt =====
-- The routes that the dashboard reads: backend/src/modules/dashboard, modules/monitoring/health.routes.ts
-- and modules/reconciliation/reconciliation.routes.ts.
pub mod Orders
pub mod Summary
pub mod Health
pub mod Findings
