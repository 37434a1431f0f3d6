-- ===== src/Connectors.antt =====
-- backend/src/modules/connectors: authentication, heartbeats, and the polling transport.
pub mod Online
pub mod Service
pub mod Bearer
pub mod Polling
pub mod Transport
