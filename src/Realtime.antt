-- ===== src/Realtime.antt =====
-- backend/src/modules/realtime: the sockets of the Slaves and of the admin dashboards.
pub mod WsGateway
pub mod AdminWsGateway
