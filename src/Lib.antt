-- ===== src/Lib.antt =====
-- Forex remote copy trading: a verification library of the backend and its dashboard.
--
-- A Master's terminal sends its trade events to the backend, which publishes each once and copies it to
-- the Master's Slaves; a Slave's terminal executes the copies and reports the results; a reconciliation
-- compares what Master, database and Slave say. An administrator's dashboard configures and watches them.
-- The code is TypeScript, under backend and frontend/src.
--
-- The state that the handlers share is the record World (World.antt): the tables of
-- backend/src/db/prisma/schema.prisma (Types.antt), the sockets, Redis and the clock. A handler takes a
-- World and returns the next one, with its answer.
--
-- Prelude, Number: lists as tables, texts, and numbers as exact fractions.
-- Ingest: modules/ingest (ingest_trade_event, persist_trade_event), modules/realtime/publisher.ts
--   (publish_trade_event), modules/monitoring/latency.ts (compute_latency).
-- CopyEngine: modules/copy-engine. Fanout is handleMasterEvent; Plan is what copyToSlave decides before
--   it writes, with VolumeCalculator, RiskChecks and Queries; Dispatch is the rest of copyToSlave
--   (copy_to_slave, carry_out, deliver, record_send, fail_copy_order); Results is handleSlaveMessage.
-- Realtime: modules/realtime/wsGateway.ts (the socket of each Slave) and adminWsGateway.ts.
-- Slaves.SymbolMapping: modules/slaves/symbolMapping.service.ts.
-- Connectors: modules/connectors. Service and Online are connector.service.ts (authentication with its
--   cache, registration, heartbeats, the sweep); Polling is connectorPolling.routes.ts; Transport is the
--   handlers of wsGateway.ts (slave_socket_opened, on_message) and connector.routes.ts (heartbeat).
-- Reconciliation: modules/reconciliation. Engine is compareState, Service is runReconciliation.
-- Http, Audit, Auth: the answers of the admin API, modules/audit, and modules/auth (login,
--   requireAdminAuth) with backend/tools/seedAdmin.ts.
-- Masters, Slaves.Config, Slaves.Routes: modules/masters and modules/slaves (the routes and schemas).
-- Monitoring: modules/dashboard, modules/monitoring/health.routes.ts and
--   modules/reconciliation/reconciliation.routes.ts.
-- Dashboard: frontend/src, on the routes that it calls. Api is lib/api.ts and lib/auth.tsx, TradeFeed is
--   lib/ws.ts, Polling is lib/usePolling.ts, TradesPage and SlaveDetailPage are the pages,
--   CreateAccountModal is the component.
-- Tools: backend/tools. Seed is seed.ts, SimulateMaster is simulate-master-event.ts with
--   simulate-master-heartbeat.ts (Heartbeat), SimulateSlave is simulate-slave.ts.
-- System: all handlers as the steps of one relation (Step), and the states that it reaches (Reaches).
--   System.Writes is a relation for the proofs about them, and models no code.
-- Tests: the theorems at concrete inputs.
--
-- Bounds and conventions:
-- Numbers are exact fractions. Where the reconciliation compares them with a tolerance they are rounded to
-- doubles, before and after the subtraction (Number.Double, where the bounds of the loops are the
-- exponents of a double); elsewhere the rounding of binary floating point is left out. What a Decimal
-- column keeps of a number is a parameter of the routes of a Slave's configuration and of the poll, and is
-- left out elsewhere. A Decimal that is not null is an object, which JavaScript reads as true, so
-- `x ? Number(x) : null` is the optional value itself. Instants are milliseconds in ℕ.
-- A table is a list, the newest row first, which is the order of createdAt. A throw, of a unique
-- constraint or of an update that finds no row, is `none`.
-- Ids and tokens that are drawn, the sha256 of a token, the settings of config/env.ts, and what zod
-- makes of a message (`none` on a failure) are arguments.
-- A handler runs on a whole state, which is one step of the system, and the copies of one fan-out run
-- one after the other in the order of the Slaves: what other handlers do while one awaits is left out.
-- The enum columns and the texts of errorReason are data types; logging and the time stamp of a
-- broadcast are left out. All other recursion is on lists, so no fuel is needed.
--
-- What bcryptjs and jsonwebtoken do is a parameter.
--
-- Not modelled: the start-up and configuration, the rendering of the dashboard and its pages of lists,
-- the connectors in MQL and Python. A number that is too large for its column, a limit of a query that is
-- negative or fractional, and what other requests do between the two requests of a new account are left
-- out.
pub mod Prelude
pub mod Number
pub mod Types
pub mod CopyEngine
pub mod World
pub mod Realtime
pub mod Slaves
pub mod Connectors
pub mod Reconciliation
pub mod Ingest
pub mod System
pub mod Tests
pub mod Http
pub mod Audit
pub mod Masters
pub mod Auth
pub mod Dashboard
pub mod Tools
pub mod Monitoring
