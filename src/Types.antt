-- ===== src/Types.antt =====
-- The data of the backend: the enums and tables of backend/src/db/prisma/schema.prisma, and the
-- messages of backend/src/types. Ids, tickets and symbols are texts, instants are milliseconds.
-- A table is a list of rows in the order of creation, the newest first.
use forex_remote_copy_tradin.Prelude.{ℕ, String, Bool, true, false, Option, List}
use forex_remote_copy_tradin.Number.{Number}

pub data CopyMode : Type 0 where
  fixed_lot multiplier balance_proportional equity_proportional : CopyMode

-- OPEN, CLOSE, MODIFY, PARTIAL_CLOSE, PENDING_OPEN, PENDING_MODIFY, PENDING_CANCEL. The first three
-- are the copy actions too.
pub data TradeEventType : Type 0 where
  opens closes modifies partial_close pending_open pending_modify pending_cancel : TradeEventType

pub data TradeSide : Type 0 where
  buy sell : TradeSide

pub data SlaveStatus : Type 0 where
  online offline connecting error disabled : SlaveStatus

pub data ConnectorStatus : Type 0 where
  online offline connecting error : ConnectorStatus

pub data CopyOrderStatus : Type 0 where
  pending sent executed failed rejected : CopyOrderStatus

-- The texts of errorReason that the backend writes, and what a Slave reports.
pub data ErrorReason : Type 0 where
  emergency_stop_active symbol_blocked symbol_not_allowed : ErrorReason
  max_positions_reached max_exposure_exceeded : ErrorReason
  fixed_lot_not_configured below_min_lot : ErrorReason
  master_balance_unknown slave_balance_unknown : ErrorReason
  master_equity_unknown slave_equity_unknown : ErrorReason
  no_matching_open_copy slave_offline send_failed : ErrorReason
  reported : String → ErrorReason

-- One open position of a heartbeat.
pub record PositionSnapshotItem : Type 0 where
  pub ticket : String
  pub symbol : String
  pub side : Option TradeSide
  pub volume : Number
  pub sl : Option Number
  pub tp : Option Number
  pub comment : Option String

pub record Master : Type 0 where
  pub id : String
  pub name : String
  pub account_number : String
  pub broker : String
  pub platform : String
  pub server : String
  pub balance : Option Number
  pub equity : Option Number
  pub position_snapshot : Option (List PositionSnapshotItem)
  pub position_snapshot_at : Option ℕ

pub record Slave : Type 0 where
  pub id : String
  pub master_id : String
  pub name : String
  pub account_number : String
  pub broker : String
  pub platform : String
  pub server : String
  pub status : SlaveStatus
  pub copy_enabled : Bool
  pub copy_mode : CopyMode
  pub fixed_lot : Option Number
  pub multiplier : Number
  pub min_lot : Number
  pub max_lot : Number
  pub lot_step : Number
  pub balance : Option Number
  pub equity : Option Number
  pub position_snapshot : Option (List PositionSnapshotItem)
  pub position_snapshot_at : Option ℕ
  pub emergency_stop : Bool
  pub allowed_symbols : List String
  pub blocked_symbols : List String
  pub max_positions : Option ℕ
  pub max_exposure : Option Number

pub record SymbolMapping : Type 0 where
  pub id : String
  pub slave_id : String
  pub master_symbol : String
  pub slave_symbol : String

pub record Connector : Type 0 where
  pub id : String
  pub master_id : Option String
  pub slave_id : Option String
  pub token_hash : String
  pub version : Option String
  pub status : ConnectorStatus
  pub last_heartbeat_at : Option ℕ

pub record Admin : Type 0 where
  pub id : String
  pub username : String
  pub password_hash : String

pub data OwnerType : Type 0 where
  master slave : OwnerType

pub record AuthenticatedConnector : Type 0 where
  pub connector_id : String
  pub owner_type : OwnerType
  pub master_id : Option String
  pub slave_id : Option String

pub record LatencyBreakdown : Type 0 where
  pub detection_latency_ms : ℕ
  pub network_latency_ms : ℕ
  pub total_latency_ms : ℕ

-- What the Master EA sends, with the two fields that ingest adds.
pub record NormalizedTradeEvent : Type 0 where
  pub event_id : String
  pub master_ticket : String
  pub type : TradeEventType
  pub symbol : String
  pub side : Option TradeSide
  pub volume : Option Number
  pub price : Option Number
  pub sl : Option Number
  pub tp : Option Number
  pub master_event_time : ℕ
  pub ea_sent_time : ℕ
  pub master_id : String
  pub backend_received_time : ℕ

-- A row of trade_events: the event, and the columns that are not the event's.
pub record TradeEvent : Type 0 where
  pub id : String
  pub event : NormalizedTradeEvent
  pub latency : LatencyBreakdown

pub record CopyOrder : Type 0 where
  pub id : String
  pub trade_event_id : String
  pub master_id : String
  pub slave_id : String
  pub master_ticket : String
  pub type : TradeEventType
  pub status : CopyOrderStatus
  pub requested_volume : Option Number
  pub slave_ticket : Option String
  pub execution_price : Option Number
  pub error_reason : Option ErrorReason
  pub sent_at : Option ℕ
  pub executed_at : Option ℕ

pub record CopyInstruction : Type 0 where
  pub copy_id : String
  pub action : TradeEventType
  pub symbol : String
  pub side : Option TradeSide
  pub volume : Option Number
  pub sl : Option Number
  pub tp : Option Number
  pub slave_ticket : Option String

-- Some columns of a Slave, by key: `none` where the key is absent, `some none` where its value is null.
pub record SlaveFields : Type 0 where
  pub copy_enabled : Option Bool
  pub copy_mode : Option CopyMode
  pub fixed_lot : Option (Option Number)
  pub multiplier : Option Number
  pub min_lot : Option Number
  pub max_lot : Option Number
  pub lot_step : Option Number
  pub emergency_stop : Option Bool
  pub allowed_symbols : Option (List String)
  pub blocked_symbols : Option (List String)
  pub max_positions : Option (Option ℕ)
  pub max_exposure : Option (Option Number)

-- The JSON values that the admin routes write as oldValue and newValue.
pub data AuditValue : Type 0 where
  created_master : Master → AuditValue
  created_slave : Slave → AuditValue
  fields : SlaveFields → AuditValue
  owner_master owner_slave : String → AuditValue
  symbols : String → String → AuditValue
  mapping_id : String → AuditValue

pub record AuditLog : Type 0 where
  pub actor : String
  pub action : String
  pub entity : String
  pub old_value : Option AuditValue
  pub new_value : Option AuditValue
  pub ip : Option String

-- EXECUTED and FAILED, the two outcomes that a Slave reports.
pub data ResultStatus : Type 0 where
  executed failed : ResultStatus

pub record ExecutionResult : Type 0 where
  pub copy_id : String
  pub status : ResultStatus
  pub slave_ticket : Option String
  pub execution_price : Option Number
  pub reason : Option String

abbrev pub is_opens : TradeEventType → Bool
is_opens opens = true
is_opens _ = false

abbrev pub is_closes : TradeEventType → Bool
is_closes closes = true
is_closes _ = false

abbrev pub is_modifies : TradeEventType → Bool
is_modifies modifies = true
is_modifies _ = false

abbrev pub is_pending : CopyOrderStatus → Bool
is_pending pending = true
is_pending _ = false

abbrev pub is_executed : CopyOrderStatus → Bool
is_executed executed = true
is_executed _ = false
