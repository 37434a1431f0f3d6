-- ===== src/Tests/Data.antt =====
-- One Master, with a Slave on MT5 and one on MT4.
use forex_remote_copy_tradin.Prelude.{String, true, false, none, some, List, [], ◌∷◌}
use forex_remote_copy_tradin.Prelude.Int.{pos}
use forex_remote_copy_tradin.Number.{of_int, cents}
use forex_remote_copy_tradin.Types.{
  CopyMode, TradeEventType, TradeSide, SlaveStatus, ConnectorStatus, CopyOrderStatus, Master, Slave,
  Connector, NormalizedTradeEvent, TradeEvent, CopyOrder, ExecutionResult, ResultStatus,
  PositionSnapshotItem, CopyInstruction,
}
use forex_remote_copy_tradin.World.{World, Socket}
use forex_remote_copy_tradin.CopyEngine.Plan.{MasterAccount}

-- its account is known, and one EURUSD position of it is open
abbrev pub gold_position : PositionSnapshotItem
gold_position = record {
  ticket = "m1";
  symbol = "GOLD";
  side = some TradeSide.buy;
  volume = cents 20;
  sl = none;
  tp = none;
  comment = none;
}

abbrev pub master_one : Master
master_one = record {
  id = "master-1";
  name = "One";
  account_number = "1001";
  broker = "Broker";
  platform = "MT5";
  server = "Live";
  balance = some (of_int (pos 10_000));
  equity = some (of_int (pos 10_000));
  position_snapshot = some (gold_position ∷ []);
  position_snapshot_at = some 900_000;
}

-- half of the Master's size, in steps of 0.01, and at most two positions
abbrev pub slave_mt5 : Slave
slave_mt5 = record {
  id = "slave-5";
  master_id = "master-1";
  name = "Five";
  account_number = "2005";
  broker = "Broker";
  platform = "MT5";
  server = "Live";
  status = SlaveStatus.online;
  copy_enabled = true;
  copy_mode = CopyMode.multiplier;
  fixed_lot = none;
  multiplier = cents 50;
  min_lot = cents 1;
  max_lot = cents 500;
  lot_step = cents 1;
  balance = none;
  equity = none;
  position_snapshot = some [];
  position_snapshot_at = some 900_000;
  emergency_stop = false;
  allowed_symbols = [];
  blocked_symbols = "SILVER" ∷ [];
  max_positions = some 2;
  max_exposure = some (of_int (pos 1));
}

abbrev pub slave_mt4 : Slave
slave_mt4 = record slave_mt5 {
  id = "slave-4";
  account_number = "2004";
  platform = "MT4";
  position_snapshot_at = none;
}

-- one that is not copied to
abbrev pub slave_paused : Slave
slave_paused = record slave_mt5 { id = "slave-9"; account_number = "2009"; copy_enabled = false }

abbrev pub opened : NormalizedTradeEvent
opened = record {
  event_id = "e1";
  master_ticket = "m1";
  type = TradeEventType.opens;
  symbol = "GOLD";
  side = some TradeSide.buy;
  volume = some (cents 20);
  price = none;
  sl = none;
  tp = none;
  master_event_time = 1_000;
  ea_sent_time = 1_010;
  master_id = "master-1";
  backend_received_time = 1_050;
}

abbrev pub ended : NormalizedTradeEvent
ended = record opened { event_id = "e2"; type = TradeEventType.closes; volume = none }

abbrev pub stored : NormalizedTradeEvent → String → TradeEvent
stored e id = record {
  id = id;
  event = e;
  latency = record { detection_latency_ms = 10; network_latency_ms = 40; total_latency_ms = 50 };
}

abbrev pub account : MasterAccount
account = record {
  master_balance = some (of_int (pos 10_000));
  master_equity = some (of_int (pos 10_000));
}

-- the copy of the OPEN at the MT5 Slave, sent and not yet answered
abbrev pub sent_open : CopyOrder
sent_open = record {
  id = "c1";
  trade_event_id = "t1";
  master_id = "master-1";
  slave_id = "slave-5";
  master_ticket = "m1";
  type = TradeEventType.opens;
  status = CopyOrderStatus.sent;
  requested_volume = some (cents 10);
  slave_ticket = none;
  execution_price = none;
  error_reason = none;
  sent_at = some 1_100;
  executed_at = none;
}

abbrev pub executed_open : CopyOrder
executed_open = record sent_open {
  status = CopyOrderStatus.executed;
  slave_ticket = some "s77";
  executed_at = some 1_200;
}

-- a copy of the OPEN that waits for the MT4 Slave's poll
abbrev pub pending_open : CopyOrder
pending_open = record sent_open {
  id = "c4";
  slave_id = "slave-4";
  status = CopyOrderStatus.pending;
  sent_at = none;
}

abbrev pub executed_message : ExecutionResult
executed_message = record {
  copy_id = "c1";
  status = ResultStatus.executed;
  slave_ticket = some "s77";
  execution_price = none;
  reason = none;
}

abbrev pub connector_mt4 : Connector
connector_mt4 = record {
  id = "k4";
  master_id = none;
  slave_id = some "slave-4";
  token_hash = "hash of t4";
  version = none;
  status = ConnectorStatus.connecting;
  last_heartbeat_at = none;
}

abbrev pub open_socket : Socket
open_socket = record { number = 2; is_open = true }

abbrev pub start : World
start = record {
  now = 1_000_000;
  masters = master_one ∷ [];
  slaves = slave_mt5 ∷ slave_mt4 ∷ slave_paused ∷ [];
  symbol_mappings = [];
  connectors = connector_mt4 ∷ [];
  trade_events = stored opened "t1" ∷ [];
  copy_orders = [];
  connections = ("slave-5", open_socket) ∷ [];
  sent = [];
  admin_sockets = [];
  admin_sent = [];
  token_cache = [];
  heartbeats = [];
  seen_events = [];
  published = [];
  admins = [];
  audit_logs = [];
}

abbrev pub with_orders : List CopyOrder → World
with_orders orders = record start {
  copy_orders = orders;
  trade_events = stored ended "t2" ∷ stored opened "t1" ∷ [];
}

abbrev pub instruction_of : String → CopyInstruction
instruction_of id = record {
  copy_id = id;
  action = TradeEventType.opens;
  symbol = "GOLD";
  side = none;
  volume = some (cents 10);
  sl = none;
  tp = none;
  slave_ticket = none;
}
