-- ===== src/CopyEngine/Results.antt =====
-- handleSlaveMessage of backend/src/modules/copy-engine/copyEngine.ts: the result of an execution.
-- What `executionResultSchema.safeParse` makes of the message is the argument: `none` on a failure.
-- A field that is undefined in an update leaves the column as it is.
pub mod Laws
pub mod TradeIdentity
use forex_remote_copy_tradin.Prelude.{
  ℕ, String, Bool, true, false, Option, none, some, List, if◌then◌else◌, option_bind, option_map,
  or_else, ◌==◌,
}
use forex_remote_copy_tradin.Types.{
  CopyOrder, CopyOrderStatus, ExecutionResult, ResultStatus, TradeEvent, reported,
}
use forex_remote_copy_tradin.World.{World, Broadcast, find_order, update_order}
use forex_remote_copy_tradin.Realtime.AdminWsGateway.{broadcast_to_admins}
use forex_remote_copy_tradin.CopyEngine.Queries.{trade_event_of}

abbrev pub to_status : ResultStatus → CopyOrderStatus
to_status ResultStatus.executed = CopyOrderStatus.executed
to_status ResultStatus.failed = CopyOrderStatus.failed

-- the update of the row
abbrev pub with_result : ExecutionResult → ℕ → CopyOrder → CopyOrder
with_result r now o = record o {
  status = to_status r.status;
  slave_ticket = or_else r.slave_ticket o.slave_ticket;
  execution_price = or_else r.execution_price o.execution_price;
  error_reason = or_else (option_map reported r.reason) o.error_reason;
  executed_at = some now;
}

-- the broadcast; the row's trade event is there by its foreign key
abbrev result_broadcast : String → ExecutionResult → CopyOrder → TradeEvent → Broadcast
result_broadcast slave_id r o e = record {
  copy_id = o.id;
  master_id = o.master_id;
  slave_id = slave_id;
  master_ticket = o.master_ticket;
  type = o.type;
  status = to_status r.status;
  symbol = e.event.symbol;
  side = e.event.side;
  volume = o.requested_volume;
  slave_ticket = or_else r.slave_ticket o.slave_ticket;
  execution_price = r.execution_price;
  error_reason = option_map reported r.reason;
}

abbrev pub announce : String → ExecutionResult → CopyOrder → Option TradeEvent → World → World
announce slave_id r o none w = w
announce slave_id r o (some e) w = broadcast_to_admins (result_broadcast slave_id r o e) w

-- a message that parsed, and the row of its copyId
unfoldable pub record_result : String → ExecutionResult → Option CopyOrder → World → World
record_result slave_id r none w = w
record_result slave_id r (some o) w =
    if o.slave_id == slave_id
    then announce slave_id r o (trade_event_of w.trade_events o)
        (update_order r.copy_id (with_result r w.now) w)
    else w

unfoldable pub handle_slave_message : String → Option ExecutionResult → World → World
unfolding record_result
handle_slave_message slave_id none w = w
handle_slave_message slave_id (some r) w =
    record_result slave_id r (find_order w.copy_orders r.copy_id) w
