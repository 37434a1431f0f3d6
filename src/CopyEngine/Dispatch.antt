-- ===== src/CopyEngine/Dispatch.antt =====
-- copyToSlave of backend/src/modules/copy-engine/copyEngine.ts, with failCopyOrder and
-- broadcastCopyOrder: what one Slave gets for one event of its Master.
-- `new_id` is the id that the database draws for the row. `none` is a throw, of the unique constraint.
pub mod Counts
pub mod Outcome
pub mod Laws
pub mod Throws
pub mod Reductions
use forex_remote_copy_tradin.Prelude.{
  ℕ, String, Bool, true, false, Option, none, some, List, if◌then◌else◌, option_bind, ◌==◌,
}
use forex_remote_copy_tradin.Number.{Number}
use forex_remote_copy_tradin.Types.{
  Slave, NormalizedTradeEvent, CopyOrder, CopyOrderStatus, pending, sent, failed, CopyInstruction,
  ErrorReason, slave_offline, send_failed,
}
use forex_remote_copy_tradin.World.{World, Broadcast, update_order, create_order}
use forex_remote_copy_tradin.Realtime.AdminWsGateway.{broadcast_to_admins}
use forex_remote_copy_tradin.Realtime.WsGateway.{is_slave_connected, send_to_slave}
use forex_remote_copy_tradin.Slaves.SymbolMapping.{resolve_slave_symbol}
use forex_remote_copy_tradin.Connectors.Online.{has_online_connector}
use forex_remote_copy_tradin.CopyEngine.Plan.{MasterAccount, Plan, refuse, proceed, plan}

-- the row that copyToSlave creates
abbrev pub new_order :
    String
    → Slave
    → String
    → NormalizedTradeEvent
    → CopyOrderStatus
    → Option Number
    → Option ErrorReason
    → CopyOrder
new_order new_id s trade_event_id e status volume reason = record {
  id = new_id;
  trade_event_id = trade_event_id;
  master_id = e.master_id;
  slave_id = s.id;
  master_ticket = e.master_ticket;
  type = e.type;
  status = status;
  requested_volume = volume;
  slave_ticket = none;
  execution_price = none;
  error_reason = reason;
  sent_at = none;
  executed_at = none;
}

abbrev pub broadcast_of :
    String
    → Slave
    → NormalizedTradeEvent
    → CopyOrderStatus
    → Option Number
    → Option String
    → Option ErrorReason
    → Broadcast
broadcast_of copy_id s e status volume ticket reason = record {
  copy_id = copy_id;
  master_id = e.master_id;
  slave_id = s.id;
  master_ticket = e.master_ticket;
  type = e.type;
  status = status;
  symbol = e.symbol;
  side = e.side;
  volume = volume;
  slave_ticket = ticket;
  execution_price = none;
  error_reason = reason;
}

abbrev pub is_mt4 : Slave → Bool
is_mt4 s = s.platform == "MT4"

-- An MT4 Slave is online by its heartbeats, another by its live socket.
pub is_reachable : Slave → World → Bool
is_reachable s w = if is_mt4 s then has_online_connector w s.id else is_slave_connected w s.id

module _ (new_id : String) (s : Slave) (trade_event_id : String) (e : NormalizedTradeEvent) where
  unfoldable pub fail_copy_order : ErrorReason → Option Number → World → Option World
  fail_copy_order reason requested w =
      option_bind
        (create_order (new_order new_id s trade_event_id e failed requested (some reason)) w)
        λ w'.
          some
            (broadcast_to_admins (broadcast_of new_id s e failed requested none (some reason)) w')

  abbrev pub instruction : World → Option String → Option Number → CopyInstruction
  instruction w ticket volume = record {
    copy_id = new_id;
    action = e.type;
    symbol = resolve_slave_symbol w s.id e.symbol;
    side = e.side;
    volume = volume;
    sl = e.sl;
    tp = e.tp;
    slave_ticket = ticket;
  }

  -- `sent` of copyToSlave, and the row and the broadcast that follow from it
  unfoldable pub record_send : Option String → Option Number → World × Bool → World
  record_send ticket volume (w, true) =
      broadcast_to_admins (broadcast_of new_id s e sent volume ticket none)
        (update_order new_id (λ o. record o { status = sent; sent_at = some w.now }) w)
  record_send ticket volume (w, false) =
      broadcast_to_admins (broadcast_of new_id s e failed volume ticket (some send_failed))
        (update_order new_id (λ o. record o { status = failed; error_reason = some send_failed }) w)

  -- what follows the PENDING row
  unfoldable pub deliver : Option String → Option Number → World → World
  unfolding record_send is_reachable
  deliver ticket volume w =
      if is_reachable s w
      then if is_mt4 s
        then broadcast_to_admins (broadcast_of new_id s e pending volume ticket none) w
        else record_send ticket volume (send_to_slave s.id (instruction w ticket volume) w)
      else broadcast_to_admins (broadcast_of new_id s e failed volume none (some slave_offline)) (
          update_order new_id (λ o. record o { status = failed; error_reason = some slave_offline })
            w)

  unfoldable pub carry_out : Plan → World → Option World
  unfolding fail_copy_order deliver
  carry_out (refuse reason requested) w = fail_copy_order reason requested w
  carry_out (proceed ticket volume) w =
      option_bind (create_order (new_order new_id s trade_event_id e pending volume none) w)
        λ w'. some (deliver ticket volume w')

  unfoldable pub copy_to_slave : MasterAccount → World → Option World
  unfolding carry_out plan
  copy_to_slave account w = carry_out (plan w.copy_orders s e account) w
