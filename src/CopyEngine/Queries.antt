-- ===== src/CopyEngine/Queries.antt =====
-- backend/src/modules/copy-engine/copyOrderQueries.ts. `createdAt` is the order of the table, whose
-- newest row is the first.
pub mod Laws
use forex_remote_copy_tradin.Prelude.{
  ℕ, String, Bool, true, false, not, ◌&&◌, ◌||◌, Option, none, some, List, [], ◌∷◌, map, option_map,
  option_bind, any, find_first, filter_by, length, get_or, ◌==◌,
}
use forex_remote_copy_tradin.Number
use forex_remote_copy_tradin.Number.{Number}
use forex_remote_copy_tradin.Types.{
  CopyOrder, TradeEvent, is_opens, is_closes, is_modifies, is_executed,
}
use forex_remote_copy_tradin.World.{World}

pub record OpenCopyOrderInfo : Type 0 where
  pub id : String
  pub master_ticket : String
  pub slave_ticket : Option String
  pub requested_volume : Option Number
  pub trade_event_id : String

pub record ClosedCopyOrderInfo : Type 0 where
  pub master_ticket : String
  pub slave_ticket : Option String

pub record CopyOrderPositions : Type 0 where
  pub opened : List OpenCopyOrderInfo
  pub closed : List ClosedCopyOrderInfo

-- { slaveId, type: "OPEN", status: "EXECUTED" }
abbrev pub is_executed_open : String → CopyOrder → Bool
is_executed_open slave_id o = o.slave_id == slave_id && is_opens o.type && is_executed o.status

-- { slaveId, type: "CLOSE", status: "EXECUTED" }
abbrev pub is_executed_close : String → CopyOrder → Bool
is_executed_close slave_id o = o.slave_id == slave_id && is_closes o.type && is_executed o.status

abbrev pub to_open : CopyOrder → OpenCopyOrderInfo
to_open o = record {
  id = o.id;
  master_ticket = o.master_ticket;
  slave_ticket = o.slave_ticket;
  requested_volume = o.requested_volume;
  trade_event_id = o.trade_event_id;
}

abbrev pub to_closed : CopyOrder → ClosedCopyOrderInfo
to_closed o = record { master_ticket = o.master_ticket; slave_ticket = o.slave_ticket }

-- closedTickets.has(masterTicket)
abbrev pub is_closed_ticket : List ClosedCopyOrderInfo → String → Bool
is_closed_ticket closes ticket = any (λ c. c.master_ticket == ticket) closes

pub get_copy_order_positions : List CopyOrder → String → CopyOrderPositions
get_copy_order_positions orders slave_id =
    let opens = filter_by (is_executed_open slave_id) orders in
    let closes = map to_closed (filter_by (is_executed_close slave_id) orders) in
    record {
      opened = map to_open (filter_by (λ o. not (is_closed_ticket closes o.master_ticket)) opens);
      closed = closes;
    }

pub record OpenPositionsSummary : Type 0 where
  pub count : ℕ
  pub total_volume : Number

-- open.reduce((sum, o) => sum + (o.requestedVolume ?? 0), 0)
abbrev sum_volumes : Number → List OpenCopyOrderInfo → Number
sum_volumes sum [] = sum
sum_volumes sum (o ∷ rest) =
    sum_volumes (Number.add sum (get_or o.requested_volume Number.zero)) rest

unfoldable pub get_open_positions_summary : List CopyOrder → String → OpenPositionsSummary
unfolding get_copy_order_positions
get_open_positions_summary orders slave_id =
    let opened = (get_copy_order_positions orders slave_id).opened in
    record { count = length opened; total_volume = sum_volumes Number.zero opened }

-- the most recent EXECUTED OPEN of the Slave for the Master's ticket
abbrev pub is_open_copy_of : String → String → CopyOrder → Bool
is_open_copy_of slave_id master_ticket o =
    o.master_ticket == master_ticket && is_executed_open slave_id o

unfoldable pub find_executed_open_slave_ticket : List CopyOrder → String → String → Option String
find_executed_open_slave_ticket orders slave_id master_ticket =
    option_bind (find_first (is_open_copy_of slave_id master_ticket) orders) (λ o. o.slave_ticket)

pub record ExpectedSlTp : Type 0 where
  pub sl : Option Number
  pub tp : Option Number

abbrev is_sl_tp_copy_of : String → String → CopyOrder → Bool
is_sl_tp_copy_of slave_id master_ticket o =
    o.slave_id == slave_id
    && o.master_ticket == master_ticket
    && is_executed o.status
    && (is_opens o.type || is_modifies o.type)

-- the trade event of a copy order, by its foreign key
abbrev pub trade_event_of : List TradeEvent → CopyOrder → Option TradeEvent
trade_event_of events o = find_first (λ e. e.id == o.trade_event_id) events

pub get_expected_sl_tp : World → String → String → Option ExpectedSlTp
get_expected_sl_tp w slave_id master_ticket =
    option_bind (find_first (is_sl_tp_copy_of slave_id master_ticket) w.copy_orders) λ o.
      option_map (λ e. record { sl = e.event.sl; tp = e.event.tp })
        (trade_event_of w.trade_events o)
