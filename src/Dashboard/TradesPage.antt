-- ===== src/Dashboard/TradesPage.antt =====
-- frontend/src/pages/TradesPage.tsx: the rows of the live trades.
-- `text` is the text that JavaScript makes of a number.
pub mod Latest
pub mod FirstLoad
use forex_remote_copy_tradin.Prelude.{
  ℕ, String, Bool, true, false, Option, none, some, List, [], ◌∷◌, find_first, take, replace_first,
  option_map, option_bind, map, truthy, or_else, get_or, ◌==◌,
}
use forex_remote_copy_tradin.Number.{Number}
use forex_remote_copy_tradin.Types.{TradeEventType, TradeSide, CopyOrderStatus, ErrorReason}
use forex_remote_copy_tradin.World.{World, Broadcast}
use forex_remote_copy_tradin.Monitoring.Orders.{OrderView, get_copy_orders}
use forex_remote_copy_tradin.Dashboard.Api.{Fetched, body, undefined, api_error, fetched, provider}

abbrev pub max_rows : ℕ
max_rows = 200

-- the name and the account number of a Master or a Slave
pub record AccountLabel : Type 0 where
  pub name : String
  pub account_number : String

-- CopyOrder of lib/types.ts
pub record CopyOrderRow : Type 0 where
  pub id : String
  pub trade_event_id : String
  pub master_id : String
  pub slave_id : String
  pub master_ticket : String
  pub type : TradeEventType
  pub status : CopyOrderStatus
  pub requested_volume : Option String
  pub slave_ticket : Option String
  pub execution_price : Option String
  pub error_reason : Option ErrorReason
  pub sent_at : Option ℕ
  pub executed_at : Option ℕ
  pub created_at : ℕ
  pub trade_event : Option (String × Option TradeSide)
  pub master : Option AccountLabel
  pub slave : Option AccountLabel

-- A broadcast with its timestamp, as CopyOrderBroadcast of lib/types.ts has it.
pub record TradeMessage : Type 0 where
  pub event : Broadcast
  pub timestamp : ℕ

abbrev pub is_row : String → CopyOrderRow → Bool
is_row id r = r.id == id

abbrev label : String × String → AccountLabel
label (name, account_number) = record { name = name; account_number = account_number }

module _ (text : Number → String) where
  -- the row of a message: what the message leaves out is the existing row's
  abbrev merged : Option CopyOrderRow → TradeMessage → CopyOrderRow
  merged existing m = record {
    id = m.event.copy_id;
    trade_event_id = get_or (option_map (λ r. r.trade_event_id) existing) "";
    master_id = m.event.master_id;
    slave_id = m.event.slave_id;
    master_ticket = m.event.master_ticket;
    type = m.event.type;
    status = m.event.status;
    requested_volume =
        or_else (option_map text m.event.volume) (option_bind existing (λ r. r.requested_volume));
    slave_ticket = or_else m.event.slave_ticket (option_bind existing (λ r. r.slave_ticket));
    execution_price =
        or_else (option_map text m.event.execution_price)
          (option_bind existing (λ r. r.execution_price));
    error_reason = m.event.error_reason;
    sent_at = option_bind existing (λ r. r.sent_at);
    executed_at = option_bind existing (λ r. r.executed_at);
    created_at = get_or (option_map (λ r. r.created_at) existing) m.timestamp;
    trade_event = some (m.event.symbol, m.event.side);
    master = option_bind existing (λ r. r.master);
    slave = option_bind existing (λ r. r.slave);
  }

  -- an existing row is replaced where it stands, a new one comes first
  abbrev put : Option CopyOrderRow → TradeMessage → List CopyOrderRow → List CopyOrderRow
  put none m rows = take max_rows (merged none m ∷ rows)
  put (some r) m rows = replace_first (is_row m.event.copy_id) (merged (some r) m) rows

  unfoldable pub merge : TradeMessage → List CopyOrderRow → List CopyOrderRow
  merge m rows = put (find_first (is_row m.event.copy_id) rows) m rows

  -- the rows after some messages, the newest first
  pub rows_after : List CopyOrderRow → List TradeMessage → List CopyOrderRow
  unfolding merge
  rows_after initial [] = initial
  rows_after initial (m ∷ ms) = merge m (rows_after initial ms)

  -- the rows of GET /api/copy-orders, whose numbers are texts; `created_at` is the column of an order
  abbrev row_of : (String → ℕ) → OrderView → CopyOrderRow
  row_of created_at v = record {
    id = v.order.id;
    trade_event_id = v.order.trade_event_id;
    master_id = v.order.master_id;
    slave_id = v.order.slave_id;
    master_ticket = v.order.master_ticket;
    type = v.order.type;
    status = v.order.status;
    requested_volume = option_map text v.order.requested_volume;
    slave_ticket = v.order.slave_ticket;
    execution_price = option_map text v.order.execution_price;
    error_reason = v.order.error_reason;
    sent_at = v.order.sent_at;
    executed_at = v.order.executed_at;
    created_at = created_at v.order.id;
    trade_event = v.trade_event;
    master = option_map label v.master;
    slave = option_map label v.slave;
  }

  -- loadInitial, on the rows and whether there is an error text: an answer replaces the rows and clears
  -- the error, a failure keeps the rows. The route has no answer without a body.
  abbrev load_initial :
      (String → ℕ) → Fetched (List OrderView) → List CopyOrderRow × Bool → List CopyOrderRow × Bool
  load_initial created_at (body views) page = (map (row_of created_at) views, false)
  load_initial created_at undefined page = page
  load_initial created_at (api_error status) page = (page.0, true)

-- the rows that the page asks for: /api/copy-orders?limit=100
unfoldable pub first_load :
    (Number → String) → (String → Option ℕ) → (String → ℕ) → World → List CopyOrderRow
unfolding get_copy_orders truthy
first_load text number_of created_at w =
    (load_initial text created_at
      (fetched (get_copy_orders number_of none none (some "100") w) (provider none)).1
      ([], false)).0
