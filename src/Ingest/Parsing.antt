-- ===== src/Ingest/Parsing.antt =====
-- tradeEventPayloadSchema of backend/src/types/tradeEvent.ts: what it makes of the body of an event. The
-- time stamps of a body are taken as well-formed.
use forex_remote_copy_tradin.Prelude.{
  ℕ, String, Bool, Option, none, some, if◌then◌else◌, option_bind, ◌||◌, ◌==◌,
}
use forex_remote_copy_tradin.Prelude.Int.{pos, ltb_ℤ}
use forex_remote_copy_tradin.Number.{Number}
use forex_remote_copy_tradin.Types.{NormalizedTradeEvent, TradeEventType, TradeSide}
use forex_remote_copy_tradin.Slaves.Config.Parsing.{Field, absent, null, number, positive_field}

pub record EventBody : Type 0 where
  pub event_id : String
  pub master_ticket : String
  pub type : String
  pub symbol : String
  pub side : Option String
  pub volume : Field
  pub price : Field
  pub sl : Field
  pub tp : Field
  pub master_event_time : ℕ
  pub ea_sent_time : ℕ

-- z.enum(TRADE_EVENT_TYPES) and z.enum(TRADE_SIDES)
unfoldable pub type_of : String → Option TradeEventType
type_of t =
    if t == "OPEN"
    then some TradeEventType.opens
    else if t == "CLOSE"
    then some TradeEventType.closes
    else if t == "MODIFY"
    then some TradeEventType.modifies
    else if t == "PARTIAL_CLOSE"
    then some TradeEventType.partial_close
    else if t == "PENDING_OPEN"
    then some TradeEventType.pending_open
    else if t == "PENDING_MODIFY"
    then some TradeEventType.pending_modify
    else if t == "PENDING_CANCEL"
    then some TradeEventType.pending_cancel
    else none

abbrev side_of : Option String → Option (Option TradeSide)
side_of none = some none
side_of (some t) =
    if t == "BUY"
    then some (some TradeSide.buy)
    else if t == "SELL"
    then some (some TradeSide.sell)
    else none

-- z.number().nonnegative().optional()
abbrev pub nonnegative_field : Field → Option (Option Number)
nonnegative_field absent = some none
nonnegative_field null = none
nonnegative_field (number n) = if ltb_ℤ n.num (pos 0) then none else some (some n)

abbrev lacks_text : EventBody → Bool
lacks_text b = b.event_id == "" || b.master_ticket == "" || b.symbol == ""

-- The payload, `none` where it is refused; the route sets its Master and the time of its receipt.
unfoldable pub parse_event : EventBody → Option NormalizedTradeEvent
unfolding type_of
parse_event b =
    if lacks_text b
    then none
    else option_bind (type_of b.type) λ type. option_bind (side_of b.side) λ side.
      option_bind (positive_field b.volume) λ volume. option_bind (positive_field b.price) λ price.
        option_bind (nonnegative_field b.sl) λ sl. option_bind (nonnegative_field b.tp) λ tp.
          some (record {
            event_id = b.event_id;
            master_ticket = b.master_ticket;
            type = type;
            symbol = b.symbol;
            side = side;
            volume = volume;
            price = price;
            sl = sl;
            tp = tp;
            master_event_time = b.master_event_time;
            ea_sent_time = b.ea_sent_time;
            master_id = "";
            backend_received_time = 0;
          })
