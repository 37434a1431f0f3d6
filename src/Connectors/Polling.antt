-- ===== src/Connectors/Polling.antt =====
-- backend/src/modules/connectors/connectorPolling.routes.ts: the transport of MT4 Slaves.
pub mod Delivery
use forex_remote_copy_tradin.Prelude.{
  ℕ, String, Bool, true, false, ◌&&◌, ◌||◌, Option, none, some, List, if◌then◌else◌, find_last,
  get_or, option_bind, option_map, truthy, ◌==◌,
}
use forex_remote_copy_tradin.Types.{
  CopyOrder, TradeEvent, CopyInstruction, CopyOrderStatus, sent, failed, ErrorReason,
  no_matching_open_copy, AuthenticatedConnector, OwnerType, ExecutionResult, is_pending, is_closes,
  is_modifies,
}
use forex_remote_copy_tradin.World.{World, Broadcast, update_order}
use forex_remote_copy_tradin.Number.{Number}
use forex_remote_copy_tradin.Realtime.AdminWsGateway.{broadcast_to_admins}
use forex_remote_copy_tradin.Slaves.SymbolMapping.{resolve_slave_symbol}
use forex_remote_copy_tradin.CopyEngine.Queries.{trade_event_of, find_executed_open_slave_ticket}
use forex_remote_copy_tradin.CopyEngine.Results.{handle_slave_message}
use forex_remote_copy_tradin.Connectors.Bearer.{bearer_token}
use forex_remote_copy_tradin.Connectors.Service.{authenticate_connector, record_heartbeat}

pub data PollReply : Type 0 where
  unauthorized no_content : PollReply
  delivered : CopyInstruction → PollReply

-- { slaveId, status: "PENDING" }
abbrev pub is_pending_for : String → CopyOrder → Bool
is_pending_for slave_id o = o.slave_id == slave_id && is_pending o.status

-- the oldest such row, with its trade event, which the foreign key provides
abbrev pub oldest_pending : World → String → Option CopyOrder
oldest_pending w slave_id = find_last (is_pending_for slave_id) w.copy_orders

abbrev pub poll_broadcast :
    String
    → CopyOrder
    → TradeEvent
    → CopyOrderStatus
    → Option Number
    → Option String
    → Option ErrorReason
    → Broadcast
poll_broadcast slave_id o t status volume ticket reason = record {
  copy_id = o.id;
  master_id = o.master_id;
  slave_id = slave_id;
  master_ticket = o.master_ticket;
  type = o.type;
  status = status;
  symbol = t.event.symbol;
  side = t.event.side;
  volume = volume;
  slave_ticket = ticket;
  execution_price = none;
  error_reason = reason;
}

-- a CLOSE or MODIFY with nothing to act on
abbrev pub fail_pending : String → CopyOrder → TradeEvent → World → World × PollReply
fail_pending slave_id o t w = (
  broadcast_to_admins (poll_broadcast slave_id o t failed none none (some no_matching_open_copy)) (
      update_order o.id
        (λ q. record q { status = failed; error_reason = some no_matching_open_copy }) w),
  no_content,
)

-- `numeric` is what a Decimal column with so many digits after the point keeps of a number.
module _ (numeric : ℕ → Number → Number) where
  -- the instruction rebuilt from the row and its trade event, with the numbers as their columns keep them
  abbrev pub rebuilt : World → String → CopyOrder → TradeEvent → Option String → CopyInstruction
  rebuilt w slave_id o t ticket = record {
    copy_id = o.id;
    action = o.type;
    symbol = resolve_slave_symbol w slave_id t.event.symbol;
    side = t.event.side;
    volume = option_map (numeric 2) o.requested_volume;
    sl = option_map (numeric 5) t.event.sl;
    tp = option_map (numeric 5) t.event.tp;
    slave_ticket = ticket;
  }

  -- the row is handed over
  abbrev pub hand_over : String → CopyOrder → TradeEvent → Option String → World → World × PollReply
  hand_over slave_id o t ticket w = (
    broadcast_to_admins
        (poll_broadcast slave_id o t sent (option_map (numeric 2) o.requested_volume) ticket none)
        (update_order o.id (λ q. record q { status = sent; sent_at = some w.now }) w),
    delivered (rebuilt w slave_id o t ticket),
  )

  abbrev pub hand_over_with :
      String → CopyOrder → TradeEvent → Option String → World → World × PollReply
  hand_over_with slave_id o t none w = fail_pending slave_id o t w
  hand_over_with slave_id o t (some ticket) w = hand_over slave_id o t (some ticket) w

  unfoldable pub pick_up : String → CopyOrder → Option TradeEvent → World → World × PollReply
  pick_up slave_id o none w = (w, no_content)
  pick_up slave_id o (some t) w =
      if is_closes o.type || is_modifies o.type
      then hand_over_with slave_id o t
          (truthy (find_executed_open_slave_ticket w.copy_orders slave_id o.master_ticket)) w
      else hand_over slave_id o t none w

  -- the poll of an authenticated Slave, after its heartbeat
  unfoldable pub poll : String → World → World × PollReply
  unfolding pick_up
  poll slave_id w = elim (oldest_pending w slave_id) [
    | none ↦ (w, no_content)
    | some o ↦ pick_up slave_id o (trade_event_of w.trade_events o) w
  ]

-- the Slave that a connector belongs to; `none` is the answer 401
abbrev pub slave_of_auth : Option AuthenticatedConnector → Option String
slave_of_auth none = none
slave_of_auth (some a) = elim a.owner_type [
  | OwnerType.master ↦ none
  | OwnerType.slave ↦ truthy a.slave_id
]

abbrev pub connector_of_auth : Option AuthenticatedConnector → String
connector_of_auth none = ""
connector_of_auth (some a) = a.connector_id

module _ (hash_token : String → String) (threshold_seconds : ℕ) where
  -- `void recordHeartbeat(connectorId)`: a throw is dropped
  abbrev pub refreshed : String → World → World
  refreshed connector_id w = get_or (record_heartbeat threshold_seconds connector_id none w) w

  -- the request with its token
  unfoldable pub poll_with :
      (ℕ → Number → Number) → World × Option AuthenticatedConnector → World × PollReply
  poll_with numeric (w, auth) = elim (slave_of_auth auth) [
    | none ↦ (w, unauthorized)
    | some slave_id ↦ poll numeric slave_id (refreshed (connector_of_auth auth) w)
  ]

  -- GET /api/connectors/pending-instruction
  unfoldable pub pending_instruction :
      (ℕ → Number → Number) → Option String → World → World × PollReply
  unfolding poll_with
  pending_instruction numeric header w = elim (bearer_token header) [
    | none ↦ (w, unauthorized)
    | some token ↦ poll_with numeric (authenticate_connector hash_token token w)
  ]

  unfoldable pub result_with :
      Option ExecutionResult → World × Option AuthenticatedConnector → World × ℕ
  result_with parsed (w, auth) = elim (slave_of_auth auth) [
    | none ↦ (w, 401)
    | some slave_id ↦ elim parsed [
      | none ↦ (w, 400)
      | some r ↦
          (handle_slave_message slave_id (some r) (refreshed (connector_of_auth auth) w), 200)
    ]
  ]

  -- POST /api/connectors/execution-result, with the body as it parsed; the status code is returned.
  unfoldable pub execution_result : Option String → Option ExecutionResult → World → World × ℕ
  unfolding result_with
  execution_result header parsed w = elim (bearer_token header) [
    | none ↦ (w, 401)
    | some token ↦ result_with parsed (authenticate_connector hash_token token w)
  ]
