-- ===== src/World.antt =====
-- The state that the backend's handlers share: the tables of the database (see Types), the sockets
-- of backend/src/modules/realtime and what was sent on them, and the clock.
-- A handler runs on a whole state: what other handlers do while it waits is not interleaved.
use forex_remote_copy_tradin.Prelude.{
  ℕ, ◌+◌, ◌*◌, ltb, option_map, String, Bool, false, Option, none, some, List, ◌∷◌, ◌&&◌,
  if◌then◌else◌, any, find_first, update_where, ◌==◌,
}
use forex_remote_copy_tradin.Number.{Number}
use forex_remote_copy_tradin.Types.{
  Master, Slave, SymbolMapping, Connector, TradeEvent, CopyOrder, CopyInstruction,
  AuthenticatedConnector, NormalizedTradeEvent, TradeEventType, CopyOrderStatus, TradeSide,
  ErrorReason, Admin, AuditLog,
}

-- A WebSocket: which one it is, and whether its readyState is OPEN.
pub record Socket : Type 0 where
  pub number : ℕ
  pub is_open : Bool

-- What `broadcastCopyOrder` tells the admin dashboards, without its timestamp.
pub record Broadcast : Type 0 where
  pub copy_id : String
  pub master_id : String
  pub slave_id : String
  pub master_ticket : String
  pub type : TradeEventType
  pub status : CopyOrderStatus
  pub symbol : String
  pub side : Option TradeSide
  pub volume : Option Number
  pub slave_ticket : Option String
  pub execution_price : Option Number
  pub error_reason : Option ErrorReason

-- A key of Redis with its value and the instant at which it expires.
pub record Entry {ℓ} (A : Type ℓ) : Type ℓ where
  pub key : String
  pub value : A
  pub expires_at : ℕ

pub record World : Type 0 where
  pub now : ℕ
  pub masters : List Master
  pub slaves : List Slave
  pub symbol_mappings : List SymbolMapping
  pub connectors : List Connector
  pub trade_events : List TradeEvent
  pub copy_orders : List CopyOrder
  -- the gateway's `connections`, by slaveId, and the instructions sent on them, the newest first
  pub connections : List (String × Socket)
  pub sent : List (String × CopyInstruction)
  -- the sockets of the dashboards, and what was sent on each, the newest first
  pub admin_sockets : List Socket
  pub admin_sent : List (ℕ × Broadcast)
  -- Redis: the cached tokens, the heartbeats, the events that were seen, and the published events,
  -- each the newest first
  pub token_cache : List (Entry AuthenticatedConnector)
  pub heartbeats : List (Entry ℕ)
  pub seen_events : List (Entry (Unit {0}))
  pub published : List NormalizedTradeEvent
  -- the administrators, and the log of what they did, the newest first
  pub admins : List Admin
  pub audit_logs : List AuditLog

-- redis.get(key): a later value hides an earlier one, and an expired one is gone.
abbrev pub is_live_entry {ℓ} : {A : Type ℓ} → ℕ → String → Entry A → Bool
is_live_entry now key e = e.key == key && ltb now e.expires_at

abbrev pub redis_get {ℓ} : {A : Type ℓ} → ℕ → String → List (Entry A) → Option A
redis_get now key entries = option_map (λ e. e.value) (find_first (is_live_entry now key) entries)

-- redis.set(key, value, "EX", seconds)
abbrev pub redis_set {ℓ} : {A : Type ℓ} → ℕ → String → A → ℕ → List (Entry A) → List (Entry A)
redis_set now key value seconds entries =
    record { key = key; value = value; expires_at = now + seconds * 1000 } ∷ entries

-- prisma.copyOrder.findUnique({ where: { id } })
abbrev pub find_order : List CopyOrder → String → Option CopyOrder
find_order orders id = find_first (λ o. o.id == id) orders

-- prisma.copyOrder.update({ where: { id }, data })
abbrev pub update_order : String → (CopyOrder → CopyOrder) → World → World
update_order id change w = record w {
  copy_orders = update_where (λ o. o.id == id) change w.copy_orders;
}

-- a column that may be null, at a value
abbrev pub is_at : Option String → String → Bool
is_at none id = false
is_at (some x) id = x == id

-- @@unique([tradeEventId, slaveId]) of copy_orders
abbrev pub is_copy_of : String → String → CopyOrder → Bool
is_copy_of trade_event_id slave_id o = o.trade_event_id == trade_event_id && o.slave_id == slave_id

-- prisma.copyOrder.create({ data }): `none` where the unique constraint makes it throw.
unfoldable pub create_order : CopyOrder → World → Option World
create_order o w =
    if any (is_copy_of o.trade_event_id o.slave_id) w.copy_orders
    then none
    else some (record w { copy_orders = o ∷ w.copy_orders })
