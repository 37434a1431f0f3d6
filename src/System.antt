-- ===== src/System.antt =====
-- The backend as a whole: the handlers of backend/src as the steps of one system, one after another.
-- The settings and the hash of tokens are the same in every step.
pub mod Unique
pub mod Coherent
pub mod Identity
pub mod Writes
use forex_remote_copy_tradin.Prelude.{ℕ, ◌≤◌, String, ◌≡◌, Option, some, List}
use forex_remote_copy_tradin.Number.{Number}
use forex_remote_copy_tradin.Slaves.Config.{
  CreateSlaveInput, UpdateSlaveInput, CreateSymbolMappingInput,
}
use forex_remote_copy_tradin.Slaves.Routes.{
  create_slave, patch_slave, post_slave_connector, post_symbol_mapping, remove_symbol_mapping,
}
use forex_remote_copy_tradin.Masters.{CreateMasterInput, create_master, post_master_connector}
use forex_remote_copy_tradin.Types.{NormalizedTradeEvent, TradeEvent, Slave, ExecutionResult}
use forex_remote_copy_tradin.World.{World, Socket}
use forex_remote_copy_tradin.Realtime.WsGateway.{closed}
use forex_remote_copy_tradin.Realtime.AdminWsGateway.{admin_connected, admin_closed}
use forex_remote_copy_tradin.Slaves.SymbolMapping.{upsert_symbol_mapping, delete_symbol_mapping}
use forex_remote_copy_tradin.CopyEngine.Fanout.{handle_master_event}
use forex_remote_copy_tradin.Connectors.Online.{sweep_offline_connectors}
use forex_remote_copy_tradin.Connectors.Service.{ConnectorOwner, register_connector}
use forex_remote_copy_tradin.Connectors.Polling.{pending_instruction, execution_result}
use forex_remote_copy_tradin.Connectors.Transport.{
  SlaveMessage, HeartbeatBody, on_message, slave_socket_opened, heartbeat,
}
use forex_remote_copy_tradin.Ingest.{ingest_trade_event}

pub record Settings : Type 0 where
  pub hash_token : String → String
  pub idempotency_ttl_seconds : ℕ
  pub offline_threshold_seconds : ℕ
  -- what a Decimal column with so many digits after the point keeps of a number
  pub numeric : ℕ → Number → Number

-- One step. The event of `event_copied` is any that a subscriber may receive.
pub data Step (c : Settings) (w : World) : World → Type 0 where
  time_passed : (now : ℕ) → w.now ≤ now → Step c w (record w { now = now })
  event_ingested :
      (header : Option String) (new_id : String) (parsed : Option NormalizedTradeEvent)
      → Step c w
          (ingest_trade_event c.hash_token c.idempotency_ttl_seconds header new_id parsed w).0
  event_copied :
      (new_id : Slave → String) (late : List TradeEvent) (e : NormalizedTradeEvent)
      → Step c w (handle_master_event new_id late e w)
  slave_polled :
      (header : Option String)
      → Step c w (pending_instruction c.hash_token c.offline_threshold_seconds c.numeric header w).0
  result_posted :
      (header : Option String) (parsed : Option ExecutionResult)
      → Step c w (execution_result c.hash_token c.offline_threshold_seconds header parsed w).0
  heartbeat_posted :
      (header : Option String) (parsed : Option HeartbeatBody)
      → Step c w (heartbeat c.offline_threshold_seconds c.hash_token header parsed w).0
  socket_opened :
      (header : Option String) (socket : Socket)
      → Step c w (slave_socket_opened c.offline_threshold_seconds c.hash_token header socket w)
  message_received :
      (slave_id connector_id : String) (m : SlaveMessage)
      → Step c w (on_message c.offline_threshold_seconds slave_id connector_id m w)
  socket_closed : (slave_id : String) (number : ℕ) → Step c w (closed slave_id number w)
  dashboard_opened : (socket : Socket) → Step c w (admin_connected socket w)
  dashboard_closed : (number : ℕ) → Step c w (admin_closed number w)
  connectors_swept : Step c w (sweep_offline_connectors c.offline_threshold_seconds w).0
  connector_registered :
      (new_id token : String) (owner : ConnectorOwner) (version : Option String) (w' : World)
      → register_connector c.hash_token new_id token owner version w ≡ some w'
      → Step c w w'
  symbol_mapped :
      (new_id slave_id master_symbol slave_symbol : String)
      → Step c w (upsert_symbol_mapping new_id slave_id master_symbol slave_symbol w)
  symbol_unmapped :
      (slave_id mapping_id : String) → Step c w (delete_symbol_mapping slave_id mapping_id w).0
  -- the routes of the admin API
  master_posted :
      (new_id : String) (parsed : Option CreateMasterInput) (ip : Option String)
      → Step c w (create_master new_id parsed ip w).0
  slave_posted :
      (new_id : String) (parsed : Option CreateSlaveInput) (ip : Option String)
      → Step c w (create_slave c.numeric new_id parsed ip w).0
  slave_patched :
      (id : String) (parsed : Option UpdateSlaveInput) (ip : Option String)
      → Step c w (patch_slave c.numeric id parsed ip w).0
  master_connector_posted :
      (id new_id token : String) (version ip : Option String)
      → Step c w (post_master_connector c.hash_token id new_id token version ip w).0
  slave_connector_posted :
      (id new_id token : String) (version ip : Option String)
      → Step c w (post_slave_connector c.hash_token id new_id token version ip w).0
  mapping_posted :
      (id new_id : String) (parsed : Option CreateSymbolMappingInput) (ip : Option String)
      → Step c w (post_symbol_mapping id new_id parsed ip w).0
  mapping_removed :
      (id mapping : String) (ip : Option String)
      → Step c w (remove_symbol_mapping id mapping ip w).0

-- The states that a state leads to.
pub data Reaches (c : Settings) (w : World) : World → Type 0 where
  here : Reaches c w w
  after : {v u : World} → Reaches c w v → Step c v u → Reaches c w u
