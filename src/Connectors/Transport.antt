-- ===== src/Connectors/Transport.antt =====
-- The handlers of backend/src/modules/realtime/wsGateway.ts, the sockets of the Slaves, and
-- backend/src/modules/connectors/connector.routes.ts, the heartbeat of the other connectors.
-- What the schemas make of a message is the argument; an absent body is one with no fields.
pub mod Equivalence
use forex_remote_copy_tradin.Prelude.{ℕ, String, Option, none, some, List, get_or}
use forex_remote_copy_tradin.Number.{Number}
use forex_remote_copy_tradin.Types.{AuthenticatedConnector, ExecutionResult, PositionSnapshotItem}
use forex_remote_copy_tradin.World.{World, Socket}
use forex_remote_copy_tradin.Realtime.WsGateway.{connected}
use forex_remote_copy_tradin.CopyEngine.Results.{handle_slave_message}
use forex_remote_copy_tradin.Connectors.Bearer.{bearer_token}
use forex_remote_copy_tradin.Connectors.Service.{
  AccountSnapshot, authenticate_connector, record_heartbeat,
}
use forex_remote_copy_tradin.Connectors.Polling.{slave_of_auth, connector_of_auth}

pub record HeartbeatBody : Type 0 where
  pub balance : Option Number
  pub equity : Option Number
  pub positions : Option (List PositionSnapshotItem)

abbrev account_with : HeartbeatBody → Option Number → Option Number → Option AccountSnapshot
account_with b (some balance) (some equity) =
    some (record { balance = balance; equity = equity; positions = b.positions })
account_with b (some balance) none = none
account_with b none equity = none

-- the account, where the body has both the balance and the equity
abbrev pub account_info : Option HeartbeatBody → Option AccountSnapshot
account_info none = none
account_info (some b) = account_with b b.balance b.equity

-- A message on a Slave's socket: no JSON, a heartbeat, or any other, which is taken for a result.
pub data SlaveMessage : Type 0 where
  malformed : SlaveMessage
  heartbeat_message : HeartbeatBody → SlaveMessage
  other_message : Option ExecutionResult → SlaveMessage

module _ (threshold_seconds : ℕ) where
  -- `void recordHeartbeat(connectorId, accountInfo)`: a throw is dropped
  abbrev pub beat : String → Option AccountSnapshot → World → World
  beat connector_id account w = get_or (record_heartbeat threshold_seconds connector_id account w) w

  -- socket.on("message"), of the socket of an authenticated Slave
  unfoldable pub on_message : String → String → SlaveMessage → World → World
  on_message slave_id connector_id malformed w = w
  on_message slave_id connector_id (heartbeat_message b) w =
      beat connector_id (account_info (some b)) w
  on_message slave_id connector_id (other_message parsed) w =
      handle_slave_message slave_id parsed (beat connector_id none w)

  module _ (hash_token : String → String) where
    unfoldable pub opened_with : Socket → World × Option AuthenticatedConnector → World
    opened_with socket (w, auth) = elim (slave_of_auth auth) [
      | none ↦ w
      | some slave_id ↦ beat (connector_of_auth auth) none (connected slave_id socket w)
    ]

    -- /ws/slave: an unauthorized socket is closed, and not kept.
    unfoldable pub slave_socket_opened : Option String → Socket → World → World
    unfolding opened_with
    slave_socket_opened header socket w = elim (bearer_token header) [
      | none ↦ w
      | some token ↦ opened_with socket (authenticate_connector hash_token token w)
    ]

    unfoldable pub heartbeat_with :
        Option HeartbeatBody → World × Option AuthenticatedConnector → World × ℕ
    heartbeat_with parsed (w, none) = (w, 401)
    heartbeat_with parsed (w, some auth) =
        elim (record_heartbeat threshold_seconds auth.connector_id (account_info parsed) w) [
          | none ↦ (w, 500)
          | some w' ↦ (w', 200)
        ]

    -- POST /api/connectors/heartbeat; the status code is returned.
    unfoldable pub heartbeat : Option String → Option HeartbeatBody → World → World × ℕ
    unfolding heartbeat_with
    heartbeat header parsed w = elim (bearer_token header) [
      | none ↦ (w, 401)
      | some token ↦ heartbeat_with parsed (authenticate_connector hash_token token w)
    ]
