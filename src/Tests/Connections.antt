-- ===== src/Tests/Connections.antt =====
-- The connectors' and gateways' theorems, and those of the ingest, at concrete inputs.
use forex_remote_copy_tradin.Number.{Number, of_int, floor}
use forex_remote_copy_tradin.Prelude.{
  ℕ, ◌<◌, ◌≡◌, refl, ◌⊎◌, true, none, some, [], ◌∷◌, arith, All, count_where, get_or,
}
use forex_remote_copy_tradin.Types.{NormalizedTradeEvent, closes, modifies}
use forex_remote_copy_tradin.World.{World, Socket}
use forex_remote_copy_tradin.CopyEngine.Dispatch.{instruction}
use forex_remote_copy_tradin.Realtime.WsGateway.{connected, send_to_slave}
use forex_remote_copy_tradin.Realtime.WsGateway.Reconnect.{reconnected, reconnected-send}
use forex_remote_copy_tradin.Connectors.Online.{has_online_connector, sweep_offline_connectors}
use forex_remote_copy_tradin.Connectors.Service.{
  authenticate_connector, register_connector, record_heartbeat, of_master, identity, new_connector,
}
use forex_remote_copy_tradin.Connectors.Service.Cache.{register-authenticate, IsCoherent}
use forex_remote_copy_tradin.Connectors.Service.Liveness.{
  sweep-IsFresh, heartbeat-sweep, swept_at, IsFresh,
}
use forex_remote_copy_tradin.Connectors.Polling.{poll, no_content, delivered, is_pending_for}
use forex_remote_copy_tradin.Connectors.Polling.Delivery.{
  poll-instruction, poll-count, ticket_for, HasTicket, stored_numbers,
}
use forex_remote_copy_tradin.Ingest.{ingest_trade_event}
use forex_remote_copy_tradin.Ingest.Authority.{ingest_trade_event-published, IsSpokenFor}
use forex_remote_copy_tradin.Connectors.Polling.{execution_result}
use forex_remote_copy_tradin.Connectors.Transport.{on_message, other_message, slave_socket_opened}
use forex_remote_copy_tradin.Connectors.Transport.Equivalence.{
  execution_result-on_message, slave_socket_opened-IsKeptOrOwned, IsKeptOrOwned,
}
use forex_remote_copy_tradin.Ingest.Once.{
  Request, ingest_all, HasDistinctIds, ingest_all-HasDistinctIds,
}
use forex_remote_copy_tradin.Tests.Data.{
  slave_mt4, opened, stored, pending_open, executed_open, connector_mt4, start, with_orders,
  instruction_of, executed_message,
}

abbrev waiting : World
waiting = with_orders (executed_open ∷ pending_open ∷ [])

-- a column that keeps the whole part alone
abbrev whole : ℕ → Number → Number
whole digits n = of_int (floor n)

poll-instruction_example :
    (((pending_open.type ≡ closes) ⊎ (pending_open.type ≡ modifies))
      × (ticket_for waiting "slave-4" pending_open ≡ none)
      × ((poll whole "slave-4" waiting).1 ≡ no_content))
    ⊎ (HasTicket whole waiting "slave-4" pending_open
        × ((poll whole "slave-4" waiting).1
            ≡ delivered (
                stored_numbers whole (
                  instruction "c4" slave_mt4 "t1" opened waiting
                    (ticket_for waiting "slave-4" pending_open)
                    pending_open.requested_volume))))
poll-instruction_example =
    poll-instruction whole slave_mt4 waiting pending_open (stored opened "t1") refl refl refl

poll-count_example :
    count_where (is_pending_for "slave-4") (poll whole "slave-4" waiting).0.copy_orders
    < count_where (is_pending_for "slave-4") waiting.copy_orders
poll-count_example = poll-count whole "slave-4" waiting pending_open (stored opened "t1") refl refl

abbrev registered : World
registered = get_or (register_connector (λ t. t) "k1" "t1" (of_master "master-1") none start) start

registered-some :
    register_connector (λ t. t) "k1" "t1" (of_master "master-1") none start ≡ some registered
unfolding register_connector
registered-some = refl

register-authenticate_example :
    IsCoherent registered
    × ((authenticate_connector (λ t. t) "t1" registered).1
        ≡ some (identity (new_connector (λ t. t) "k1" "t1" (of_master "master-1") none)))
register-authenticate_example =
    register-authenticate (λ t. t) "k1" "t1" (of_master "master-1") none start registered tt
      registered-some

abbrev beating : World
beating = get_or (record_heartbeat 15 "k4" none start) start

beating-some : record_heartbeat 15 "k4" none start ≡ some beating
unfolding record_heartbeat
beating-some = refl

sweep-IsFresh_example :
    All (IsFresh 15 1_000_000) (sweep_offline_connectors 15 beating).0.connectors
unfolding record_heartbeat
sweep-IsFresh_example = sweep-IsFresh 15 beating

heartbeat-sweep_example :
    (has_online_connector beating "slave-4" ≡ true)
    × (has_online_connector (swept_at 15 (1_015_000 ∷ 1_010_000 ∷ 1_005_000 ∷ []) beating) "slave-4"
        ≡ true)
heartbeat-sweep_example =
    heartbeat-sweep 15 "k4" "slave-4" none connector_mt4 start beating
      (1_015_000 ∷ 1_010_000 ∷ 1_005_000 ∷ []) refl refl beating-some
      (omega arith, (omega arith, (omega arith, tt)))

abbrev new_socket : Socket
new_socket = record { number = 3; is_open = true }

reconnected-send_example :
    send_to_slave "slave-5" (instruction_of "c1") (reconnected "slave-5" 2 new_socket start) ≡ (
      record (connected "slave-5" new_socket start) {
        sent = ("slave-5", instruction_of "c1") ∷ [];
      },
      true,
    )
reconnected-send_example =
    reconnected-send "slave-5" 2 new_socket (instruction_of "c1") start refl (omega arith)

-- the same event, delivered twice
abbrev request : ℕ → Request
request at = record { at = at; master_id = "master-1"; new_id = "t1"; payload = opened }

ingest_all-HasDistinctIds_example :
    HasDistinctIds (ingest_all 60 (request 5_000 ∷ request 9_000 ∷ []) start).published
ingest_all-HasDistinctIds_example =
    ingest_all-HasDistinctIds 60 5_000 (request 5_000 ∷ request 9_000 ∷ []) start
      ((omega arith, omega arith), ((omega arith, omega arith), tt)) refl

-- the token of a connector of the Master, which is registered
ingest_trade_event-published_example :
    ((ingest_trade_event (λ t. t) 60 (some "Bearer t1") "t9" (some opened) registered).0.published
      ≡ [])
    ⊎ ((e : NormalizedTradeEvent) × ((ingest_trade_event
            (λ t. t)
            60
            (some "Bearer t1")
            "t9"
            (some opened)
            registered).0.published
          ≡ e ∷ [])
        × IsSpokenFor (λ t. t) (some "Bearer t1") registered e)
unfolding register_connector
ingest_trade_event-published_example =
    ingest_trade_event-published (λ t. t) 60 (some "Bearer t1") "t9" (some opened) registered

-- the connector of the MT4 Slave posts a result
execution_result-on_message_example :
    execution_result (λ t. t) 15 (some "Bearer hash of t4") (some executed_message) start ≡ (
      on_message 15 "slave-4" "k4"
          (other_message (some executed_message))
          (authenticate_connector (λ t. t) "hash of t4" start).0,
      200,
    )
unfolding forex_remote_copy_tradin.Connectors.Bearer.bearer_token authenticate_connector
execution_result-on_message_example =
    execution_result-on_message (λ t. t) 15 (some "Bearer hash of t4") "hash of t4" "slave-4"
      executed_message start refl refl

slave_socket_opened-IsKeptOrOwned_example :
    IsKeptOrOwned
      (λ t. t)
      15
      (some "Bearer hash of t4")
      new_socket
      start
      (slave_socket_opened 15 (λ t. t) (some "Bearer hash of t4") new_socket start)
      "slave-4"
slave_socket_opened-IsKeptOrOwned_example =
    slave_socket_opened-IsKeptOrOwned (λ t. t) 15 (some "Bearer hash of t4") new_socket start
      "slave-4"
