-- ===== src/System/Writes/Handlers.antt =====
-- The handlers behind the authentication of a connector as sequences of writes.
use forex_remote_copy_tradin.Prelude.{String, inl, inr, Option, none, some, Option-cases}
use forex_remote_copy_tradin.Types.{
  AuthenticatedConnector, NormalizedTradeEvent, ExecutionResult, AuditValue,
}
use forex_remote_copy_tradin.World.{World, Socket}
use forex_remote_copy_tradin.Realtime.WsGateway.{connected}
use forex_remote_copy_tradin.Slaves.Routes.{issued}
use forex_remote_copy_tradin.Connectors.Bearer.{bearer_token}
use forex_remote_copy_tradin.Connectors.Service.{
  ConnectorOwner, authenticate_connector, register_connector, record_heartbeat,
}
use forex_remote_copy_tradin.Connectors.Polling.{
  poll_with, result_with, slave_of_auth, connector_of_auth,
}
use forex_remote_copy_tradin.Connectors.Transport.{
  SlaveMessage, malformed, heartbeat_message, other_message, HeartbeatBody, account_info,
  on_message, opened_with, heartbeat_with,
}
use forex_remote_copy_tradin.Ingest.{ingest_with, master_of_auth}
use forex_remote_copy_tradin.System.{Settings}
use forex_remote_copy_tradin.System.Writes.{outside, Writes, done, one, both}
use forex_remote_copy_tradin.System.Writes.Services.{
  authenticate_connector-Writes, register_connector-Writes, record_heartbeat-Writes,
  handle_slave_message-Writes, poll-Writes, ingest-Writes,
}

module _ (c : Settings) where
  -- the routes behind the authentication of a connector
  pub ingest_with-Writes :
      (new_id : String) (parsed : Option NormalizedTradeEvent) (w : World)
      (auth : Option AuthenticatedConnector)
      → Writes w (ingest_with c.hash_token c.idempotency_ttl_seconds new_id parsed (w, auth)).0
  unfolding ingest_with
  ingest_with-Writes new_id parsed w auth = elim (Option-cases (master_of_auth auth)) [
    | inl refused ↦ rw (ingest_with, refused) done
    | inr (master_id, own) ↦
        rw (ingest_with, own) (ingest-Writes c.idempotency_ttl_seconds master_id new_id parsed w)
  ]

  pub poll_with-Writes :
      (w : World) (auth : Option AuthenticatedConnector)
      → Writes w (poll_with c.hash_token c.offline_threshold_seconds c.numeric (w, auth)).0
  unfolding poll_with
  poll_with-Writes w auth = elim (Option-cases (slave_of_auth auth)) [
    | inl refused ↦ rw (poll_with, refused) done
    | inr (slave_id, own) ↦
        rw (poll_with, own)
          (both
            (record_heartbeat-Writes c.offline_threshold_seconds (connector_of_auth auth) none w)
            (poll-Writes c.numeric slave_id _))
  ]

  pub result_with-Writes :
      (parsed : Option ExecutionResult) (w : World) (auth : Option AuthenticatedConnector)
      → Writes w (result_with c.hash_token c.offline_threshold_seconds parsed (w, auth)).0
  unfolding result_with
  result_with-Writes none w auth = elim (Option-cases (slave_of_auth auth)) [
    | inl refused ↦ rw (result_with, refused) done
    | inr (slave_id, own) ↦ rw (result_with, own) done
  ]
  result_with-Writes (some r) w auth = elim (Option-cases (slave_of_auth auth)) [
    | inl refused ↦ rw (result_with, refused) done
    | inr (slave_id, own) ↦
        rw (result_with, own)
          (both
            (record_heartbeat-Writes c.offline_threshold_seconds (connector_of_auth auth) none w)
            (handle_slave_message-Writes slave_id (some r) _))
  ]

  pub opened_with-Writes :
      (socket : Socket) (w : World) (auth : Option AuthenticatedConnector)
      → Writes w (opened_with c.offline_threshold_seconds c.hash_token socket (w, auth))
  unfolding opened_with connected
  opened_with-Writes socket w auth = elim (Option-cases (slave_of_auth auth)) [
    | inl refused ↦ rw (opened_with, refused) done
    | inr (slave_id, own) ↦
        rw (opened_with, own)
          (both (one (outside (connected slave_id socket w)))
            (record_heartbeat-Writes c.offline_threshold_seconds (connector_of_auth auth) none _))
  ]

  pub heartbeat_with-Writes :
      (parsed : Option HeartbeatBody) (w : World) (auth : Option AuthenticatedConnector)
      → Writes w (heartbeat_with c.offline_threshold_seconds c.hash_token parsed (w, auth)).0
  unfolding heartbeat_with
  heartbeat_with-Writes parsed w none = done
  heartbeat_with-Writes parsed w (some auth) =
      let beat =
        record_heartbeat-Writes c.offline_threshold_seconds auth.connector_id (account_info parsed)
          w in
      elim (Option-cases
        (record_heartbeat c.offline_threshold_seconds auth.connector_id (account_info parsed) w)) [
          | inl missing ↦ rw (heartbeat_with, missing) done
          | inr (w', found) ↦ rw (heartbeat_with, found) (rw found at beat)
        ]

  pub message-Writes :
      (slave_id connector_id : String) (m : SlaveMessage) (w : World)
      → Writes w (on_message c.offline_threshold_seconds slave_id connector_id m w)
  unfolding on_message
  message-Writes slave_id connector_id malformed w = done
  message-Writes slave_id connector_id (heartbeat_message b) w =
      record_heartbeat-Writes c.offline_threshold_seconds connector_id (account_info (some b)) w
  message-Writes slave_id connector_id (other_message parsed) w =
      both (record_heartbeat-Writes c.offline_threshold_seconds connector_id none w)
        (handle_slave_message-Writes slave_id parsed _)

  -- the token of a request, and what follows its authentication
  pub behind_token {ℓ} :
      {R : Type ℓ} (state : R → World) (refused : R) (header : Option String) (w : World)
      (f : World × Option AuthenticatedConnector → R)
      → Writes w (state refused)
      → ((v : World) (auth : Option AuthenticatedConnector) → Writes v (state (f (v, auth))))
      → Writes w (
          state (elim (bearer_token header) [
            | none ↦ refused
            | some token ↦ f (authenticate_connector c.hash_token token w)
          ]))
  behind_token state refused header w f without after = elim (Option-cases (bearer_token header)) [
    | inl missing ↦ rw missing without
    | inr (token, carried) ↦
        rw carried (both (authenticate_connector-Writes c.hash_token token w) (after _ _))
  ]

  -- a registration, and the entry of the log
  pub issued-Writes :
      (id new_id token : String) (value : AuditValue) (owner : ConnectorOwner)
      (version ip : Option String) (w : World)
      → Writes w
          (issued new_id token id value ip w
            (register_connector c.hash_token new_id token owner version w)).0
  issued-Writes id new_id token value owner version ip w =
      let made = register_connector-Writes c.hash_token new_id token owner version w in
      elim (Option-cases (register_connector c.hash_token new_id token owner version w)) [
        | inl thrown ↦ rw thrown done
        | inr (v, done_so) ↦ rw done_so (
            both (rw done_so at made)
              (one (outside (issued new_id token id value ip w (some v)).0)))
      ]
