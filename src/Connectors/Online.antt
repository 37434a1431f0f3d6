-- ===== src/Connectors/Online.antt =====
-- hasOnlineConnector and sweepOfflineConnectors of
-- backend/src/modules/connectors/connector.service.ts
use forex_remote_copy_tradin.Prelude.{
  ℕ, ◌*◌, ◌-◌, String, Bool, true, false, ◌&&◌, Option, none, some, any, update_where, count_where,
  ltb, ◌==◌,
}
use forex_remote_copy_tradin.Types.{Connector, ConnectorStatus, online, offline}
use forex_remote_copy_tradin.World.{World}

abbrev pub is_online : ConnectorStatus → Bool
is_online online = true
is_online _ = false

-- `connector.slaveId` is the given Slave
abbrev pub is_slave : Option String → String → Bool
is_slave none slave_id = false
is_slave (some s) slave_id = s == slave_id

unfoldable pub has_online_connector : World → String → Bool
has_online_connector w slave_id =
    any (λ c. is_slave c.slave_id slave_id && is_online c.status) w.connectors

-- no heartbeat, or one before `now` by more than the threshold
abbrev pub is_stale : ℕ → ℕ → Option ℕ → Bool
is_stale threshold_seconds now none = true
is_stale threshold_seconds now (some at) = ltb at (now - threshold_seconds * 1000)

abbrev pub is_swept : ℕ → ℕ → Connector → Bool
is_swept threshold_seconds now c =
    is_online c.status && is_stale threshold_seconds now c.last_heartbeat_at

-- CONNECTOR_OFFLINE_THRESHOLD_SECONDS is a parameter.
unfoldable pub sweep_offline_connectors : ℕ → World → World × ℕ
sweep_offline_connectors threshold_seconds w = (
  record w {
    connectors =
        update_where (is_swept threshold_seconds w.now) (λ c. record c { status = offline })
          w.connectors;
  },
  count_where (is_swept threshold_seconds w.now) w.connectors,
)
