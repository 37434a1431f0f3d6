-- ===== src/System/Writes/Steps.antt =====
-- Every step of the system as a sequence of writes.
use forex_remote_copy_tradin.Prelude.{ℕ, String, refl, inl, inr, Bool-cases}
use forex_remote_copy_tradin.World.{World}
use forex_remote_copy_tradin.Realtime.WsGateway.{closed, get, delete, is_socket}
use forex_remote_copy_tradin.Realtime.AdminWsGateway.{admin_connected, admin_closed}
use forex_remote_copy_tradin.Slaves.SymbolMapping.{upsert_symbol_mapping, delete_symbol_mapping}
use forex_remote_copy_tradin.Connectors.Online.{sweep_offline_connectors, is_swept}
use forex_remote_copy_tradin.Connectors.Polling.{
  PollReply, pending_instruction, execution_result, poll_with, result_with,
}
use forex_remote_copy_tradin.Connectors.Transport.{
  slave_socket_opened, opened_with, heartbeat, heartbeat_with,
}
use forex_remote_copy_tradin.Ingest.{IngestReply, ingest_trade_event, ingest_with}
use forex_remote_copy_tradin.System.{
  Settings, Step, time_passed, event_ingested, event_copied, slave_polled, result_posted,
  heartbeat_posted, socket_opened, message_received, socket_closed, dashboard_opened,
  dashboard_closed, connectors_swept, connector_registered, symbol_mapped, symbol_unmapped,
  master_posted, slave_posted, slave_patched, master_connector_posted, slave_connector_posted,
  mapping_posted, mapping_removed, here, after, Reaches,
}
use forex_remote_copy_tradin.System.Writes.Services.{register_connector-Writes}
use forex_remote_copy_tradin.System.Writes.Copies.{handle_master_event-Writes}
use forex_remote_copy_tradin.System.Writes.Handlers.{
  behind_token, ingest_with-Writes, poll_with-Writes, result_with-Writes, opened_with-Writes,
  heartbeat_with-Writes, message-Writes,
}
use forex_remote_copy_tradin.System.Writes.{outside, connectors_updated, Writes, done, one, both}
use forex_remote_copy_tradin.System.Writes.Requests.{
  create_master-Writes, create_slave-Writes, patch_slave-Writes, post_mapping-Writes,
  remove_mapping-Writes, slave_connector-Writes, master_connector-Writes,
}

closed-Writes : (slave_id : String) (number : ℕ) (w : World) → Writes w (closed slave_id number w)
unfolding closed
closed-Writes slave_id number w =
    elim (Bool-cases (is_socket (get slave_id w.connections) number)) [
      | inl own ↦
          rw (closed, own)
            (one (outside (record w { connections = delete slave_id w.connections })))
      | inr newer ↦ rw (closed, newer) done
    ]

-- A step of the system is a sequence of writes.
pub Step-Writes : (c : Settings) (w v : World) → Step c w v → Writes w v
unfolding sweep_offline_connectors upsert_symbol_mapping delete_symbol_mapping admin_connected
    admin_closed ingest_trade_event pending_instruction execution_result slave_socket_opened
    heartbeat
Step-Writes c w v (time_passed now later) = one (outside (record w { now = now }))
Step-Writes c w v (event_ingested header new_id parsed) =
    behind_token c (λ r. r.0) (w, IngestReply.unauthorized) header w
      (ingest_with c.hash_token c.idempotency_ttl_seconds new_id parsed) done
      (ingest_with-Writes c new_id parsed)
Step-Writes c w v (event_copied new_id late e) = handle_master_event-Writes new_id e late w
Step-Writes c w v (slave_polled header) =
    behind_token c (λ r. r.0) (w, PollReply.unauthorized) header w
      (poll_with c.hash_token c.offline_threshold_seconds c.numeric) done (poll_with-Writes c)
Step-Writes c w v (result_posted header parsed) =
    behind_token c (λ r. r.0) (w, 401) header w
      (result_with c.hash_token c.offline_threshold_seconds parsed) done
      (result_with-Writes c parsed)
Step-Writes c w v (heartbeat_posted header parsed) =
    behind_token c (λ r. r.0) (w, 401) header w
      (heartbeat_with c.offline_threshold_seconds c.hash_token parsed) done
      (heartbeat_with-Writes c parsed)
Step-Writes c w v (socket_opened header socket) =
    behind_token c (λ v. v) w header w (opened_with c.offline_threshold_seconds c.hash_token socket)
      done (opened_with-Writes c socket)
Step-Writes c w v (message_received slave_id connector_id m) =
    message-Writes c slave_id connector_id m w
Step-Writes c w v (socket_closed slave_id number) = closed-Writes slave_id number w
Step-Writes c w v (dashboard_opened socket) = one (outside (admin_connected socket w))
Step-Writes c w v (dashboard_closed number) = one (outside (admin_closed number w))
Step-Writes c w v connectors_swept = one (
    connectors_updated (is_swept c.offline_threshold_seconds w.now) _
      (λ d. record { token_hash = refl; identity = refl }))
Step-Writes c w v (connector_registered new_id token owner version u h) =
    let made = register_connector-Writes c.hash_token new_id token owner version w in rw h at made
Step-Writes c w v (symbol_mapped new_id slave_id master_symbol slave_symbol) =
    one (outside (upsert_symbol_mapping new_id slave_id master_symbol slave_symbol w))
Step-Writes c w v (symbol_unmapped slave_id mapping) =
    one (outside (delete_symbol_mapping slave_id mapping w).0)
Step-Writes c w v (master_posted new_id parsed ip) = create_master-Writes new_id parsed ip w
Step-Writes c w v (slave_posted new_id parsed ip) = create_slave-Writes c.numeric new_id parsed ip w
Step-Writes c w v (slave_patched id parsed ip) = patch_slave-Writes c.numeric id parsed ip w
Step-Writes c w v (master_connector_posted id new_id token version ip) =
    master_connector-Writes c id new_id token version ip w
Step-Writes c w v (slave_connector_posted id new_id token version ip) =
    slave_connector-Writes c id new_id token version ip w
Step-Writes c w v (mapping_posted id new_id parsed ip) = post_mapping-Writes id new_id parsed ip w
Step-Writes c w v (mapping_removed id mapping ip) = remove_mapping-Writes id mapping ip w

pub Reaches-Writes : (c : Settings) (w w' : World) → Reaches c w w' → Writes w w'
Reaches-Writes c w w' here = done
Reaches-Writes c w w' (after {v} path step) =
    both (Reaches-Writes c w v path) (Step-Writes c v w' step)
