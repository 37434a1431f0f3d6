-- ===== src/System/Writes/Services.antt =====
-- Authentication, heartbeats, the messages of the Slaves and the ingest as sequences of writes.
use forex_remote_copy_tradin.Prelude.{
  ℕ, ◌∷◌, String, ◌≡◌, refl, inl, inr, Option, none, some, get_or, truthy, Option-cases, Bool-cases,
  find_first, any, is_some, ◌∷◌, ◌||◌, ◌==◌,
}
use forex_remote_copy_tradin.Number.{Number}
use forex_remote_copy_tradin.Types.{
  LatencyBreakdown, ErrorReason, CopyOrderStatus, Connector, CopyOrder, TradeEvent, ExecutionResult,
  NormalizedTradeEvent, is_closes, is_modifies,
}
use forex_remote_copy_tradin.World.{World, Broadcast, redis_get, redis_set, find_order}
use forex_remote_copy_tradin.Realtime.AdminWsGateway.{broadcast_to_admins}
use forex_remote_copy_tradin.Connectors.Service.{
  AccountSnapshot, authenticate_connector, look_up, find_by_hash, store_slave, store_account,
  report, marked, beaten, record_heartbeat, register_connector, ConnectorOwner, new_connector,
}
use forex_remote_copy_tradin.CopyEngine.Queries.{trade_event_of, find_executed_open_slave_ticket}
use forex_remote_copy_tradin.CopyEngine.Results.{
  handle_slave_message, record_result, announce, with_result,
}
use forex_remote_copy_tradin.Connectors.Polling.{
  oldest_pending, hand_over, hand_over_with, pick_up, poll,
}
use forex_remote_copy_tradin.Ingest.{
  publish_trade_event, ingest, accept, persist_trade_event, is_event, normalized,
}
use forex_remote_copy_tradin.System.Writes.{
  IsSameOrder, outside, token_cached, connectors_updated, connector_added, order_updated, Writes,
  done, next, one, both,
}

module _ (hash_token : String → String) where
  look_up-Writes :
      (hash : String) (o : Option Connector) (w : World)
      → find_by_hash w.connectors hash ≡ o
      → Writes w (look_up hash_token hash o w).0
  unfolding look_up
  look_up-Writes hash none w e = done
  look_up-Writes hash (some c) w e = one (token_cached hash c e)

  pub authenticate_connector-Writes :
      (token : String) (w : World) → Writes w (authenticate_connector hash_token token w).0
  unfolding authenticate_connector
  authenticate_connector-Writes token w =
      elim (Option-cases (redis_get w.now (hash_token token) w.token_cache)) [
        | inl miss ↦ rw (authenticate_connector, miss) (look_up-Writes (hash_token token) _ w refl)
        | inr (a, hit) ↦ rw (authenticate_connector, hit) done
      ]

  pub register_connector-Writes :
      (new_id token : String) (owner : ConnectorOwner) (version : Option String) (w : World)
      → Writes w (get_or (register_connector hash_token new_id token owner version w) w)
  unfolding register_connector
  register_connector-Writes new_id token owner version w =
      elim (Option-cases (find_by_hash w.connectors (hash_token token))) [
        | inl free ↦
            rw (register_connector, free)
              (one (connector_added (new_connector hash_token new_id token owner version) free))
        | inr (c, taken) ↦ rw (register_connector, taken) done
      ]

module _ (threshold_seconds : ℕ) (id : String) where
  stored-Writes :
      (a : AccountSnapshot) (master slave : Option String) (w : World)
      → Writes w (store_account a master slave w)
  unfolding store_account store_slave
  stored-Writes a none none w = done
  stored-Writes a none (some slave) w = one (outside (store_account a none (some slave) w))
  stored-Writes a (some master) slave w = one (outside (store_account a (some master) slave w))

  report-Writes :
      (account : Option AccountSnapshot) (c : Connector) (w : World) → Writes w (report account c w)
  unfolding report
  report-Writes none c w = done
  report-Writes (some a) c w = stored-Writes a (truthy c.master_id) (truthy c.slave_id) w

  marked-Writes : (w : World) → Writes w (marked threshold_seconds id w)
  marked-Writes w =
      next
        (one (
          connectors_updated (λ d. d.id == id) (beaten w.now)
            (λ c. record { token_hash = refl; identity = refl })))
        (outside (marked threshold_seconds id w))

  pub record_heartbeat-Writes :
      (account : Option AccountSnapshot) (w : World)
      → Writes w (get_or (record_heartbeat threshold_seconds id account w) w)
  unfolding record_heartbeat
  record_heartbeat-Writes account w =
      elim (Option-cases (find_first (λ c. c.id == id) w.connectors)) [
        | inl missing ↦ rw (record_heartbeat, missing) done
        | inr (c, found) ↦
            rw (record_heartbeat, found) (both (marked-Writes w) (report-Writes account c _))
      ]

pub told : (b : Broadcast) (w : World) → Writes w (broadcast_to_admins b w)
unfolding broadcast_to_admins
told b w = one (outside (broadcast_to_admins b w))

-- What an update writes are the columns of the outcome.
pub unchanged :
    {o : CopyOrder} {status : CopyOrderStatus} {ticket : Option String} {price : Option Number}
    {reason : Option ErrorReason} {sent_at executed_at : Option ℕ}
    → IsSameOrder o (record o {
      status = status;
      slave_ticket = ticket;
      execution_price = price;
      error_reason = reason;
      sent_at = sent_at;
      executed_at = executed_at;
    })
unchanged = record {
  id = refl;
  trade_event_id = refl;
  master_id = refl;
  slave_id = refl;
  master_ticket = refl;
  type = refl;
}

announced :
    (slave_id : String) (r : ExecutionResult) (o : CopyOrder) (e : Option TradeEvent) (w : World)
    → Writes w (announce slave_id r o e w)
unfolding broadcast_to_admins
announced slave_id r o none w = done
announced slave_id r o (some e) w = one (outside (announce slave_id r o (some e) w))

record_result-Writes :
    (slave_id : String) (r : ExecutionResult) (found : Option CopyOrder) (w : World)
    → Writes w (record_result slave_id r found w)
unfolding record_result broadcast_to_admins
record_result-Writes slave_id r none w = done
record_result-Writes slave_id r (some o) w = elim (Bool-cases (o.slave_id == slave_id)) [
  | inr other ↦ rw other done
  | inl own ↦ rw own (
      both (one (order_updated r.copy_id (with_result r w.now) (λ q. unchanged)))
        (announced slave_id r o (trade_event_of w.trade_events o) _))
]

pub handle_slave_message-Writes :
    (slave_id : String) (parsed : Option ExecutionResult) (w : World)
    → Writes w (handle_slave_message slave_id parsed w)
unfolding handle_slave_message
handle_slave_message-Writes slave_id none w = done
handle_slave_message-Writes slave_id (some r) w =
    record_result-Writes slave_id r (find_order w.copy_orders r.copy_id) w

module _ (numeric : ℕ → Number → Number) (slave_id : String) where
  handed_over :
      (o : CopyOrder) (t : TradeEvent) (ticket : Option String) (w : World)
      → Writes w (hand_over numeric slave_id o t ticket w).0
  handed_over o t ticket w = both (one (order_updated o.id _ (λ q. unchanged))) (told _ _)

  handed_over_with :
      (o : CopyOrder) (t : TradeEvent) (ticket : Option String) (w : World)
      → Writes w (hand_over_with numeric slave_id o t ticket w).0
  handed_over_with o t none w = both (one (order_updated o.id _ (λ q. unchanged))) (told _ _)
  handed_over_with o t (some ticket) w = handed_over o t (some ticket) w

  pick_up-Writes :
      (o : CopyOrder) (t : Option TradeEvent) (w : World)
      → Writes w (pick_up numeric slave_id o t w).0
  unfolding pick_up
  pick_up-Writes o none w = done
  pick_up-Writes o (some t) w = elim (Bool-cases (is_closes o.type || is_modifies o.type)) [
    | inl reduces ↦ rw reduces (
        handed_over_with o t
          (truthy (find_executed_open_slave_ticket w.copy_orders slave_id o.master_ticket)) w)
    | inr opens ↦ rw opens (handed_over o t none w)
  ]

  pub poll-Writes : (w : World) → Writes w (poll numeric slave_id w).0
  unfolding poll
  poll-Writes w = elim (Option-cases (oldest_pending w slave_id)) [
    | inl empty ↦ rw (poll, empty) done
    | inr (o, oldest) ↦ rw (poll, oldest) (pick_up-Writes o (trade_event_of w.trade_events o) w)
  ]

persist-Writes :
    (new_id : String) (e : NormalizedTradeEvent) (l : LatencyBreakdown) (w : World)
    → Writes w (persist_trade_event new_id e l w)
unfolding persist_trade_event
persist-Writes new_id e l w = elim (Bool-cases (any (is_event e.event_id) w.trade_events)) [
  | inl stored ↦ rw (persist_trade_event, stored) done
  | inr new ↦
      rw (persist_trade_event, new)
        (one (
          outside (record w {
            trade_events = record { id = new_id; event = e; latency = l } ∷ w.trade_events;
          })))
]

accept-Writes :
    (ttl : ℕ) (new_id : String) (e : NormalizedTradeEvent) (w : World)
    → Writes w (accept ttl new_id e w).0
unfolding accept
accept-Writes ttl new_id e w =
    elim (Bool-cases (is_some (redis_get w.now e.event_id w.seen_events))) [
      | inl seen ↦ rw (accept, seen) done
      | inr new ↦
          rw (accept, new)
            (both
              (one (
                outside (
                  publish_trade_event e
                    (record w { seen_events = redis_set w.now e.event_id tt ttl w.seen_events }))))
              (persist-Writes new_id e _ _))
    ]

pub ingest-Writes :
    (ttl : ℕ) (master_id new_id : String) (parsed : Option NormalizedTradeEvent) (w : World)
    → Writes w (ingest ttl master_id new_id parsed w).0
unfolding ingest
ingest-Writes ttl master_id new_id none w = done
ingest-Writes ttl master_id new_id (some payload) w =
    accept-Writes ttl new_id (normalized payload master_id w.now) w
