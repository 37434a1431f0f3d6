-- ===== src/Ingest.antt =====
-- backend/src/modules/ingest: the events of the Masters, with the latency of
-- backend/src/modules/monitoring/latency.ts.
pub mod Parsing
pub mod Once
pub mod Authority
use forex_remote_copy_tradin.Prelude.{
  ℕ, ◌+◌, ◌-◌, String, Bool, true, false, Option, none, some, List, ◌∷◌, if◌then◌else◌, any,
  is_some, truthy, ◌==◌,
}
use forex_remote_copy_tradin.Types.{
  NormalizedTradeEvent, TradeEvent, LatencyBreakdown, AuthenticatedConnector, OwnerType,
}
use forex_remote_copy_tradin.World.{World, redis_get, redis_set}
use forex_remote_copy_tradin.Connectors.Bearer.{bearer_token}
use forex_remote_copy_tradin.Connectors.Service.{authenticate_connector}

-- Instants are milliseconds, so `Math.max(0, a - b)` is the difference of ℕ.
pub compute_latency : ℕ → ℕ → ℕ → LatencyBreakdown
compute_latency master_event_time ea_sent_time backend_received_time = record {
  detection_latency_ms = ea_sent_time - master_event_time;
  network_latency_ms = backend_received_time - ea_sent_time;
  total_latency_ms = ea_sent_time - master_event_time + (backend_received_time - ea_sent_time);
}

-- publishTradeEvent: the event goes to the channel of its masterId.
abbrev pub publish_trade_event : NormalizedTradeEvent → World → World
publish_trade_event e w = record w { published = e ∷ w.published }

abbrev pub is_event : String → TradeEvent → Bool
is_event event_id t = t.event.event_id == event_id

-- persistTradeEvent: a duplicate event_id, which the unique constraint refuses, is logged and dropped.
unfoldable pub persist_trade_event :
    String → NormalizedTradeEvent → LatencyBreakdown → World → World
persist_trade_event new_id e latency w =
    if any (is_event e.event_id) w.trade_events then w else record w {
      trade_events = record { id = new_id; event = e; latency = latency } ∷ w.trade_events;
    }

pub data IngestReply : Type 0 where
  unauthorized invalid_payload : IngestReply
  duplicate_ignored : String → IngestReply
  accepted : String → ℕ → LatencyBreakdown → IngestReply

-- the Master that a connector belongs to; `none` is the answer 401
abbrev pub master_of_auth : Option AuthenticatedConnector → Option String
master_of_auth none = none
master_of_auth (some a) = elim a.owner_type [
  | OwnerType.master ↦ truthy a.master_id
  | OwnerType.slave ↦ none
]

-- `{ ...payload, masterId, backendReceivedTime }`: the payload's own two fields, if any, are replaced.
abbrev pub normalized : NormalizedTradeEvent → String → ℕ → NormalizedTradeEvent
normalized payload master_id received = record payload {
  master_id = master_id;
  backend_received_time = received;
}

-- `redis.set(key, "1", "EX", ttl, "NX")`, and what follows. The event is persisted after the answer.
unfoldable pub accept : ℕ → String → NormalizedTradeEvent → World → World × IngestReply
accept ttl_seconds new_id e w =
    let latency = compute_latency e.master_event_time e.ea_sent_time e.backend_received_time in
    let seen = record w { seen_events = redis_set w.now e.event_id tt ttl_seconds w.seen_events } in
    if is_some (redis_get w.now e.event_id w.seen_events)
    then (w, duplicate_ignored e.event_id)
    else (
      persist_trade_event new_id e latency (publish_trade_event e seen),
      accepted e.event_id e.backend_received_time latency,
    )

-- an event of an authenticated Master; EVENT_IDEMPOTENCY_TTL_SECONDS is a parameter
unfoldable pub ingest :
    ℕ → String → String → Option NormalizedTradeEvent → World → World × IngestReply
unfolding accept
ingest ttl_seconds master_id new_id none w = (w, invalid_payload)
ingest ttl_seconds master_id new_id (some payload) w =
    accept ttl_seconds new_id (normalized payload master_id w.now) w

module _ (hash_token : String → String) (ttl_seconds : ℕ) where
  unfoldable pub ingest_with :
      String
      → Option NormalizedTradeEvent
      → World × Option AuthenticatedConnector
      → World × IngestReply
  ingest_with new_id parsed (w, auth) = elim (master_of_auth auth) [
    | none ↦ (w, unauthorized)
    | some master_id ↦ ingest ttl_seconds master_id new_id parsed w
  ]

  -- POST /api/ingest/trade-event, with the body as it parsed
  unfoldable pub ingest_trade_event :
      Option String → String → Option NormalizedTradeEvent → World → World × IngestReply
  unfolding ingest_with
  ingest_trade_event header new_id parsed w = elim (bearer_token header) [
    | none ↦ (w, unauthorized)
    | some token ↦ ingest_with new_id parsed (authenticate_connector hash_token token w)
  ]
