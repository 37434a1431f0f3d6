-- ===== src/Ingest/Once.antt =====
-- What a history of requests publishes.
use forex_remote_copy_tradin.Prelude.{
  ℕ, ◌+◌, ◌*◌, ◌≤◌, ◌<◌, String, ◌≡◌, refl, sym, subst, ◌⊎◌, inl, inr, Bool, true, false, ◌&&◌,
  some, List, [], ◌∷◌, arith, any, is_some, All, leb, ◌==◌, Bool-cases, eq→beq, beq→eq,
}
use forex_remote_copy_tradin.Types.{NormalizedTradeEvent, LatencyBreakdown}
use forex_remote_copy_tradin.World.{World, Entry, redis_get, redis_set}
use forex_remote_copy_tradin.Ingest.{
  duplicate_ignored, accepted, normalized, accept, ingest, persist_trade_event, compute_latency,
}

persisted-published :
    (new_id : String) (e : NormalizedTradeEvent) (latency : LatencyBreakdown) (w : World)
    → (persist_trade_event new_id e latency w).published ≡ w.published
unfolding persist_trade_event
persisted-published new_id e latency w = ground arith

persisted-seen :
    (new_id : String) (e : NormalizedTradeEvent) (latency : LatencyBreakdown) (w : World)
    → (persist_trade_event new_id e latency w).seen_events ≡ w.seen_events
unfolding persist_trade_event
persisted-seen new_id e latency w = ground arith

-- The two outcomes of an event that parsed.
pub accept_cases :
    (ttl_seconds : ℕ) (new_id : String) (e : NormalizedTradeEvent) (w : World)
    → ((is_some (redis_get w.now e.event_id w.seen_events) ≡ true)
        × (accept ttl_seconds new_id e w ≡ (w, duplicate_ignored e.event_id)))
      ⊎ ((is_some (redis_get w.now e.event_id w.seen_events) ≡ false)
          × ((accept ttl_seconds new_id e w).0.published ≡ e ∷ w.published)
          × ((accept ttl_seconds new_id e w).0.seen_events
              ≡ redis_set w.now e.event_id tt ttl_seconds w.seen_events)
          × ((accept ttl_seconds new_id e w).1
              ≡ accepted e.event_id e.backend_received_time
                  (compute_latency e.master_event_time e.ea_sent_time e.backend_received_time)))
unfolding accept
accept_cases ttl_seconds new_id e w =
    elim (Bool-cases (is_some (redis_get w.now e.event_id w.seen_events))) [
      | inl seen ↦ inl (seen, rw seen)
      | inr fresh ↦ inr (
        fresh,
        rw fresh (persisted-published new_id e _ _),
        rw fresh (persisted-seen new_id e _ _),
        rw fresh,
      )
    ]

-- A request of an authenticated Master, at an instant, with the id that its row would take.
pub record Request : Type 0 where
  pub at : ℕ
  pub master_id : String
  pub new_id : String
  pub payload : NormalizedTradeEvent

-- A history of such requests.
pub ingest_all : ℕ → List Request → World → World
ingest_all ttl_seconds [] w = w
ingest_all ttl_seconds (r ∷ rs) w =
    ingest_all ttl_seconds rs
      (ingest ttl_seconds r.master_id r.new_id (some r.payload) (record w { now = r.at })).0

abbrev pub has_id : String → NormalizedTradeEvent → Bool
has_id event_id e = e.event_id == event_id

-- No two events of the list have the same event id.
abbrev pub HasDistinctIds : List NormalizedTradeEvent → Type 0
HasDistinctIds [] = Unit {0}
HasDistinctIds (e ∷ events) = (any (has_id e.event_id) events ≡ false) × HasDistinctIds events

-- The request falls into the period of one lifetime of the keys from `start`.
abbrev pub IsWithin : ℕ → ℕ → Request → Type 0
IsWithin ttl_seconds start r = (start ≤ r.at) × (r.at < start + ttl_seconds * 1000)

abbrev outlives : ℕ → String → Entry (Unit {0}) → Bool
outlives limit event_id s = s.key == event_id && leb limit s.expires_at

-- The key of a published event lives up to the limit.
abbrev IsKept : ℕ → List (Entry (Unit {0})) → NormalizedTradeEvent → Type 0
IsKept limit seen e = any (outlives limit e.event_id) seen ≡ true

live_of_kept :
    (limit now : ℕ) (event_id : String) (seen : List (Entry (Unit {0})))
    → now < limit
    → any (outlives limit event_id) seen ≡ true
    → is_some (redis_get now event_id seen) ≡ true
live_of_kept limit now event_id [] soon h = absurd (cc)
live_of_kept limit now event_id (s ∷ seen) soon h =
    ground (arith, live_of_kept limit now event_id seen soon)

not_published :
    (limit now : ℕ) (event_id : String) (seen : List (Entry (Unit {0})))
    (events : List NormalizedTradeEvent)
    → now < limit
    → is_some (redis_get now event_id seen) ≡ false
    → All (IsKept limit seen) events
    → any (has_id event_id) events ≡ false
not_published limit now event_id seen [] soon fresh all = refl
not_published limit now event_id seen (e ∷ events) soon fresh (kept, rest) =
    elim (Bool-cases (e.event_id == event_id)) [
      | inr other ↦ rw other (not_published limit now event_id seen events soon fresh rest)
      | inl same ↦
          let id = beq→eq e.event_id event_id same in
          let live = live_of_kept limit now event_id seen soon (rw id at kept) in absurd (cc)
    ]

All-IsKept_new :
    (limit : ℕ) (s : Entry (Unit {0})) (seen : List (Entry (Unit {0})))
    (events : List NormalizedTradeEvent)
    → All (IsKept limit seen) events
    → All (IsKept limit (s ∷ seen)) events
All-IsKept_new limit s seen [] all = tt
All-IsKept_new limit s seen (e ∷ events) (kept, rest) =
    (ground arith, All-IsKept_new limit s seen events rest)

-- What holds between the requests of the period.
record IsOnce (limit : ℕ) (w : World) : Type 0 where
  distinct : HasDistinctIds w.published
  kept : All (IsKept limit w.seen_events) w.published

with_key :
    (ttl_seconds start : ℕ) (e : NormalizedTradeEvent) (w : World)
    → start ≤ w.now
    → All (IsKept (start + ttl_seconds * 1000) w.seen_events) w.published
    → All
        (IsKept
          (start + ttl_seconds * 1000)
          (redis_set w.now e.event_id tt ttl_seconds w.seen_events))
        (e ∷ w.published)
with_key ttl_seconds start e w late kept = (
  ground (arith, eq→beq e.event_id e.event_id),
  All-IsKept_new _ _ w.seen_events w.published kept,
)

accept-IsOnce :
    (ttl_seconds start : ℕ) (new_id : String) (e : NormalizedTradeEvent) (w : World)
    → start ≤ w.now
    → w.now < start + ttl_seconds * 1000
    → IsOnce (start + ttl_seconds * 1000) w
    → IsOnce (start + ttl_seconds * 1000) (accept ttl_seconds new_id e w).0
accept-IsOnce ttl_seconds start new_id e w late soon v =
    elim (accept_cases ttl_seconds new_id e w) [
      | inl (seen, same) ↦ rw same v
      | inr (fresh, published, keys, reply) ↦
          let limit = start + ttl_seconds * 1000 in
          let after = (accept ttl_seconds new_id e w).0 in
          let once = with_key ttl_seconds start e w late v.kept in
          record {
            distinct = rw published (
              not_published _ w.now e.event_id w.seen_events w.published soon fresh v.kept,
              v.distinct,
            );
            kept =
                subst (λ seen. All (IsKept limit seen) after.published) (sym keys)
                  (subst
                    (All (IsKept limit (redis_set w.now e.event_id tt ttl_seconds w.seen_events)))
                    (sym published) once);
          }
    ]

ingest_all-IsOnce :
    (ttl_seconds start : ℕ) (rs : List Request) (w : World)
    → All (IsWithin ttl_seconds start) rs
    → IsOnce (start + ttl_seconds * 1000) w
    → IsOnce (start + ttl_seconds * 1000) (ingest_all ttl_seconds rs w)
unfolding ingest_all ingest
ingest_all-IsOnce ttl_seconds start [] w within v = v
ingest_all-IsOnce ttl_seconds start (r ∷ rs) w (here, rest) v =
    ingest_all-IsOnce ttl_seconds start rs _ rest (
      accept-IsOnce ttl_seconds start r.new_id (normalized r.payload r.master_id r.at)
        (record w { now = r.at }) here.0 here.1 (record { distinct = v.distinct; kept = v.kept }))

-- Whatever the Masters send, and however often, in a period no longer than the lifetime of the
-- idempotency keys, no event id is published twice.
pub ingest_all-HasDistinctIds :
    (ttl_seconds start : ℕ) (rs : List Request) (w : World)
    → All (IsWithin ttl_seconds start) rs
    → w.published ≡ []
    → HasDistinctIds (ingest_all ttl_seconds rs w).published
ingest_all-HasDistinctIds ttl_seconds start rs w within none_yet =
    (ingest_all-IsOnce ttl_seconds start rs w within
      (record { distinct = rw none_yet tt; kept = rw none_yet tt })).distinct
