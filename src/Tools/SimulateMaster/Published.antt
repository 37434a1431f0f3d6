-- ===== src/Tools/SimulateMaster/Published.antt =====
-- From the seed to the published event.
use Prim.Native.String.{◌++◌}
use forex_remote_copy_tradin.Prelude.{
  ℕ, String, false, ◌≡◌, refl, sym, inl, inr, Option, none, some, [], ◌∷◌, List, is_some, truthy,
  All, All-find_first, subst, ◌==◌,
}
use forex_remote_copy_tradin.Prelude.Text.{strip_prefix-append}
use forex_remote_copy_tradin.Number.{Number}
use forex_remote_copy_tradin.Types.{Master, NormalizedTradeEvent}
use forex_remote_copy_tradin.World.{World, redis_get}
use forex_remote_copy_tradin.Auth.{Passwords}
use forex_remote_copy_tradin.Connectors.Bearer.{bearer_token}
use forex_remote_copy_tradin.Connectors.Service.{authenticate_connector}
use forex_remote_copy_tradin.Connectors.Service.Cache.{IsCoherent, authenticate_connector_lem}
use forex_remote_copy_tradin.Connectors.Service.Frame.{authenticate_connector-IsCached}
use forex_remote_copy_tradin.Ingest.{
  IngestReply, accepted, compute_latency, master_of_auth, normalized, ingest, ingest_with,
  ingest_trade_event,
}
use forex_remote_copy_tradin.Ingest.Once.{accept_cases}
use forex_remote_copy_tradin.Ingest.Parsing.{parse_event}
use forex_remote_copy_tradin.Tools.Seed.{Run, seed, dev_master_account_number, master_numbered}
use forex_remote_copy_tradin.Prelude.Results.{IfSome}
use forex_remote_copy_tradin.Tools.Seed.Token.{HasMasterToken, seed-HasMasterToken}
use forex_remote_copy_tradin.Tools.SimulateSlave.{parse_args}
use forex_remote_copy_tradin.Tools.SimulateMaster.{
  arg, load_token, PayloadDraw, payload, simulate_event,
}

bearer_token-bearer :
    (token : String) → (token == "") ≡ false → bearer_token (some ("Bearer " ++ token)) ≡ some token
unfolding bearer_token truthy
bearer_token-bearer token nonempty = rw (strip_prefix-append "Bearer " token, nonempty) refl

module _ (hash_token : String → String) (ttl_seconds : ℕ) where
  -- The Master of the seed publishes the event, and is told so.
  pub record IsPublished (e : NormalizedTradeEvent) (w : World)
      (after : Option (World × IngestReply)) : Type 0 where
    pub master : Master
    pub numbered : master_numbered w.masters dev_master_account_number ≡ some master
    pub next : World × IngestReply
    pub result : after ≡ some next
    pub published : next.0.published ≡ normalized e master.id w.now ∷ w.published
    pub reply :
        next.1
        ≡ accepted e.event_id w.now (compute_latency e.master_event_time e.ea_sent_time w.now)

  -- what becomes of a new event
  abbrev IsTaken : NormalizedTradeEvent → String → World → World × IngestReply → Type 0
  IsTaken e master_id w r =
      (r.0.published ≡ normalized e master_id w.now ∷ w.published)
      × (r.1 ≡ accepted e.event_id w.now (compute_latency e.master_event_time e.ea_sent_time w.now))

  ingest-IsTaken :
      (new_id master_id : String) (e : NormalizedTradeEvent) (w : World)
      → is_some (redis_get w.now e.event_id w.seen_events) ≡ false
      → IsTaken e master_id w (ingest ttl_seconds master_id new_id (some e) w)
  unfolding ingest
  ingest-IsTaken new_id master_id e w fresh =
      elim (accept_cases ttl_seconds new_id (normalized e master_id w.now) w) [
        | inl (seen, same) ↦ absurd (cc)
        | inr (new, published, keys, reply) ↦ (published, reply)
      ]

  -- a request with the token of a Master
  ingest_trade_event-IsTaken :
      (token new_id master_id : String) (e : NormalizedTradeEvent) (w : World)
      → (token == "") ≡ false
      → master_of_auth (authenticate_connector hash_token token w).1 ≡ some master_id
      → is_some (redis_get w.now e.event_id w.seen_events) ≡ false
      → IsTaken e master_id w
          (ingest_trade_event hash_token ttl_seconds (some ("Bearer " ++ token)) new_id (some e) w)
  unfolding ingest_trade_event ingest_with
  ingest_trade_event-IsTaken token new_id master_id e w nonempty found fresh =
      let auth = authenticate_connector hash_token token w in
      let cached = authenticate_connector-IsCached hash_token token w in
      rw (ingest_trade_event, bearer_token-bearer token nonempty, ingest_with, found)
        (subst (λ u. IsTaken e master_id w (ingest ttl_seconds master_id new_id (some e) u))
          (sym cached.same)
          (ingest-IsTaken new_id master_id e (record w { token_cache = cached.cache }) fresh))

  -- The token of the seed's Master authenticates it.
  has_token-authenticated :
      (connector_id token : String) (w : World)
      (has : HasMasterToken hash_token connector_id token w)
      → (has.master.id == "") ≡ false
      → master_of_auth (authenticate_connector hash_token token w).1 ≡ some has.master.id
  unfolding truthy
  has_token-authenticated connector_id token w has named =
      rw ((authenticate_connector_lem hash_token token w has.coherent).0, has.owned, named)
        (rw named refl)

  -- After a run of the seed, the simulator of a Master is run with its token file and whatever
  -- arguments, without a token of their own and without the variable. If the payload is valid and its
  -- event id is new, the event is published as one of the seed's Master, received at that moment, and
  -- the answer says so with the latency. The ids and the token are not empty.
  pub simulate_event-IsPublished :
      (passwords : Passwords) (username password : String) (run : Run) (w v : World)
      (number_of : String → Option Number) (trim : String → String) (draw : PayloadDraw)
      (new_id : String) (argv : List String) (e : NormalizedTradeEvent)
      → IsCoherent w
      → seed hash_token passwords username password run w ≡ some v
      → All (λ m. (m.id == "") ≡ false) v.masters
      → (run.of_master.token == "") ≡ false
      → trim run.of_master.token ≡ run.of_master.token
      → arg (parse_args argv []) "token" ≡ none
      → parse_event (payload number_of draw v.now (parse_args argv [])) ≡ some e
      → is_some (redis_get v.now e.event_id v.seen_events) ≡ false
      → IsPublished e v (
          simulate_event hash_token ttl_seconds number_of trim none
            (some run.of_master.token)
            draw
            new_id
            argv
            v)
  unfolding simulate_event load_token truthy
  simulate_event-IsPublished passwords username password run w v number_of trim draw new_id argv e
        ok ran named nonempty trimmed no_token parsed fresh =
      let has : HasMasterToken hash_token run.of_master.connector_id run.of_master.token v =
        subst (IfSome (HasMasterToken hash_token run.of_master.connector_id run.of_master.token))
          ran (seed-HasMasterToken hash_token passwords username password run w ok) in
      let named_master =
        All-find_first (λ m. (m.id == "") ≡ false)
          (λ m. m.account_number == dev_master_account_number) v.masters named has.numbered in
      let taken =
        ingest_trade_event-IsTaken run.of_master.token new_id has.master.id e v nonempty
          (has_token-authenticated run.of_master.connector_id run.of_master.token v has
            named_master)
          fresh in
      record {
        master = has.master;
        numbered = has.numbered;
        next =
            ingest_trade_event hash_token ttl_seconds (some ("Bearer " ++ run.of_master.token))
              new_id (some e) v;
        result = rw (simulate_event, load_token, no_token, trimmed, parsed) refl;
        published = taken.0;
        reply = taken.1;
      }
