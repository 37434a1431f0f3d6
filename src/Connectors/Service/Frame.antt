-- ===== src/Connectors/Service/Frame.antt =====
-- What authentication and heartbeats leave alone.
use forex_remote_copy_tradin.Prelude.{
  ℕ, String, ◌≡◌, refl, inl, inr, Option, none, some, List, Option-cases, truthy, find_first,
  get_or, ◌==◌,
}
use forex_remote_copy_tradin.Types.{Master, Slave, Connector, AuthenticatedConnector}
use forex_remote_copy_tradin.World.{World, Entry, redis_get}
use forex_remote_copy_tradin.Connectors.Service.{
  AccountSnapshot, authenticate_connector, look_up, find_by_hash, store_slave, store_account,
  report, marked, record_heartbeat,
}

-- The second state is the first with another token cache.
pub record IsCached (w w' : World) : Type 0 where
  pub cache : List (Entry AuthenticatedConnector)
  pub same : w' ≡ record w { token_cache = cache }

module _ (hash_token : String → String) where
  look_up-IsCached :
      (hash : String) (o : Option Connector) (w : World)
      → IsCached w (look_up hash_token hash o w).0
  unfolding look_up
  look_up-IsCached hash none w = record { cache = w.token_cache; same = refl }
  look_up-IsCached hash (some c) w = record {
    cache = (look_up hash_token hash (some c) w).0.token_cache;
    same = refl;
  }

  -- Authentication changes nothing but the token cache.
  pub authenticate_connector-IsCached :
      (token : String) (w : World) → IsCached w (authenticate_connector hash_token token w).0
  unfolding authenticate_connector
  authenticate_connector-IsCached token w =
      elim (Option-cases (redis_get w.now (hash_token token) w.token_cache)) [
        | inl miss ↦
            rw (authenticate_connector, miss)
              (look_up-IsCached (hash_token token) (find_by_hash w.connectors (hash_token token)) w)
        | inr (a, hit) ↦
            rw (authenticate_connector, hit) (record { cache = w.token_cache; same = refl })
      ]

-- The second state is the first with other accounts and connectors.
pub record IsBeaten (w w' : World) : Type 0 where
  pub masters : List Master
  pub slaves : List Slave
  pub connectors : List Connector
  pub heartbeats : List (Entry ℕ)
  pub same : w' ≡ record w {
    masters = masters;
    slaves = slaves;
    connectors = connectors;
    heartbeats = heartbeats;
  }

abbrev unbeaten : (w : World) → IsBeaten w w
unbeaten w = record {
  masters = w.masters;
  slaves = w.slaves;
  connectors = w.connectors;
  heartbeats = w.heartbeats;
  same = refl;
}

module _ (threshold_seconds : ℕ) (id : String) (w : World) where
  abbrev after_mark : World
  after_mark = marked threshold_seconds id w

  stored :
      (a : AccountSnapshot) (master slave : Option String)
      → IsBeaten w (store_account a master slave after_mark)
  unfolding store_account store_slave
  stored a none none = record {
    masters = w.masters;
    slaves = w.slaves;
    connectors = after_mark.connectors;
    heartbeats = after_mark.heartbeats;
    same = refl;
  }
  stored a none (some slave) = record {
    masters = w.masters;
    slaves = (store_account a none (some slave) after_mark).slaves;
    connectors = after_mark.connectors;
    heartbeats = after_mark.heartbeats;
    same = refl;
  }
  stored a (some master) slave = record {
    masters = (store_account a (some master) slave after_mark).masters;
    slaves = w.slaves;
    connectors = after_mark.connectors;
    heartbeats = after_mark.heartbeats;
    same = refl;
  }

  reported :
      (account : Option AccountSnapshot) (c : Connector) → IsBeaten w (report account c after_mark)
  unfolding report
  reported none c = record {
    masters = w.masters;
    slaves = w.slaves;
    connectors = after_mark.connectors;
    heartbeats = after_mark.heartbeats;
    same = refl;
  }
  reported (some a) c = stored a (truthy c.master_id) (truthy c.slave_id)

  -- A heartbeat changes nothing but the accounts, the connectors and the heartbeats.
  pub record_heartbeat-IsBeaten :
      (account : Option AccountSnapshot)
      → IsBeaten w (get_or (record_heartbeat threshold_seconds id account w) w)
  unfolding record_heartbeat
  record_heartbeat-IsBeaten account =
      elim (Option-cases (find_first (λ c. c.id == id) w.connectors)) [
        | inl missing ↦ rw (record_heartbeat, missing) (unbeaten w)
        | inr (c, found) ↦ rw (record_heartbeat, found) (reported account c)
      ]
