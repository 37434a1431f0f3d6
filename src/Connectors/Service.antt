-- ===== src/Connectors/Service.antt =====
-- backend/src/modules/connectors/connector.service.ts: registration, authentication, heartbeats.
-- sha256, `hash_token`, is a parameter; ids and tokens that are drawn are arguments.
pub mod Cache
pub mod Liveness
pub mod Frame
use forex_remote_copy_tradin.Prelude.{
  ℕ, ◌*◌, String, Bool, true, false, Option, none, some, List, [], ◌∷◌, if◌then◌else◌, find_first,
  update_where, any, is_some, truthy, ◌==◌,
}
use forex_remote_copy_tradin.Number.{Number}
use forex_remote_copy_tradin.Types.{
  Connector, ConnectorStatus, Master, Slave, PositionSnapshotItem, OwnerType,
  AuthenticatedConnector,
}
use forex_remote_copy_tradin.World.{World, redis_get, redis_set}

abbrev pub token_cache_ttl_seconds : ℕ
token_cache_ttl_seconds = 300

abbrev pub owner_type_of : Option String → OwnerType
owner_type_of master_id = if is_some (truthy master_id) then OwnerType.master else OwnerType.slave

abbrev pub identity : Connector → AuthenticatedConnector
identity c = record {
  connector_id = c.id;
  owner_type = owner_type_of c.master_id;
  master_id = c.master_id;
  slave_id = c.slave_id;
}

-- prisma.connector.findUnique({ where: { tokenHash } })
abbrev pub find_by_hash : List Connector → String → Option Connector
find_by_hash connectors hash = find_first (λ c. c.token_hash == hash) connectors

-- `{ masterId }` or `{ slaveId }`
pub data ConnectorOwner : Type 0 where
  of_master of_slave : String → ConnectorOwner

abbrev pub master_of : ConnectorOwner → Option String
master_of (of_master id) = some id
master_of (of_slave id) = none

abbrev pub slave_of : ConnectorOwner → Option String
slave_of (of_master id) = none
slave_of (of_slave id) = some id

module _ (hash_token : String → String) where
  -- the read of the table, and the write of the cache, after a miss
  unfoldable pub look_up : String → Option Connector → World → World × Option AuthenticatedConnector
  look_up hash none w = (w, none)
  look_up hash (some c) w = (
    record w {
      token_cache = redis_set w.now hash (identity c) token_cache_ttl_seconds w.token_cache;
    },
    some (identity c),
  )

  unfoldable pub authenticate_connector : String → World → World × Option AuthenticatedConnector
  unfolding look_up
  authenticate_connector token w = elim (redis_get w.now (hash_token token) w.token_cache) [
    | some cached ↦ (w, some cached)
    | none ↦ look_up (hash_token token) (find_by_hash w.connectors (hash_token token)) w
  ]

  -- The row gets the hash of the drawn token. `none` is a throw, of the unique token hash.
  abbrev pub new_connector : String → String → ConnectorOwner → Option String → Connector
  new_connector new_id token owner version = record {
    id = new_id;
    master_id = master_of owner;
    slave_id = slave_of owner;
    token_hash = hash_token token;
    version = version;
    status = ConnectorStatus.connecting;
    last_heartbeat_at = none;
  }

  unfoldable pub register_connector :
      String → String → ConnectorOwner → Option String → World → Option World
  register_connector new_id token owner version w =
      if is_some (find_by_hash w.connectors (hash_token token))
      then none
      else some (record w { connectors = new_connector new_id token owner version ∷ w.connectors })

pub record AccountSnapshot : Type 0 where
  pub balance : Number
  pub equity : Number
  pub positions : Option (List PositionSnapshotItem)

abbrev pub master_account : AccountSnapshot → ℕ → Master → Master
master_account a now m = elim a.positions [
  | none ↦ record m { balance = some a.balance; equity = some a.equity }
  | some ps ↦ record m {
    balance = some a.balance;
    equity = some a.equity;
    position_snapshot = some ps;
    position_snapshot_at = some now;
  }
]

abbrev pub slave_account : AccountSnapshot → ℕ → Slave → Slave
slave_account a now s = elim a.positions [
  | none ↦ record s { balance = some a.balance; equity = some a.equity }
  | some ps ↦ record s {
    balance = some a.balance;
    equity = some a.equity;
    position_snapshot = some ps;
    position_snapshot_at = some now;
  }
]

-- the account of the connector's Slave
unfoldable pub store_slave : AccountSnapshot → Option String → World → World
store_slave a none w = w
store_slave a (some id) w = record w {
  slaves = update_where (λ s. s.id == id) (slave_account a w.now) w.slaves;
}

-- the account of the connector's Master, or else of its Slave
unfoldable pub store_account : AccountSnapshot → Option String → Option String → World → World
unfolding store_slave
store_account a (some id) slave w = record w {
  masters = update_where (λ m. m.id == id) (master_account a w.now) w.masters;
}
store_account a none slave w = store_slave a slave w

unfoldable pub report : Option AccountSnapshot → Connector → World → World
unfolding store_account
report none c w = w
report (some a) c w = store_account a (truthy c.master_id) (truthy c.slave_id) w

abbrev pub beaten : ℕ → Connector → Connector
beaten now c = record c { last_heartbeat_at = some now; status = ConnectorStatus.online }

-- `none` is a throw: the update finds no such connector. The heartbeat key of Redis, which was set
-- before and which nothing reads, is left out then.
module _ (threshold_seconds : ℕ) where
  -- the connector's row and key after the heartbeat
  abbrev pub marked : String → World → World
  marked connector_id w = record w {
    heartbeats = redis_set w.now connector_id w.now (threshold_seconds * 2) w.heartbeats;
    connectors = update_where (λ d. d.id == connector_id) (beaten w.now) w.connectors;
  }

  unfoldable pub record_heartbeat : String → Option AccountSnapshot → World → Option World
  unfolding report
  record_heartbeat connector_id account w =
      elim (find_first (λ c. c.id == connector_id) w.connectors) [
        | none ↦ none
        | some c ↦ some (report account c (marked connector_id w))
      ]
