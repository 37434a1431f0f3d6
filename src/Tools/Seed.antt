-- ===== src/Tools/Seed.antt =====
-- backend/tools/seed.ts: the accounts for development, a Master with two Slaves, each with a connector.
-- The files with the tokens are left out.
pub mod Found
pub mod Again
pub mod Token
use forex_remote_copy_tradin.Prelude.{
  String, Option, none, some, List, [], ◌∷◌, if◌then◌else◌, find_first, option_bind, option_map,
  ◌==◌,
}
use forex_remote_copy_tradin.Types.{Master, Slave}
use forex_remote_copy_tradin.World.{World}
use forex_remote_copy_tradin.Auth.{Passwords, ensure_admin}
use forex_remote_copy_tradin.Connectors.Service.{register_connector, of_master, of_slave}
use forex_remote_copy_tradin.Masters.{CreateMasterInput, new_master, is_taken as is_master_taken}
use forex_remote_copy_tradin.Slaves.Config.{CreateSlaveInput, defaults}
use forex_remote_copy_tradin.Slaves.Config.Parsing.{no_config}
use forex_remote_copy_tradin.Slaves.Routes.{is_taken}

abbrev pub dev_master_account_number : String
dev_master_account_number = "DEV-MASTER-001"

-- an account number and a name
abbrev pub dev_slaves : List (String × String)
dev_slaves = ("DEV-SLAVE-001", "Dev Slave 1") ∷ ("DEV-SLAVE-002", "Dev Slave 2") ∷ []

-- What is drawn for an account: its id, where it is created, and its connector's id and token.
pub record Draw : Type 0 where
  pub id : String
  pub connector_id : String
  pub token : String

-- What is drawn for a run.
pub record Run : Type 0 where
  pub admin_id : String
  pub salt : String
  pub of_master : Draw
  pub of_slave : String → Draw

-- findUnique({ where: { accountNumber } })
abbrev pub master_numbered : List Master → String → Option Master
master_numbered masters number = find_first (λ m. m.account_number == number) masters

abbrev pub slave_numbered : List Slave → String → Option Slave
slave_numbered slaves number = find_first (λ s. s.account_number == number) slaves

abbrev dev_master : String → Master
dev_master id = new_master id (record {
  name = "Dev Master";
  account_number = dev_master_account_number;
  broker = "Demo Broker";
  platform = "MT5";
  server = "Demo-Server";
})

abbrev dev_slave : String → String → String × String → Slave
dev_slave id master_id (number, name) = defaults id (record {
  master_id = master_id;
  name = name;
  account_number = number;
  broker = "Demo Broker";
  platform = "MT5";
  server = "Demo-Server";
  config = no_config;
})

-- The account that is there, or else a new one; `none` is a throw, of the unique id.
unfoldable pub find_or_create_master : String → World → Option (World × Master)
find_or_create_master id w = elim (master_numbered w.masters dev_master_account_number) [
  | some m ↦ some (w, m)
  | none ↦
      if is_master_taken (dev_master id) w
      then none
      else some (record w { masters = dev_master id ∷ w.masters }, dev_master id)
]

unfoldable pub find_or_create_slave :
    String → String → String × String → World → Option (World × Slave)
find_or_create_slave id master_id dev w = elim (slave_numbered w.slaves dev.0) [
  | some s ↦ some (w, s)
  | none ↦
      if is_taken (dev_slave id master_id dev) w
      then none
      else some
          (record w { slaves = dev_slave id master_id dev ∷ w.slaves }, dev_slave id master_id dev)
]

module _ (hash_token : String → String) where
  -- an account, whose id is in the second place, and its connector
  abbrev pub seed_master : Draw → World → Option (World × String)
  unfolding register_connector find_or_create_master
  seed_master draw w = option_bind (find_or_create_master draw.id w) (λ found.
      option_map (λ v. (v, found.1.id))
        (register_connector hash_token draw.connector_id draw.token (of_master found.1.id)
          (some "dev-seed") found.0))

  abbrev pub seed_slave : Draw → String → String × String → World → Option World
  unfolding register_connector find_or_create_slave
  seed_slave draw master_id dev w =
      option_bind (find_or_create_slave draw.id master_id dev w) (λ found.
        register_connector hash_token draw.connector_id draw.token (of_slave found.1.id)
          (some "dev-seed") found.0)

  -- the loop
  unfoldable pub seed_slaves :
      (String → Draw) → String → List (String × String) → World → Option World
  seed_slaves draw master_id [] w = some w
  seed_slaves draw master_id (dev ∷ devs) w =
      option_bind (seed_slave (draw dev.0) master_id dev w) (seed_slaves draw master_id devs)

  -- main, with ADMIN_USERNAME and ADMIN_PASSWORD
  unfoldable pub seed : Passwords → String → String → Run → World → Option World
  unfolding ensure_admin seed_slaves
  seed passwords username password run w =
      option_bind (ensure_admin passwords run.admin_id run.salt username password w) (λ v.
        option_bind (seed_master run.of_master v)
          (λ m. seed_slaves run.of_slave m.1 dev_slaves m.0))
