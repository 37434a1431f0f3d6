-- ===== src/Slaves/Config.antt =====
-- backend/src/modules/slaves/slave.schema.ts: what the schemas accept, and what a row becomes under it.
-- `numeric digits` is what a Decimal column with so many digits after the point keeps of a number; a
-- number that is too large for its column is not modelled.
pub mod Parsing
use forex_remote_copy_tradin.Prelude.{
  ℕ, String, Bool, true, false, Option, none, some, List, [], get_or, or_else, option_map,
}
use forex_remote_copy_tradin.Prelude.Int.{pos}
use forex_remote_copy_tradin.Number.{Number, of_int, cents}
use forex_remote_copy_tradin.Types.{CopyMode, multiplier, Slave, SlaveStatus, SlaveFields}

-- volumeConfigFields and riskConfigFields
pub record SlaveConfig : Type 0 where
  pub copy_mode : Option CopyMode
  pub fixed_lot : Option Number
  pub multiplier : Option Number
  pub min_lot : Option Number
  pub max_lot : Option Number
  pub lot_step : Option Number
  pub emergency_stop : Option Bool
  pub allowed_symbols : Option (List String)
  pub blocked_symbols : Option (List String)
  pub max_positions : Option ℕ
  pub max_exposure : Option Number

-- createSlaveSchema's output: its platform has the default in it
pub record CreateSlaveInput : Type 0 where
  pub master_id : String
  pub name : String
  pub account_number : String
  pub broker : String
  pub platform : String
  pub server : String
  pub config : SlaveConfig

pub record UpdateSlaveInput : Type 0 where
  pub copy_enabled : Option Bool
  pub config : SlaveConfig

pub record CreateSymbolMappingInput : Type 0 where
  pub master_symbol : String
  pub slave_symbol : String

-- the row that is created: the columns without a value take their defaults
abbrev pub defaults : String → CreateSlaveInput → Slave
defaults new_id i = record {
  id = new_id;
  master_id = i.master_id;
  name = i.name;
  account_number = i.account_number;
  broker = i.broker;
  platform = i.platform;
  server = i.server;
  status = SlaveStatus.connecting;
  copy_enabled = true;
  copy_mode = CopyMode.multiplier;
  fixed_lot = none;
  multiplier = of_int (pos 1);
  min_lot = cents 1;
  max_lot = of_int (pos 10);
  lot_step = cents 1;
  balance = none;
  equity = none;
  position_snapshot = none;
  position_snapshot_at = none;
  emergency_stop = false;
  allowed_symbols = [];
  blocked_symbols = [];
  max_positions = none;
  max_exposure = none;
}

module _ (numeric : ℕ → Number → Number) where
  -- Prisma writes the columns whose keys have a value.
  abbrev configured : SlaveConfig → Slave → Slave
  configured c s = record s {
    copy_mode = get_or c.copy_mode s.copy_mode;
    fixed_lot = or_else (option_map (numeric 2) c.fixed_lot) s.fixed_lot;
    multiplier = get_or (option_map (numeric 4) c.multiplier) s.multiplier;
    min_lot = get_or (option_map (numeric 2) c.min_lot) s.min_lot;
    max_lot = get_or (option_map (numeric 2) c.max_lot) s.max_lot;
    lot_step = get_or (option_map (numeric 2) c.lot_step) s.lot_step;
    emergency_stop = get_or c.emergency_stop s.emergency_stop;
    allowed_symbols = get_or c.allowed_symbols s.allowed_symbols;
    blocked_symbols = get_or c.blocked_symbols s.blocked_symbols;
    max_positions = or_else c.max_positions s.max_positions;
    max_exposure = or_else (option_map (numeric 2) c.max_exposure) s.max_exposure;
  }

  unfoldable pub updated : UpdateSlaveInput → Slave → Slave
  updated c s =
      configured c.config (record s { copy_enabled = get_or c.copy_enabled s.copy_enabled })

  unfoldable pub new_slave : String → CreateSlaveInput → Slave
  new_slave new_id i = configured i.config (defaults new_id i)

-- `pick`: the row's values at the keys of the request
abbrev at_key {ℓ κ} : {A : Type ℓ} {B : Type κ} → Option A → B → Option B
at_key key value = option_map (λ _. value) key

unfoldable pub pick : UpdateSlaveInput → Slave → SlaveFields
pick c s = record {
  copy_enabled = at_key c.copy_enabled s.copy_enabled;
  copy_mode = at_key c.config.copy_mode s.copy_mode;
  fixed_lot = at_key c.config.fixed_lot s.fixed_lot;
  multiplier = at_key c.config.multiplier s.multiplier;
  min_lot = at_key c.config.min_lot s.min_lot;
  max_lot = at_key c.config.max_lot s.max_lot;
  lot_step = at_key c.config.lot_step s.lot_step;
  emergency_stop = at_key c.config.emergency_stop s.emergency_stop;
  allowed_symbols = at_key c.config.allowed_symbols s.allowed_symbols;
  blocked_symbols = at_key c.config.blocked_symbols s.blocked_symbols;
  max_positions = at_key c.config.max_positions s.max_positions;
  max_exposure = at_key c.config.max_exposure s.max_exposure;
}
