-- ===== src/Slaves/Config/Parsing.antt =====
-- updateSlaveSchema of backend/src/modules/slaves/slave.schema.ts: what it makes of the numbers of a JSON
-- body. `none` is a refusal. The texts and lists of a body are taken as well-typed.
use forex_remote_copy_tradin.Prelude.{
  ℕ, suc, ◌/◌, ◌%◌, Bool, Option, none, some, if◌then◌else◌, option_bind, option_map, String, ◌||◌,
  ◌==◌,
}
use forex_remote_copy_tradin.Prelude.Int.{pos, negsuc, ltb_ℤ}
use forex_remote_copy_tradin.Prelude.{ltb}
use forex_remote_copy_tradin.Number.{Number}
use forex_remote_copy_tradin.Types.{CopyMode}
use forex_remote_copy_tradin.Slaves.Config.{SlaveConfig, CreateSlaveInput, UpdateSlaveInput}

-- A number of a body: absent, null (what JSON has for NaN), or a number.
pub data Field : Type 0 where
  absent null : Field
  number : Number → Field

pub record UpdateSlaveBody : Type 0 where
  pub copy_enabled : Option Bool
  pub copy_mode : Option CopyMode
  pub fixed_lot : Field
  pub multiplier : Field
  pub min_lot : Field
  pub max_lot : Field
  pub lot_step : Field
  pub emergency_stop : Option Bool
  pub max_positions : Field
  pub max_exposure : Field

abbrev pub is_positive : Number → Bool
is_positive n = ltb_ℤ (pos 0) n.num

-- z.number().positive().optional()
abbrev pub positive_field : Field → Option (Option Number)
positive_field absent = some none
positive_field null = none
positive_field (number n) = if is_positive n then some (some n) else none

-- a positive whole number
abbrev whole : Number → Option ℕ
whole n = elim n.num [
  | pos a ↦
      if ltb 0 a
      then (if ltb 0 (a % suc n.den_pred) then none else some (a / suc n.den_pred))
      else none
  | negsuc a ↦ none
]

-- z.number().int().positive().optional()
abbrev pub count_field : Field → Option (Option ℕ)
count_field absent = some none
count_field null = none
count_field (number n) = option_map some (whole n)

unfoldable pub parse_update : UpdateSlaveBody → Option UpdateSlaveInput
parse_update b = option_bind (positive_field b.fixed_lot) λ fixed_lot.
    option_bind (positive_field b.multiplier) λ multiplier.
      option_bind (positive_field b.min_lot) λ min_lot.
        option_bind (positive_field b.max_lot) λ max_lot.
          option_bind (positive_field b.lot_step) λ lot_step.
            option_bind (count_field b.max_positions) λ max_positions.
              option_bind (positive_field b.max_exposure) λ max_exposure. some (record {
                copy_enabled = b.copy_enabled;
                config = record {
                  copy_mode = b.copy_mode;
                  fixed_lot = fixed_lot;
                  multiplier = multiplier;
                  min_lot = min_lot;
                  max_lot = max_lot;
                  lot_step = lot_step;
                  emergency_stop = b.emergency_stop;
                  allowed_symbols = none;
                  blocked_symbols = none;
                  max_positions = max_positions;
                  max_exposure = max_exposure;
                };
              })

-- createSlaveSchema, for a body without the optional fields: `is_uuid` is zod's test of a UUID.
unfoldable pub parse_create : (String → Bool) → CreateSlaveInput → Option CreateSlaveInput
parse_create is_uuid i =
    if is_uuid i.master_id
    then (if i.name == "" || i.account_number == "" || i.broker == "" || i.server == ""
        then none
        else some i)
    else none

-- the optional fields of a body that has none
abbrev pub no_config : SlaveConfig
no_config = record {
  copy_mode = none;
  fixed_lot = none;
  multiplier = none;
  min_lot = none;
  max_lot = none;
  lot_step = none;
  emergency_stop = none;
  allowed_symbols = none;
  blocked_symbols = none;
  max_positions = none;
  max_exposure = none;
}
