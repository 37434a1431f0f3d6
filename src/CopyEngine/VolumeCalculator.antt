-- ===== src/CopyEngine/VolumeCalculator.antt =====
-- backend/src/modules/copy-engine/volumeCalculator.ts
pub mod Rounding
pub mod Bounds
use forex_remote_copy_tradin.Prelude.{Bool, true, false, ◌||◌, Option, none, some, if◌then◌else◌}
use forex_remote_copy_tradin.Prelude.Int.{pos}
use forex_remote_copy_tradin.Number
use forex_remote_copy_tradin.Number.{Number}
use forex_remote_copy_tradin.Types.{
  CopyMode, fixed_lot, multiplier, balance_proportional, equity_proportional, ErrorReason,
  fixed_lot_not_configured, below_min_lot, master_balance_unknown, slave_balance_unknown,
  master_equity_unknown, slave_equity_unknown,
}

pub record VolumeCalculatorInput : Type 0 where
  pub copy_mode : CopyMode
  pub master_volume : Number
  pub fixed_lot : Option Number
  pub multiplier : Number
  pub master_balance : Option Number
  pub master_equity : Option Number
  pub slave_balance : Option Number
  pub slave_equity : Option Number
  pub min_lot : Number
  pub max_lot : Number
  pub lot_step : Number

pub data VolumeCalculatorResult : Type 0 where
  volume : Number → VolumeCalculatorResult
  rejected : ErrorReason → VolumeCalculatorResult

-- `!x || x <= 0`
abbrev pub not_positive : Option Number → Bool
not_positive none = true
not_positive (some x) = Number.leb x Number.zero

abbrev pub value : Option Number → Number
value none = Number.zero
value (some x) = x

-- masterVolume * (slaveFunds / masterFunds), after its two tests
proportional :
    Number → Option Number → Option Number → ErrorReason → ErrorReason → VolumeCalculatorResult
proportional volume_of_master master slave master_unknown slave_unknown =
    if not_positive master then rejected master_unknown else elim slave [
      | none ↦ rejected slave_unknown
      | some s ↦ volume (Number.mul volume_of_master (Number.div s (value master)))
    ]

-- fixedLot, after its test
fixed : Option Number → VolumeCalculatorResult
fixed lot = if not_positive lot then rejected fixed_lot_not_configured else volume (value lot)

-- the `switch` on the copy mode
pub raw_of : CopyMode → VolumeCalculatorInput → VolumeCalculatorResult
unfolding proportional fixed
raw_of fixed_lot i = fixed i.fixed_lot
raw_of multiplier i = volume (Number.mul i.master_volume i.multiplier)
raw_of balance_proportional i =
    proportional i.master_volume i.master_balance i.slave_balance master_balance_unknown
      slave_balance_unknown
raw_of equity_proportional i =
    proportional i.master_volume i.master_equity i.slave_equity master_equity_unknown
      slave_equity_unknown

-- 1e-9
abbrev pub step_epsilon : Number
step_epsilon = record { num = pos 1; den_pred = 999_999_999 }

-- Math.floor(value / step + 1e-9)
steps_in : Number → Number → Number
steps_in v step = Number.of_int (Number.floor (Number.add (Number.div v step) step_epsilon))

unfoldable pub round_down_to_step : Number → Number → Number
unfolding steps_in
round_down_to_step v step =
    if Number.leb step Number.zero || Number.leb v Number.zero
    then Number.max v Number.zero
    else Number.to_fixed8 (Number.mul (steps_in v step) step)

-- the size after the step and the cap, and the floor
within_limits : VolumeCalculatorInput → Number → VolumeCalculatorResult
within_limits i raw =
    let clamped = Number.min (round_down_to_step raw i.lot_step) i.max_lot in
    if Number.ltb clamped i.min_lot then rejected below_min_lot else volume clamped

unfoldable pub calculate_volume : VolumeCalculatorInput → VolumeCalculatorResult
unfolding raw_of within_limits
calculate_volume i = elim (raw_of i.copy_mode i) [
  | rejected reason ↦ rejected reason
  | volume raw ↦ within_limits i raw
]
