-- ===== src/CopyEngine/Plan.antt =====
-- The decision part of copyToSlave, backend/src/modules/copy-engine/copyEngine.ts: the reads and
-- checks before the first row is written.
pub mod Laws
use forex_remote_copy_tradin.Prelude.{
  ℕ, String, Bool, true, false, ◌||◌, Option, none, some, List, if◌then◌else◌, get_or, truthy,
}
use forex_remote_copy_tradin.Number
use forex_remote_copy_tradin.Number.{Number}
use forex_remote_copy_tradin.Types.{
  Slave, NormalizedTradeEvent, CopyOrder, ErrorReason, no_matching_open_copy, is_opens, is_closes,
  is_modifies,
}
use forex_remote_copy_tradin.CopyEngine.VolumeCalculator.{
  VolumeCalculatorInput, VolumeCalculatorResult, volume, rejected, calculate_volume,
}
use forex_remote_copy_tradin.CopyEngine.RiskChecks.{
  EntryCheckInput, ExposureCheckInput, RiskCheckResult, allowed, denied, check_entry_allowed,
  check_exposure_allowed,
}
use forex_remote_copy_tradin.CopyEngine.Queries.{
  get_open_positions_summary, find_executed_open_slave_ticket,
}

pub record MasterAccount : Type 0 where
  pub master_balance : Option Number
  pub master_equity : Option Number

-- What the reads of copyToSlave decide before it writes: a rejection, with the volume that is
-- recorded, or the Slave's ticket and the volume to send.
pub data Plan : Type 0 where
  refuse : ErrorReason → Option Number → Plan
  proceed : Option String → Option Number → Plan

abbrev pub sizing_input : Slave → NormalizedTradeEvent → MasterAccount → VolumeCalculatorInput
sizing_input s e account = record {
  copy_mode = s.copy_mode;
  master_volume = get_or e.volume Number.zero;
  fixed_lot = s.fixed_lot;
  multiplier = s.multiplier;
  master_balance = account.master_balance;
  master_equity = account.master_equity;
  slave_balance = s.balance;
  slave_equity = s.equity;
  min_lot = s.min_lot;
  max_lot = s.max_lot;
  lot_step = s.lot_step;
}

abbrev pub entry_input : List CopyOrder → Slave → NormalizedTradeEvent → EntryCheckInput
entry_input orders s e = record {
  emergency_stop = s.emergency_stop;
  allowed_symbols = s.allowed_symbols;
  blocked_symbols = s.blocked_symbols;
  symbol = e.symbol;
  max_positions = s.max_positions;
  current_open_positions = (get_open_positions_summary orders s.id).count;
}

abbrev pub exposure_input : List CopyOrder → Slave → Number → ExposureCheckInput
exposure_input orders s v = record {
  max_exposure = s.max_exposure;
  current_open_exposure = (get_open_positions_summary orders s.id).total_volume;
  incoming_volume = v;
}

-- an OPEN whose size is known
plan_exposure : List CopyOrder → Slave → Number → Plan
plan_exposure orders s v = elim (check_exposure_allowed (exposure_input orders s v)) [
  | allowed ↦ proceed none (some v)
  | denied reason ↦ refuse reason (some v)
]

-- an OPEN that passed the checks before sizing
plan_size : List CopyOrder → Slave → NormalizedTradeEvent → MasterAccount → Plan
unfolding plan_exposure
plan_size orders s e account = elim (calculate_volume (sizing_input s e account)) [
  | rejected reason ↦ refuse reason e.volume
  | volume v ↦ plan_exposure orders s v
]

pub plan_open : List CopyOrder → Slave → NormalizedTradeEvent → MasterAccount → Plan
unfolding plan_size
plan_open orders s e account = elim (check_entry_allowed (entry_input orders s e)) [
  | denied reason ↦ refuse reason none
  | allowed ↦ plan_size orders s e account
]

-- a CLOSE or a MODIFY
pub plan_reduction : List CopyOrder → String → NormalizedTradeEvent → Plan
plan_reduction orders slave_id e =
    elim (truthy (find_executed_open_slave_ticket orders slave_id e.master_ticket)) [
      | none ↦ refuse no_matching_open_copy none
      | some ticket ↦ proceed (some ticket) e.volume
    ]

unfoldable pub plan : List CopyOrder → Slave → NormalizedTradeEvent → MasterAccount → Plan
unfolding plan_open plan_reduction
plan orders s e account =
    if is_closes e.type || is_modifies e.type
    then plan_reduction orders s.id e
    else if is_opens e.type
    then plan_open orders s e account
    else proceed none e.volume
