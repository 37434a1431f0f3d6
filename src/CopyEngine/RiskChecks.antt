-- ===== src/CopyEngine/RiskChecks.antt =====
-- backend/src/modules/copy-engine/riskChecks.ts
pub mod Laws
use forex_remote_copy_tradin.Prelude.{
  ℕ, String, Bool, true, false, not, ◌&&◌, Option, none, some, List, [], ◌∷◌, if◌then◌else◌, leb,
  any, ◌==◌,
}
use forex_remote_copy_tradin.Number
use forex_remote_copy_tradin.Number.{Number}
use forex_remote_copy_tradin.Types.{
  ErrorReason, emergency_stop_active, symbol_blocked, symbol_not_allowed, max_positions_reached,
  max_exposure_exceeded,
}

pub record EntryCheckInput : Type 0 where
  pub emergency_stop : Bool
  pub allowed_symbols : List String
  pub blocked_symbols : List String
  pub symbol : String
  pub max_positions : Option ℕ
  pub current_open_positions : ℕ

pub record ExposureCheckInput : Type 0 where
  pub max_exposure : Option Number
  pub current_open_exposure : Number
  pub incoming_volume : Number

pub data RiskCheckResult : Type 0 where
  allowed : RiskCheckResult
  denied : ErrorReason → RiskCheckResult

-- `symbols.includes(symbol)`
abbrev pub includes : List String → String → Bool
includes symbols symbol = any (λ s. s == symbol) symbols

abbrev is_empty : List String → Bool
is_empty [] = true
is_empty (s ∷ symbols) = false

-- `maxPositions !== null && currentOpenPositions >= maxPositions`
abbrev reached : Option ℕ → ℕ → Bool
reached none n = false
reached (some limit) n = leb limit n

unfoldable pub check_entry_allowed : EntryCheckInput → RiskCheckResult
check_entry_allowed i =
    if i.emergency_stop
    then denied emergency_stop_active
    else if includes i.blocked_symbols i.symbol
    then denied symbol_blocked
    else if not (is_empty i.allowed_symbols) && not (includes i.allowed_symbols i.symbol)
    then denied symbol_not_allowed
    else if reached i.max_positions i.current_open_positions
    then denied max_positions_reached
    else allowed

-- `maxExposure !== null && currentOpenExposure + incomingVolume > maxExposure`
abbrev exceeded : Option Number → Number → Bool
exceeded none total = false
exceeded (some limit) total = Number.ltb limit total

unfoldable pub check_exposure_allowed : ExposureCheckInput → RiskCheckResult
check_exposure_allowed i =
    if exceeded i.max_exposure (Number.add i.current_open_exposure i.incoming_volume)
    then denied max_exposure_exceeded
    else allowed
