-- ===== src/Tools/SimulateSlave.antt =====
-- backend/tools/simulate-slave.ts: a Slave without a terminal. The tickets and prices that it draws are
-- arguments.
pub mod Loop
use Prim.Native.String.{◌++◌}
use forex_remote_copy_tradin.Prelude.{
  String, Bool, true, false, not, ◌||◌, Option, none, some, List, [], ◌∷◌, ◌++◌ as append,
  if◌then◌else◌, any, filter_by, is_some, ◌==◌,
}
use forex_remote_copy_tradin.Prelude.Text.{strip_prefix}
use forex_remote_copy_tradin.Number.{Number}
use forex_remote_copy_tradin.Types.{
  TradeSide, TradeEventType, opens, closes, CopyInstruction, ExecutionResult, ResultStatus,
}

pub record TrackedPosition : Type 0 where
  pub ticket : String
  pub symbol : String
  pub side : Option TradeSide
  pub volume : Option Number
  pub sl : Option Number
  pub tp : Option Number
  pub comment : String

-- `args[key] = value`
abbrev set_arg : String → String → List (String × String) → List (String × String)
set_arg key value args = (key, value) ∷ args

-- parseArgs: a later value of a key comes first. A flag without a value, or before another flag, is
-- "true".
abbrev is_flag : String → Bool
unfolding strip_prefix
is_flag raw = is_some (strip_prefix "--" raw)

unfoldable pub parse_args : List String → List (String × String) → List (String × String)
unfolding strip_prefix
parse_args [] args = args
parse_args (raw ∷ []) args = elim (strip_prefix "--" raw) [
  | none ↦ args
  | some key ↦ set_arg key "true" args
]
parse_args (raw ∷ value ∷ rest) args = elim (strip_prefix "--" raw) [
  | none ↦ parse_args (value ∷ rest) args
  | some key ↦ elim (is_flag value) [
    | true ↦ parse_args (value ∷ rest) (set_arg key "true" args)
    | false ↦ parse_args rest (set_arg key value args)
  ]
]

-- `p.ticket === instruction.slaveTicket`, which may be undefined
abbrev has_ticket : Option String → TrackedPosition → Bool
has_ticket none p = false
has_ticket (some ticket) p = p.ticket == ticket

-- positions.splice(index, 1) at the first that is found
abbrev splice : Option String → List TrackedPosition → List TrackedPosition
splice ticket [] = []
splice ticket (p ∷ ps) = if has_ticket ticket p then ps else p ∷ splice ticket ps

-- the stops of the first that is found
abbrev modify : CopyInstruction → List TrackedPosition → List TrackedPosition
modify i [] = []
modify i (p ∷ ps) =
    if has_ticket i.slave_ticket p then record p { sl = i.sl; tp = i.tp } ∷ ps else p ∷ modify i ps

abbrev opened_position : String → CopyInstruction → TrackedPosition
opened_position ticket i = record {
  ticket = ticket;
  symbol = i.symbol;
  side = i.side;
  volume = i.volume;
  sl = i.sl;
  tp = i.tp;
  comment = "copy:" ++ i.copy_id;
}

abbrev executed : CopyInstruction → Option String → Option Number → ExecutionResult
executed i ticket price = record {
  copy_id = i.copy_id;
  status = ResultStatus.executed;
  slave_ticket = ticket;
  execution_price = price;
  reason = none;
}

abbrev act :
    TradeEventType
    → String
    → Number
    → CopyInstruction
    → List TrackedPosition
    → List TrackedPosition × ExecutionResult
act opens ticket price i ps =
    (append ps (opened_position ticket i ∷ []), executed i (some ticket) (some price))
act closes ticket price i ps = (splice i.slave_ticket ps, executed i i.slave_ticket (some price))
act _ ticket price i ps = (modify i ps, executed i i.slave_ticket none)

-- The handler of a message: the positions, and the result that is sent after 20 ms.
unfoldable pub receive :
    Bool
    → String
    → Number
    → CopyInstruction
    → List TrackedPosition
    → List TrackedPosition × ExecutionResult
receive always_fail ticket price i ps =
    if always_fail
    then (
      ps,
      record {
        copy_id = i.copy_id;
        status = ResultStatus.failed;
        slave_ticket = none;
        execution_price = none;
        reason = some "SIMULATED_FAILURE";
      },
    )
    else act i.action ticket price i ps

-- what a heartbeat reports: `--drop-position` leaves some tickets out
unfoldable pub reported_positions : List String → List TrackedPosition → List TrackedPosition
reported_positions dropped ps = filter_by (λ p. not (any (λ ticket. ticket == p.ticket) dropped)) ps
