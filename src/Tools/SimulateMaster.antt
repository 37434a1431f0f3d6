-- ===== src/Tools/SimulateMaster.antt =====
-- backend/tools/simulate-master-event.ts: a Master without a terminal. The ids that it draws, the reading
-- of the token file, and what JavaScript reads from a text as a number are arguments.

pub mod Published
pub mod Heartbeat
use Prim.Native.String.{◌++◌}
use forex_remote_copy_tradin.Prelude.{
  ℕ, ◌+◌, String, Option, none, some, List, [], find_first, option_map, get_or, truthy, ◌==◌,
}
use forex_remote_copy_tradin.Prelude.Int.{pos}
use forex_remote_copy_tradin.Number.{Number, of_int}
use forex_remote_copy_tradin.Types.{NormalizedTradeEvent}
use forex_remote_copy_tradin.World.{World}
use forex_remote_copy_tradin.Slaves.Config.Parsing.{Field, absent, null, number}
use forex_remote_copy_tradin.Ingest.{IngestReply, ingest_trade_event}
use forex_remote_copy_tradin.Ingest.Parsing.{EventBody, parse_event}
use forex_remote_copy_tradin.Tools.SimulateSlave.{parse_args}

-- args[key]
abbrev pub arg : List (String × String) → String → Option String
arg args key = option_map (λ a. a.1) (find_first (λ a. a.0 == key) args)

-- loadToken: the argument, the variable CONNECTOR_TOKEN, or the file, `none` where it cannot be read
unfoldable pub load_token :
    (String → String) → Option String → Option String → Option String → Option String
unfolding truthy
load_token trim explicit environment file = elim (truthy explicit) [
  | some token ↦ some token
  | none ↦ elim (truthy environment) [ some token ↦ some token | none ↦ option_map trim file ]
]

-- A number that is not one is null in the body.
abbrev number_of_text : Option Number → Field
number_of_text none = null
number_of_text (some n) = number n

-- `text ? Number(text) : default`
abbrev pub number_or : (String → Option Number) → Option String → Field → Field
unfolding truthy
number_or number_of text default = elim (truthy text) [
  | none ↦ default
  | some t ↦ number_of_text (number_of t)
]

-- what is drawn for a payload: the id behind "CP-", and the ticket
pub record PayloadDraw : Type 0 where
  pub uuid : String
  pub ticket : String

unfoldable pub payload :
    (String → Option Number) → PayloadDraw → ℕ → List (String × String) → EventBody
unfolding truthy
payload number_of draw now args = record {
  event_id = get_or (arg args "event-id") ("CP-" ++ draw.uuid);
  master_ticket = get_or (arg args "ticket") draw.ticket;
  type = get_or (arg args "event") "OPEN";
  symbol = get_or (arg args "symbol") "XAUUSD";
  side = some (get_or (arg args "side") "BUY");
  volume = number_or number_of (arg args "volume") (number (of_int (pos 1)));
  price =
      number_or number_of (arg args "price") (number (record { num = pos 33502; den_pred = 9 }));
  sl = number_or number_of (arg args "sl") absent;
  tp = number_or number_of (arg args "tp") absent;
  master_event_time = now;
  ea_sent_time = now + 2;
}

module _ (hash_token : String → String) (ttl_seconds : ℕ) (number_of : String → Option Number)
    (trim : String → String) (environment file : Option String) where
  -- main, on the arguments and the route that it calls; `none` where there is no token
  unfoldable pub simulate_event :
      PayloadDraw → String → List String → World → Option (World × IngestReply)
  unfolding load_token payload parse_event ingest_trade_event truthy parse_args
  simulate_event draw new_id argv w =
      let args = parse_args argv [] in
      option_map
        (λ token.
          ingest_trade_event hash_token ttl_seconds (some ("Bearer " ++ token)) new_id
            (parse_event (payload number_of draw w.now args)) w)
        (load_token trim (arg args "token") environment file)
