-- ===== src/Tests/Tools.antt =====
-- The development tools at concrete inputs.
use Prim.Native.String.{◌++◌}
use forex_remote_copy_tradin.Prelude.{
  String, ◌≡◌, refl, Option, some, get_or, List, [], ◌∷◌, map, option_map,
}
use forex_remote_copy_tradin.Prelude.{none, truthy}
use forex_remote_copy_tradin.Prelude.Int.{pos}
use forex_remote_copy_tradin.Prelude.Text.{strip_prefix}
use forex_remote_copy_tradin.Number.{Number, of_int}
use forex_remote_copy_tradin.Types.{Master, NormalizedTradeEvent, TradeEventType, TradeSide}
use forex_remote_copy_tradin.World.{World}
use forex_remote_copy_tradin.Ingest.Parsing.{parse_event, type_of}
use forex_remote_copy_tradin.Tools.SimulateSlave.{parse_args}
use forex_remote_copy_tradin.Tools.SimulateMaster.{PayloadDraw, payload, simulate_event}
use forex_remote_copy_tradin.Tools.SimulateMaster.Published.{
  IsPublished, simulate_event-IsPublished,
}
use forex_remote_copy_tradin.Tools.SimulateMaster.Heartbeat.{
  simulate_heartbeat, heartbeat_body, parse_heartbeat,
}
use forex_remote_copy_tradin.Tools.SimulateMaster.{load_token}
use forex_remote_copy_tradin.Connectors.Transport.{heartbeat}
use forex_remote_copy_tradin.Tests.Data.{start, master_one}
use forex_remote_copy_tradin.Tests.AdminData.{plain}
use forex_remote_copy_tradin.Auth.{ensure_admin, create_admin}
use forex_remote_copy_tradin.Connectors.Bearer.{bearer_token}
use forex_remote_copy_tradin.Connectors.Service.{
  register_connector, authenticate_connector, record_heartbeat,
}
use forex_remote_copy_tradin.Tools.Seed.{
  Run, seed, seed_slaves, find_or_create_master, find_or_create_slave,
}
use forex_remote_copy_tradin.Tools.Seed.Again.{IsExtended, seed-again}

abbrev plain_hash : String → String
plain_hash token = token

-- what a run draws, from a letter of its own
abbrev run_of : String → Run
run_of letter = record {
  admin_id = letter ++ "-admin";
  salt = letter;
  of_master = record { id = letter ++ "m"; connector_id = letter ++ "mc"; token = letter ++ "mt" };
  of_slave = λ number. record {
    id = letter ++ number;
    connector_id = letter ++ number ++ "c";
    token = letter ++ number ++ "t";
  };
}

abbrev seeded : World
unfolding seed
seeded = get_or (seed plain_hash plain "admin" "pw" (run_of "a") start) start

seed_ran : seed plain_hash plain "admin" "pw" (run_of "a") start ≡ some seeded
unfolding seed ensure_admin create_admin register_connector seed_slaves find_or_create_master
    find_or_create_slave
seed_ran = refl

seed-again_example : IsExtended 3 seeded (seed plain_hash plain "admin" "pw" (run_of "b") seeded)
unfolding seed ensure_admin create_admin register_connector seed_slaves find_or_create_master
    find_or_create_slave
seed-again_example =
    seed-again plain_hash plain "admin" "pw" (run_of "a") (run_of "b") start seeded seed_ran
      (refl, (refl, (refl, tt)))

-- a CLOSE from the command line
abbrev close_args : List String
close_args = "--event" ∷ "CLOSE" ∷ "--ticket" ∷ "m7" ∷ []

abbrev close_draw : PayloadDraw
close_draw = record { uuid = "u1"; ticket = "123456" }

abbrev no_numbers : String → Option Number
no_numbers t = none

abbrev close_event : NormalizedTradeEvent
close_event = record {
  event_id = "CP-u1";
  master_ticket = "m7";
  type = TradeEventType.closes;
  symbol = "XAUUSD";
  side = some TradeSide.buy;
  volume = some (of_int (pos 1));
  price = some (record { num = pos 33502; den_pred = 9 });
  sl = none;
  tp = none;
  master_event_time = 1_000_000;
  ea_sent_time = 1_000_002;
  master_id = "";
  backend_received_time = 0;
}

simulate_event-IsPublished_example : IsPublished plain_hash 3600 close_event seeded (
    simulate_event plain_hash 3600 no_numbers plain_hash none
      (some "amt")
      close_draw
      "t9"
      close_args
      seeded)
unfolding seed ensure_admin create_admin register_connector seed_slaves find_or_create_master
    find_or_create_slave parse_args strip_prefix payload parse_event type_of truthy
simulate_event-IsPublished_example =
    simulate_event-IsPublished plain_hash 3600 plain "admin" "pw" (run_of "a") start seeded
      no_numbers plain_hash close_draw "t9" close_args close_event tt seed_ran (refl, (refl, tt))
      refl refl refl refl refl

abbrev told_account : Master → Option Number × Option Number
told_account m = (m.balance, m.equity)

-- the Master's balance and equity after a heartbeat with the seed's token and the default numbers
balance_told :
    map told_account
      (get_or
        (option_map
          (λ r. r.0)
          (simulate_heartbeat 15 plain_hash no_numbers
            (λ t. none)
            plain_hash
            none
            (some "amt")
            []
            seeded))
        start).masters
    ≡ (some (of_int (pos 10_000)), some (of_int (pos 10_000)))
      ∷ (master_one.balance, master_one.equity)
      ∷ []
unfolding seed ensure_admin create_admin register_connector seed_slaves find_or_create_master
    find_or_create_slave simulate_heartbeat load_token heartbeat_body parse_heartbeat heartbeat
    parse_args bearer_token authenticate_connector record_heartbeat
balance_told = refl
