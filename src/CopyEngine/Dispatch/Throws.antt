-- ===== src/CopyEngine/Dispatch/Throws.antt =====
-- When copyToSlave throws.
use forex_remote_copy_tradin.Prelude.{String, ◌≡◌, ◌↔◌, true, none, any}
use forex_remote_copy_tradin.Types.{Slave, NormalizedTradeEvent}
use forex_remote_copy_tradin.World.{World, is_copy_of}
use forex_remote_copy_tradin.CopyEngine.Plan.{MasterAccount}
use forex_remote_copy_tradin.CopyEngine.Dispatch.{copy_to_slave}
use forex_remote_copy_tradin.CopyEngine.Dispatch.Counts.{copy_to_slave-none}
use forex_remote_copy_tradin.CopyEngine.Dispatch.Laws.{copy_to_slave-duplicate}

-- A copy throws exactly when the Slave already has a row for the event, whatever the checks say; in
-- every other state it ends with a result.
pub copy_to_slave-none_iff :
    (new_id : String) (s : Slave) (trade_event_id : String) (e : NormalizedTradeEvent)
    (account : MasterAccount) (w : World)
    → (copy_to_slave new_id s trade_event_id e account w ≡ none)
      ↔ (any (is_copy_of trade_event_id s.id) w.copy_orders ≡ true)
copy_to_slave-none_iff new_id s trade_event_id e account w = (
  copy_to_slave-none new_id s trade_event_id e trade_event_id s.id account w,
  copy_to_slave-duplicate new_id s trade_event_id e account w,
)
