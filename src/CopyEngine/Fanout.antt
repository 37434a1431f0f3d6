-- ===== src/CopyEngine/Fanout.antt =====
-- handleMasterEvent of backend/src/modules/copy-engine/copyEngine.ts: one event of a Master, copied to
-- each of its Slaves. The copies run one after the other, in the order of the Slaves; one that throws
-- leaves the others alone. `new_id` gives the id of the row that a Slave's copy creates.
pub mod Laws
use forex_remote_copy_tradin.Prelude.{
  ℕ, String, Bool, true, false, not, ◌&&◌, ◌||◌, Option, none, some, List, [], ◌∷◌, if◌then◌else◌,
  find_first, filter_by, get_or, option_bind, ◌==◌,
}
use forex_remote_copy_tradin.Types.{
  Slave, SlaveStatus, disabled, Master, NormalizedTradeEvent, TradeEvent, is_opens, is_closes,
  is_modifies,
}
use forex_remote_copy_tradin.World.{World}
use forex_remote_copy_tradin.CopyEngine.Plan.{MasterAccount}
use forex_remote_copy_tradin.CopyEngine.Dispatch.{copy_to_slave}

unfoldable pub is_copyable_event : NormalizedTradeEvent → Bool
is_copyable_event e = is_opens e.type || is_closes e.type || is_modifies e.type

abbrev pub is_disabled : SlaveStatus → Bool
is_disabled SlaveStatus.disabled = true
is_disabled _ = false

-- { masterId, copyEnabled: true, status: { not: "DISABLED" } }
abbrev pub is_copied_to : String → Slave → Bool
is_copied_to master_id s = s.master_id == master_id && s.copy_enabled && not (is_disabled s.status)

-- the Master's account, as far as it is known
abbrev pub account_of : Option Master → MasterAccount
account_of none = record { master_balance = none; master_equity = none }
account_of (some m) = record { master_balance = m.balance; master_equity = m.equity }

abbrev pub find_master : World → String → Option Master
find_master w master_id = find_first (λ m. m.id == master_id) w.masters

abbrev pub find_trade_event : List TradeEvent → String → Option TradeEvent
find_trade_event events event_id = find_first (λ t. t.event.event_id == event_id) events

module _ (new_id : Slave → String) (trade_event_id : String) (e : NormalizedTradeEvent)
    (account : MasterAccount) where
  -- a rejected promise changes nothing
  abbrev pub settle : Slave → World → World
  settle s w = get_or (copy_to_slave (new_id s) s trade_event_id e account w) w

  -- Promise.allSettled(slaves.map(copyToSlave))
  unfoldable pub fan_out : List Slave → World → World
  fan_out [] w = w
  fan_out (s ∷ slaves) w = fan_out slaves (settle s w)

-- The second look for the trade event, after the wait, is at the rows that have been written since:
-- `late` is what the table holds then.
unfoldable pub handle_master_event :
    (Slave → String) → List TradeEvent → NormalizedTradeEvent → World → World
unfolding fan_out is_copyable_event
handle_master_event new_id late e w =
    if is_copyable_event e
    then elim (find_trade_event w.trade_events e.event_id) [
      | some t ↦
          fan_out new_id t.id e (account_of (find_master w e.master_id))
            (filter_by (is_copied_to e.master_id) w.slaves) w
      | none ↦ elim (find_trade_event late e.event_id) [
        | none ↦ record w { trade_events = late }
        | some t ↦
            fan_out new_id t.id e (account_of (find_master w e.master_id))
              (filter_by (is_copied_to e.master_id) w.slaves) (record w { trade_events = late })
      ]
    ]
    else w
