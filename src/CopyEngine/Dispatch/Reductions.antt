-- ===== src/CopyEngine/Dispatch/Reductions.antt =====
-- CLOSE and MODIFY, and the limits of a Slave.
use forex_remote_copy_tradin.Prelude.{String, ◌≡◌, ap, ◌∙◌, ◌⊎◌}
use forex_remote_copy_tradin.Types.{Slave, NormalizedTradeEvent, closes, modifies}
use forex_remote_copy_tradin.World.{World}
use forex_remote_copy_tradin.CopyEngine.Plan.{MasterAccount, Plan, refuse, proceed, plan}
use forex_remote_copy_tradin.CopyEngine.Plan.Laws.{plan-ignores_limits}
use forex_remote_copy_tradin.CopyEngine.Dispatch.{carry_out, copy_to_slave}

carry_out-congr :
    (new_id trade_event_id : String) (e : NormalizedTradeEvent) (s t : Slave) (p : Plan) (w : World)
    → s.id ≡ t.id
    → s.platform ≡ t.platform
    → carry_out new_id s trade_event_id e p w ≡ carry_out new_id t trade_event_id e p w
unfolding carry_out
carry_out-congr new_id trade_event_id e s t (refuse reason requested) w same platform = rw same
carry_out-congr new_id trade_event_id e s t (proceed ticket v) w same platform = rw (same, platform)

-- A CLOSE or MODIFY has the same effect for two configurations of a Slave that agree in id and
-- platform, whatever their emergency stop, symbol lists, limits, sizing and balances, and whatever the
-- Master's account: no limit keeps a position open.
pub copy_to_slave-ignores_limits :
    (new_id trade_event_id : String) (e : NormalizedTradeEvent) (s t : Slave) (a b : MasterAccount)
    (w : World)
    → s.id ≡ t.id
    → s.platform ≡ t.platform
    → (e.type ≡ closes) ⊎ (e.type ≡ modifies)
    → copy_to_slave new_id s trade_event_id e a w ≡ copy_to_slave new_id t trade_event_id e b w
unfolding copy_to_slave
copy_to_slave-ignores_limits new_id trade_event_id e s t a b w same platform h =
    carry_out-congr new_id trade_event_id e s t (plan w.copy_orders s e a) w same platform
    ∙ ap (λ p. carry_out new_id t trade_event_id e p w)
        (plan-ignores_limits w.copy_orders s t e a b same h)
