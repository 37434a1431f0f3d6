-- ===== src/System/Identity.antt =====
-- The copy orders in the states that the system reaches.
use forex_remote_copy_tradin.World.{World}
use forex_remote_copy_tradin.System.{Settings, Reaches}
use forex_remote_copy_tradin.System.Writes.Steps.{Reaches-Writes}
use forex_remote_copy_tradin.System.Writes.Kept.{Kept, Writes-Kept}

-- In every state that the handlers' steps lead to, whatever the events, results, sockets and requests,
-- every copy order of the first state is there, in the same order and with the id, trade event, Master,
-- Slave, ticket of the Master and type that it had.
pub Reaches-Kept :
    (c : Settings) (w w' : World) → Reaches c w w' → Kept w.copy_orders w'.copy_orders
Reaches-Kept c w w' path = Writes-Kept (Reaches-Writes c w w' path)
