-- ===== src/System/Unique.antt =====
-- The states that the system reaches.
use forex_remote_copy_tradin.World.{World}
use forex_remote_copy_tradin.CopyEngine.Fanout.Laws.{IsUnique}
use forex_remote_copy_tradin.System.{Settings, Reaches}
use forex_remote_copy_tradin.System.Writes.Steps.{Reaches-Writes}
use forex_remote_copy_tradin.System.Writes.Safety.{Writes-IsUnique}

-- From a state in which no trade event has two rows for one Slave, no sequence of the handlers' steps,
-- whatever the events, results, sockets and requests, leads to a state in which one has.
pub Reaches-IsUnique : (c : Settings) (w w' : World) → Reaches c w w' → IsUnique w → IsUnique w'
Reaches-IsUnique c w w' path = Writes-IsUnique (Reaches-Writes c w w' path)
