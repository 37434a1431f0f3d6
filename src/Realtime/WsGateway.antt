-- ===== src/Realtime/WsGateway.antt =====
-- backend/src/modules/realtime/wsGateway.ts: the live socket of each Slave.
pub mod Reconnect
use forex_remote_copy_tradin.Prelude.{
  ℕ, String, Bool, true, false, ◌&&◌, Option, none, some, List, [], ◌∷◌, if◌then◌else◌, leb, ◌==◌,
}
use forex_remote_copy_tradin.Types.{CopyInstruction}
use forex_remote_copy_tradin.World.{World, Socket}

-- connections.get(slaveId)
abbrev pub get : String → List (String × Socket) → Option Socket
get slave_id [] = none
get slave_id ((k, s) ∷ m) = if k == slave_id then some s else get slave_id m

-- connections.delete(slaveId)
abbrev pub delete : String → List (String × Socket) → List (String × Socket)
delete slave_id [] = []
delete slave_id ((k, s) ∷ m) =
    if k == slave_id then delete slave_id m else (k, s) ∷ delete slave_id m

-- `!!socket && socket.readyState === socket.OPEN`
abbrev pub is_live : Option Socket → Bool
is_live none = false
is_live (some s) = s.is_open

unfoldable pub is_slave_connected : World → String → Bool
is_slave_connected w slave_id = is_live (get slave_id w.connections)

-- The payload is sent, and `true` returned, only on an open socket.
unfoldable pub send_to_slave : String → CopyInstruction → World → World × Bool
send_to_slave slave_id payload w =
    if is_live (get slave_id w.connections)
    then (record w { sent = (slave_id, payload) ∷ w.sent }, true)
    else (w, false)

-- `connections.set(slaveId, socket)`, when a Slave's connector has been authenticated
unfoldable pub connected : String → Socket → World → World
connected slave_id socket w = record w {
  connections = (slave_id, socket) ∷ delete slave_id w.connections;
}

abbrev pub is_socket : Option Socket → ℕ → Bool
is_socket none n = false
is_socket (some s) n = leb s.number n && leb n s.number

-- the "close" handler: an old socket's close leaves a newer connection alone
unfoldable pub closed : String → ℕ → World → World
closed slave_id socket w =
    if is_socket (get slave_id w.connections) socket
    then record w { connections = delete slave_id w.connections }
    else w
