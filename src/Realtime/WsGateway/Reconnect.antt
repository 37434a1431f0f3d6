-- ===== src/Realtime/WsGateway/Reconnect.antt =====
-- A Slave that reconnects before its old socket's close is noticed.
use forex_remote_copy_tradin.Prelude.{
  ℕ, String, ◌≡◌, ◌≢◌, refl, true, false, List, [], ◌∷◌, arith, eq→beq, ◌==◌, leb, eq_iff, none,
  ◌&&◌, some,
}
use forex_remote_copy_tradin.Types.{CopyInstruction}
use forex_remote_copy_tradin.World.{World, Socket}
use forex_remote_copy_tradin.Realtime.WsGateway.{
  get, delete, connected, closed, send_to_slave, is_slave_connected,
}

get-delete :
    (k x : String) (m : List (String × Socket)) → (k == x) ≡ false → get x (delete k m) ≡ get x m
get-delete k x [] other = refl
get-delete k x ((j, s) ∷ m) other =
    ground (arith, eq_iff j k, eq_iff j x, eq_iff k x, get-delete k x m other)

-- the gateway's table after a Slave has reconnected and its old socket has then closed
abbrev pub reconnected : String → ℕ → Socket → World → World
reconnected slave_id old socket w = closed slave_id old (connected slave_id socket w)

closed-newer :
    (slave_id : String) (old : ℕ) (socket : Socket) (w : World)
    → old ≢ socket.number
    → reconnected slave_id old socket w ≡ connected slave_id socket w
unfolding closed connected
closed-newer slave_id old socket w other = ground (arith, eq→beq slave_id slave_id)

-- When a Slave connects with an open socket and another, older socket of the Slave closes after that,
-- an instruction to the Slave is still sent, and nothing but the instruction is added to what a state
-- without that close would hold.
pub reconnected-send :
    (slave_id : String) (old : ℕ) (socket : Socket) (payload : CopyInstruction) (w : World)
    → socket.is_open ≡ true
    → old ≢ socket.number
    → send_to_slave slave_id payload (reconnected slave_id old socket w)
      ≡ (record (connected slave_id socket w) { sent = (slave_id, payload) ∷ w.sent }, true)
unfolding send_to_slave connected
reconnected-send slave_id old socket payload w up other =
    rw (closed-newer slave_id old socket w other, eq→beq slave_id slave_id refl, up) refl

pub get-connected :
    (slave_id x : String) (socket : Socket) (w : World)
    → slave_id ≡ x
    → get x (connected slave_id socket w).connections ≡ some socket
unfolding connected
get-connected slave_id x socket w e = rw (eq→beq slave_id x e) refl

-- The connect of a Slave, and the close of one of its sockets, leave every other Slave's socket alone.
pub reconnected-others :
    (slave_id x : String) (old : ℕ) (socket : Socket) (w : World)
    → (slave_id == x) ≡ false
    → (get x (connected slave_id socket w).connections ≡ get x w.connections)
      × (get x (closed slave_id old w).connections ≡ get x w.connections)
unfolding connected closed
reconnected-others slave_id x old socket w other =
    let kept = get-delete slave_id x w.connections other in (rw other kept, ground (arith, kept))

get-delete_own : (k : String) (m : List (String × Socket)) → get k (delete k m) ≡ none
get-delete_own k [] = refl
get-delete_own k ((j, s) ∷ m) = ground (arith, get-delete_own k m)

closed_own :
    (slave_id : String) (socket : Socket) (w : World)
    → get slave_id w.connections ≡ some socket
    → closed slave_id socket.number w ≡ record w { connections = delete slave_id w.connections }
unfolding closed
closed_own slave_id socket w h =
    let same : (leb socket.number socket.number && leb socket.number socket.number) ≡ true =
      ground arith in
    rw (h, same) refl

-- When the Slave's current socket closes, the Slave is not connected, and nothing is sent to it.
pub closed-send :
    (slave_id : String) (socket : Socket) (payload : CopyInstruction) (w : World)
    → get slave_id w.connections ≡ some socket
    → (is_slave_connected (closed slave_id socket.number w) slave_id ≡ false)
      × (send_to_slave slave_id payload (closed slave_id socket.number w)
          ≡ (closed slave_id socket.number w, false))
unfolding send_to_slave is_slave_connected
closed-send slave_id socket payload w h =
    let gone = get-delete_own slave_id w.connections in
    (rw (closed_own slave_id socket w h, gone) refl, rw (closed_own slave_id socket w h, gone) refl)
