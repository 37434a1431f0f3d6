-- ===== src/Realtime/AdminWsGateway.antt =====
-- backend/src/modules/realtime/adminWsGateway.ts
use forex_remote_copy_tradin.Prelude.{
  ℕ, Bool, not, ◌&&◌, leb, filter_by, List, [], ◌∷◌, if◌then◌else◌,
}
use forex_remote_copy_tradin.World.{World, Socket, Broadcast}

-- the loop over the sockets
send_open : Broadcast → List Socket → List (ℕ × Broadcast) → List (ℕ × Broadcast)
send_open payload [] log = log
send_open payload (s ∷ sockets) log =
    send_open payload sockets (if s.is_open then (s.number, payload) ∷ log else log)

unfoldable pub broadcast_to_admins : Broadcast → World → World
unfolding send_open
broadcast_to_admins payload w = record w {
  admin_sent = send_open payload w.admin_sockets w.admin_sent;
}

abbrev pub is_numbered : ℕ → Socket → Bool
is_numbered number s = leb s.number number && leb number s.number

-- /ws/admin: the socket of a dashboard joins the set, and leaves it when it closes.
unfoldable pub admin_connected : Socket → World → World
admin_connected socket w = record w { admin_sockets = socket ∷ w.admin_sockets }

unfoldable pub admin_closed : ℕ → World → World
admin_closed number w = record w {
  admin_sockets = filter_by (λ s. not (is_numbered number s)) w.admin_sockets;
}
