-- ===== src/Tools/SimulateSlave/Loop.antt =====
-- The simulator and the backend: an OPEN, its result, and the CLOSE of the same trade.
use forex_remote_copy_tradin.Prelude.{
  String, false, ◌≡◌, refl, ap, inl, inr, some, List, [], ◌∷◌, ◌++◌ as append, arith, any,
  find_first, truthy, Bool-cases, eq→beq, ◌==◌,
}
use forex_remote_copy_tradin.Number.{Number}
use forex_remote_copy_tradin.Types.{
  Slave, NormalizedTradeEvent, opens, closes, CopyInstruction, CopyOrder,
}
use forex_remote_copy_tradin.World.{World, find_order}
use forex_remote_copy_tradin.CopyEngine.Plan.{MasterAccount, proceed, plan}
use forex_remote_copy_tradin.CopyEngine.Results.{handle_slave_message}
use forex_remote_copy_tradin.CopyEngine.Results.TradeIdentity.{opens_for, handle_slave_message-plan}
use forex_remote_copy_tradin.Tools.SimulateSlave.{
  TrackedPosition, has_ticket, splice, opened_position, receive,
}

-- A position at the end, with a ticket that no other has, is the one that a CLOSE takes out.
splice-last :
    (ticket : String) (p : TrackedPosition) (ps : List TrackedPosition)
    → p.ticket ≡ ticket
    → any (has_ticket (some ticket)) ps ≡ false
    → splice (some ticket) (append ps (p ∷ [])) ≡ ps
splice-last ticket p [] own new = rw (eq→beq p.ticket ticket own) refl
splice-last ticket p (q ∷ ps) own new = elim (Bool-cases (q.ticket == ticket)) [
  | inl taken ↦ absurd (ground (arith, taken))
  | inr other ↦ rw other (ap (λ qs. q ∷ qs) (splice-last ticket p ps own (rw other at new)))
]

-- The simulator receives the OPEN of a Slave's newest copy and draws a ticket that none of its positions
-- has. When the backend has its result, a CLOSE of the Master's ticket is planned for the drawn ticket,
-- and when the simulator receives a CLOSE with that ticket, its positions are those before the OPEN.
pub receive-plan-receive :
    (s : Slave) (w : World) (o : CopyOrder) (i j : CopyInstruction) (ticket other : String)
    (price paid : Number) (ps : List TrackedPosition) (e : NormalizedTradeEvent)
    (account : MasterAccount)
    → i.action ≡ opens
    → any (has_ticket (some ticket)) ps ≡ false
    → truthy (some ticket) ≡ some ticket
    → find_order w.copy_orders i.copy_id ≡ some o
    → o.id ≡ i.copy_id
    → o.slave_id ≡ s.id
    → find_first (opens_for s.id e.master_ticket) w.copy_orders ≡ some o
    → e.type ≡ closes
    → j.action ≡ closes
    → j.slave_ticket ≡ some ticket
    → (plan
          (handle_slave_message s.id (some (receive false ticket price i ps).1) w).copy_orders
          s
          e
          account
        ≡ proceed (some ticket) e.volume)
      × ((receive false other paid j (receive false ticket price i ps).0).0 ≡ ps)
unfolding receive
receive-plan-receive s w o i j ticket other price paid ps e account opening new shown found id own
      newest closing ends held =
    (
      handle_slave_message-plan s (receive false ticket price i ps).1 w o ticket e account
          (rw (receive, opening) found) (rw (receive, opening) id) own newest
          (rw (receive, opening) refl) (rw (receive, opening) refl) shown (inl closing),
      rw (receive, opening, ends, held) (splice-last ticket (opened_position ticket i) ps refl new),
    )
