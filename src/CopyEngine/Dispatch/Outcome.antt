-- ===== src/CopyEngine/Dispatch/Outcome.antt =====
-- The row that copyToSlave leaves, and the ways in which it ends.
use forex_remote_copy_tradin.Prelude.{
  String, ◌≡◌, refl, ap, inl, inr, Bool, true, false, Option, none, some, List, [], ◌∷◌, arith,
  find_first, update_where, Bool-cases, eq→beq,
}
use forex_remote_copy_tradin.Types.{
  Slave, NormalizedTradeEvent, CopyOrder, pending, sent, failed, ErrorReason, slave_offline,
}
use forex_remote_copy_tradin.World.{World, find_order, update_order, create_order}
use forex_remote_copy_tradin.Realtime.WsGateway.{is_slave_connected}
use forex_remote_copy_tradin.Connectors.Online.{has_online_connector}
use forex_remote_copy_tradin.CopyEngine.Plan.{Plan, refuse, proceed}
use forex_remote_copy_tradin.CopyEngine.Dispatch.{is_mt4, is_reachable, instruction}

update_where_of_none {ℓ} :
    {A : Type ℓ} (p : A → Bool) (f : A → A) (xs : List A)
    → find_first p xs ≡ none
    → update_where p f xs ≡ xs
update_where_of_none p f [] h = refl
update_where_of_none p f (x ∷ xs) h = elim (Bool-cases (p x)) [
  | inl e ↦ absurd (ground arith)
  | inr e ↦ rw e (ap (◌∷◌ x) (update_where_of_none p f xs (ground arith)))
]

abbrev pub with_order : World → CopyOrder → World
with_order w o = record w { copy_orders = o ∷ w.copy_orders }

pub create_order-eq-some :
    (o : CopyOrder) (w : World) {w' : World} → create_order o w ≡ some w' → w' ≡ with_order w o
unfolding create_order
create_order-eq-some o w h = ground arith

-- The update of the row that was just created leaves the others alone.
pub update_fresh :
    (id : String) (change : CopyOrder → CopyOrder) (w : World) (o : CopyOrder)
    → find_order w.copy_orders id ≡ none
    → o.id ≡ id
    → (update_order id change (with_order w o)).copy_orders ≡ change o ∷ w.copy_orders
update_fresh id change w o fresh e =
    rw (eq→beq o.id id e) (ap (◌∷◌ (change o)) (update_where_of_none _ change w.copy_orders fresh))

module _ (new_id : String) (s : Slave) (trade_event_id : String) (e : NormalizedTradeEvent) where
  -- The four ways in which a copy ends, by what was planned.
  pub data Outcome (p : Plan) (w w' : World) (o : CopyOrder) : Type 0 where
    refused :
        (reason : ErrorReason)
        → p ≡ refuse reason o.requested_volume
        → o.status ≡ failed
        → o.error_reason ≡ some reason
        → w'.sent ≡ w.sent
        → Outcome p w w' o
    found_offline :
        (ticket : Option String)
        → p ≡ proceed ticket o.requested_volume
        → is_reachable s w ≡ false
        → o.status ≡ failed
        → o.error_reason ≡ some slave_offline
        → w'.sent ≡ w.sent
        → Outcome p w w' o
    waits_for_poll :
        (ticket : Option String)
        → p ≡ proceed ticket o.requested_volume
        → is_mt4 s ≡ true
        → has_online_connector w s.id ≡ true
        → o.status ≡ pending
        → w'.sent ≡ w.sent
        → Outcome p w w' o
    sent_to_socket :
        (ticket : Option String)
        → p ≡ proceed ticket o.requested_volume
        → is_mt4 s ≡ false
        → is_slave_connected w s.id ≡ true
        → o.status ≡ sent
        → w'.sent
          ≡ (s.id, instruction new_id s trade_event_id e w ticket o.requested_volume) ∷ w.sent
        → Outcome p w w' o

  -- The row of the copy, newest of the table, and how the copy ended.
  pub record Copied (p : Plan) (w w' : World) : Type 0 where
    pub order : CopyOrder
    pub newest : w'.copy_orders ≡ order ∷ w.copy_orders
    pub has_id : order.id ≡ new_id
    pub for_slave : order.slave_id ≡ s.id
    pub for_event : order.trade_event_id ≡ trade_event_id
    pub of_ticket : order.master_ticket ≡ e.master_ticket
    pub of_type : order.type ≡ e.type
    pub outcome : Outcome p w w' order
