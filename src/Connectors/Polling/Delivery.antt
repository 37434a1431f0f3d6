-- ===== src/Connectors/Polling/Delivery.antt =====
-- What the poll hands over.
use forex_remote_copy_tradin.Prelude.{
  ℕ, ◌≤◌, ◌<◌, ◌≢◌, String, ◌≡◌, refl, ◌⊎◌, inl, inr, Bool, true, false, ◌||◌, if◌then◌else◌,
  Option, none, some, List, [], ◌∷◌, arith, find_last, update_where, count_where, ◌==◌, Bool-cases,
  Option-cases, truthy, eq_iff, option_map,
}
use forex_remote_copy_tradin.Number.{Number}
use forex_remote_copy_tradin.Types.{
  CopyInstruction, Slave, CopyOrder, TradeEvent, is_closes, is_modifies, closes, modifies,
}
use forex_remote_copy_tradin.World.{World}
use forex_remote_copy_tradin.Realtime.AdminWsGateway.{broadcast_to_admins}
use forex_remote_copy_tradin.CopyEngine.Queries.{trade_event_of, find_executed_open_slave_ticket}
use forex_remote_copy_tradin.CopyEngine.Dispatch.{instruction}
use forex_remote_copy_tradin.Connectors.Polling.{
  no_content, delivered, is_pending_for, oldest_pending, hand_over, fail_pending, pick_up, poll,
}

module _ (p : CopyOrder → Bool) (k : String) (change : CopyOrder → CopyOrder)
    (off : (o : CopyOrder) → p (change o) ≡ false) where
  count-update-le :
      (orders : List CopyOrder)
      → count_where p (update_where (λ q. q.id == k) change orders) ≤ count_where p orders
  count-update-le [] = omega arith
  count-update-le (x ∷ orders) = ground (arith, off x, count-update-le orders)

  -- Switching off a row that counts lowers the count.
  count-update-lt :
      (orders : List CopyOrder) (o : CopyOrder)
      → find_last p orders ≡ some o
      → o.id ≡ k
      → count_where p (update_where (λ q. q.id == k) change orders) < count_where p orders
  count-update-lt [] o h e = absurd (cc)
  count-update-lt (x ∷ orders) o h e =
      ground (arith, off x, eq_iff x.id k, count-update-le orders, count-update-lt orders o)

-- The ticket that goes with a row: none for an OPEN, else that of the newest EXECUTED OPEN copy.
abbrev pub ticket_for : World → String → CopyOrder → Option String
ticket_for w slave_id o =
    if is_closes o.type || is_modifies o.type
    then truthy (find_executed_open_slave_ticket w.copy_orders slave_id o.master_ticket)
    else none

module _ (numeric : ℕ → Number → Number) where
  -- the numbers of an instruction as the columns keep them
  abbrev pub stored_numbers : CopyInstruction → CopyInstruction
  stored_numbers i = record i {
    volume = option_map (numeric 2) i.volume;
    sl = option_map (numeric 5) i.sl;
    tp = option_map (numeric 5) i.tp;
  }

  -- A row that is neither a CLOSE nor a MODIFY, or has a ticket.
  abbrev pub HasTicket : World → String → CopyOrder → Type 0
  HasTicket w slave_id o =
      ((o.type ≢ closes) × (o.type ≢ modifies))
      ⊎ ((ticket : String) × (ticket_for w slave_id o ≡ some ticket))

  -- A row is handed over, or is a CLOSE or MODIFY without a ticket and fails.
  pick_up_cases :
      (slave_id : String) (o : CopyOrder) (t : TradeEvent) (w : World)
      → (((is_closes o.type || is_modifies o.type) ≡ true)
          × (ticket_for w slave_id o ≡ none)
          × (pick_up numeric slave_id o (some t) w ≡ fail_pending slave_id o t w))
        ⊎ (HasTicket w slave_id o
            × (pick_up numeric slave_id o (some t) w
                ≡ hand_over numeric slave_id o t (ticket_for w slave_id o) w))
  unfolding pick_up
  pick_up_cases slave_id o t w = elim (Bool-cases (is_closes o.type || is_modifies o.type)) [
    | inr opening ↦ inr (
      inl (
        (λ e. let closing = rw e at opening in cc),
        (λ e. let modifying = rw e at opening in cc),
      ),
      rw opening,
    )
    | inl reduction ↦
        elim (Option-cases
          (truthy (find_executed_open_slave_ticket w.copy_orders slave_id o.master_ticket))) [
            | inl missing ↦ inl (reduction, rw (reduction, missing), rw (reduction, missing))
            | inr (ticket, found) ↦ inr (inr (ticket, rw (reduction, found)), rw (reduction, found))
          ]
  ]

  poll_found :
      (slave_id : String) (w : World) (o : CopyOrder) (t : TradeEvent)
      → oldest_pending w slave_id ≡ some o
      → trade_event_of w.trade_events o ≡ some t
      → poll numeric slave_id w ≡ pick_up numeric slave_id o (some t) w
  unfolding poll
  poll_found slave_id w o t h f = rw (h, poll) (rw f)

  module _ (slave_id : String) (w : World) (o : CopyOrder) (t : TradeEvent)
      (h : oldest_pending w slave_id ≡ some o) where
    hand_over-count :
        (ticket : Option String)
        → count_where
            (is_pending_for slave_id)
            (hand_over numeric slave_id o t ticket w).0.copy_orders
          < count_where (is_pending_for slave_id) w.copy_orders
    unfolding broadcast_to_admins
    hand_over-count ticket =
        count-update-lt (is_pending_for slave_id) o.id _ (λ q. ground arith) w.copy_orders o h refl

    fail_pending-count :
        count_where (is_pending_for slave_id) (fail_pending slave_id o t w).0.copy_orders
        < count_where (is_pending_for slave_id) w.copy_orders
    unfolding broadcast_to_admins
    fail_pending-count =
        count-update-lt (is_pending_for slave_id) o.id _ (λ q. ground arith) w.copy_orders o h refl

  -- A poll that finds a PENDING row of the Slave lowers the number of such rows: the queue drains.
  pub poll-count :
      (slave_id : String) (w : World) (o : CopyOrder) (t : TradeEvent)
      → oldest_pending w slave_id ≡ some o
      → trade_event_of w.trade_events o ≡ some t
      → count_where (is_pending_for slave_id) (poll numeric slave_id w).0.copy_orders
        < count_where (is_pending_for slave_id) w.copy_orders
  poll-count slave_id w o t h f =
      rw (poll_found slave_id w o t h f) (elim (pick_up_cases slave_id o t w) [
        | inl (_, _, e) ↦ rw e (fail_pending-count slave_id w o t h)
        | inr (has, e) ↦ rw e (hand_over-count slave_id w o t h (ticket_for w slave_id o))
      ])

  -- The poll of an MT4 Slave, for the oldest PENDING row, made by a copy of the event. A CLOSE or MODIFY
  -- for which no ticket is found any more delivers nothing. Any other row delivers the instruction that
  -- the push would have sent at that moment, with the ticket found by then, where its volume and prices
  -- are what the Decimal columns keep of them.
  pub poll-instruction :
      (s : Slave) (w : World) (o : CopyOrder) (t : TradeEvent)
      → oldest_pending w s.id ≡ some o
      → trade_event_of w.trade_events o ≡ some t
      → o.type ≡ t.event.type
      → (((o.type ≡ closes) ⊎ (o.type ≡ modifies))
          × (ticket_for w s.id o ≡ none)
          × ((poll numeric s.id w).1 ≡ no_content))
        ⊎ (HasTicket w s.id o
            × ((poll numeric s.id w).1
                ≡ delivered (
                    stored_numbers (
                      instruction o.id s t.id t.event w (ticket_for w s.id o) o.requested_volume))))
  poll-instruction s w o t h f same =
      rw (poll_found s.id w o t h f) (elim (pick_up_cases s.id o t w) [
        | inl (reduction, missing, e) ↦ inl (ground arith, missing, rw e)
        | inr (has, e) ↦ inr (has, rw (e, same))
      ])
