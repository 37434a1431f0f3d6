-- ===== src/CopyEngine/Dispatch/Laws.antt =====
-- What copyToSlave leaves behind.
use forex_remote_copy_tradin.Prelude.{
  String, ◌≡◌, refl, sym, subst, inl, inr, true, false, Option, none, some, any, Bool-cases,
  option_bind-eq_some,
}
use forex_remote_copy_tradin.Number.{Number}
use forex_remote_copy_tradin.Types.{
  Slave, NormalizedTradeEvent, pending, sent, failed, ErrorReason, slave_offline,
}
use forex_remote_copy_tradin.World.{World, Broadcast, find_order, create_order, is_copy_of}
use forex_remote_copy_tradin.Realtime.AdminWsGateway.{broadcast_to_admins}
use forex_remote_copy_tradin.Realtime.WsGateway.{is_slave_connected, send_to_slave}
use forex_remote_copy_tradin.Slaves.SymbolMapping.{resolve_slave_symbol}
use forex_remote_copy_tradin.Connectors.Online.{has_online_connector}
use forex_remote_copy_tradin.CopyEngine.Plan.{MasterAccount, Plan, refuse, proceed, plan}
use forex_remote_copy_tradin.CopyEngine.Dispatch.{
  is_mt4, is_reachable, new_order, broadcast_of, fail_copy_order, deliver, carry_out, copy_to_slave,
}
use forex_remote_copy_tradin.CopyEngine.Dispatch.Outcome.{
  with_order, create_order-eq-some, update_fresh, refused, found_offline, waits_for_poll,
  sent_to_socket, Copied,
}

module _ (new_id : String) (s : Slave) (trade_event_id : String) (e : NormalizedTradeEvent) where
  fail_copy_order-eq-some :
      (reason : ErrorReason) (requested : Option Number) (w : World) {w' : World}
      → fail_copy_order new_id s trade_event_id e reason requested w ≡ some w'
      → w'
        ≡ broadcast_to_admins
            (broadcast_of new_id s e failed requested none (some reason))
            (with_order w (new_order new_id s trade_event_id e failed requested (some reason)))
  unfolding fail_copy_order
  fail_copy_order-eq-some reason requested w {w'} h =
      let (w1, created, announced) = option_bind-eq_some (create_order _ w) _ h in
      let shape =
        create_order-eq-some (new_order new_id s trade_event_id e failed requested (some reason)) w
          created in
      let b : Broadcast = broadcast_of new_id s e failed requested none (some reason) in
      let same : w' ≡ broadcast_to_admins b w1 = cc in
      subst (λ v. w' ≡ broadcast_to_admins b v) shape same

  fail_copy_order-Copied :
      (reason : ErrorReason) (requested : Option Number) (w : World) {w' : World}
      → fail_copy_order new_id s trade_event_id e reason requested w ≡ some w'
      → Copied new_id s trade_event_id e (refuse reason requested) w w'
  unfolding broadcast_to_admins
  fail_copy_order-Copied reason requested w h =
      subst (Copied new_id s trade_event_id e (refuse reason requested) w)
        (sym (fail_copy_order-eq-some reason requested w h))
        (record {
          order = new_order new_id s trade_event_id e failed requested (some reason);
          newest = refl;
          has_id = refl;
          for_slave = refl;
          for_event = refl;
          of_ticket = refl;
          of_type = refl;
          outcome = refused reason refl refl refl refl;
        })

  module _ (ticket : Option String) (v : Option Number) (w : World) where
    abbrev created : World
    created = with_order w (new_order new_id s trade_event_id e pending v none)

    deliver_offline :
        find_order w.copy_orders new_id ≡ none
        → is_reachable s created ≡ false
        → Copied new_id s trade_event_id e
            (proceed ticket v)
            w
            (deliver new_id s trade_event_id e ticket v created)
    unfolding deliver broadcast_to_admins has_online_connector is_slave_connected
    deliver_offline fresh off = rw off (record {
      order = new_order new_id s trade_event_id e failed v (some slave_offline);
      newest =
          update_fresh new_id (λ o. record o { status = failed; error_reason = some slave_offline })
            w (new_order new_id s trade_event_id e pending v none) fresh refl;
      has_id = refl;
      for_slave = refl;
      for_event = refl;
      of_ticket = refl;
      of_type = refl;
      outcome = found_offline ticket refl off refl refl refl;
    })

    deliver_to_poll :
        is_mt4 s ≡ true
        → is_reachable s created ≡ true
        → Copied new_id s trade_event_id e
            (proceed ticket v)
            w
            (deliver new_id s trade_event_id e ticket v created)
    unfolding deliver broadcast_to_admins has_online_connector
    deliver_to_poll mt4 on =
        rw (on, mt4)
          (record {
            order = new_order new_id s trade_event_id e pending v none;
            newest = refl;
            has_id = refl;
            for_slave = refl;
            for_event = refl;
            of_ticket = refl;
            of_type = refl;
            outcome = waits_for_poll ticket refl mt4 (rw mt4 at on) refl refl;
          })

    deliver_to_socket :
        find_order w.copy_orders new_id ≡ none
        → is_mt4 s ≡ false
        → is_reachable s created ≡ true
        → Copied new_id s trade_event_id e
            (proceed ticket v)
            w
            (deliver new_id s trade_event_id e ticket v created)
    unfolding deliver broadcast_to_admins send_to_slave is_slave_connected resolve_slave_symbol
    deliver_to_socket fresh mt5 on =
        let live : is_slave_connected w s.id ≡ true = rw mt5 at on in
        rw (on, mt5, live)
          (record {
            order = record (new_order new_id s trade_event_id e sent v none) {
              sent_at = some w.now;
            };
            newest =
                update_fresh new_id (λ o. record o { status = sent; sent_at = some w.now }) w
                  (new_order new_id s trade_event_id e pending v none) fresh refl;
            has_id = refl;
            for_slave = refl;
            for_event = refl;
            of_ticket = refl;
            of_type = refl;
            outcome = sent_to_socket ticket refl mt5 live refl refl;
          })

    deliver-Copied :
        find_order w.copy_orders new_id ≡ none
        → Copied new_id s trade_event_id e
            (proceed ticket v)
            w
            (deliver new_id s trade_event_id e ticket v created)
    deliver-Copied fresh = elim (Bool-cases (is_reachable s created)) [
      | inr off ↦ deliver_offline fresh off
      | inl on ↦ elim (Bool-cases (is_mt4 s)) [
        | inl mt4 ↦ deliver_to_poll mt4 on
        | inr mt5 ↦ deliver_to_socket fresh mt5 on
      ]
    ]

  carry_out-Copied :
      (p : Plan) (w : World) {w' : World}
      → find_order w.copy_orders new_id ≡ none
      → carry_out new_id s trade_event_id e p w ≡ some w'
      → Copied new_id s trade_event_id e p w w'
  unfolding carry_out
  carry_out-Copied (refuse reason requested) w fresh h = fail_copy_order-Copied reason requested w h
  carry_out-Copied (proceed ticket v) w {w'} fresh h =
      let (w1, made, delivered) = option_bind-eq_some (create_order _ w) _ h in
      let shape =
        create_order-eq-some (new_order new_id s trade_event_id e pending v none) w made in
      let same : w' ≡ deliver new_id s trade_event_id e ticket v w1 = cc in
      subst (Copied new_id s trade_event_id e (proceed ticket v) w) (sym same) (
        subst
          (λ u.
            Copied new_id s trade_event_id e (proceed ticket v) w
              (deliver new_id s trade_event_id e ticket v u))
          (sym shape) (deliver-Copied ticket v w fresh))

  -- A copy that does not throw adds exactly one row, the newest, for this event and Slave, when the
  -- drawn id is new, and ends in one of four ways. A refused plan leaves the row FAILED with the
  -- plan's reason. A Slave that cannot be reached leaves it FAILED with SLAVE_OFFLINE. For an MT4
  -- Slave with an online connector it stays PENDING. In these three nothing is sent. For another Slave
  -- with an open socket it becomes SENT, and the instruction with the row's id, the planned ticket and
  -- volume, the event's action, side and prices, and the symbol under the Slave's mapping was sent.
  pub copy_to_slave-Copied :
      (account : MasterAccount) (w w' : World)
      → find_order w.copy_orders new_id ≡ none
      → copy_to_slave new_id s trade_event_id e account w ≡ some w'
      → Copied new_id s trade_event_id e (plan w.copy_orders s e account) w w'
  unfolding copy_to_slave
  copy_to_slave-Copied account w w' fresh h =
      carry_out-Copied (plan w.copy_orders s e account) w fresh h

  -- A copy of an event that the Slave already has a row for throws, whatever the checks say.
  pub copy_to_slave-duplicate :
      (account : MasterAccount) (w : World)
      → any (is_copy_of trade_event_id s.id) w.copy_orders ≡ true
      → copy_to_slave new_id s trade_event_id e account w ≡ none
  unfolding copy_to_slave fail_copy_order create_order
  copy_to_slave-duplicate account w h =
      elim (plan w.copy_orders s e account)
        as (λ p. carry_out new_id s trade_event_id e p w ≡ none) [
          | refuse reason requested ↦ rw h
          | proceed ticket v ↦ rw h
        ]
