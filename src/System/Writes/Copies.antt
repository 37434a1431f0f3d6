-- ===== src/System/Writes/Copies.antt =====
-- The copies of an event as a sequence of writes.
use forex_remote_copy_tradin.Prelude.{
  String, inl, inr, Bool, true, false, Option, none, some, List, [], ◌∷◌, get_or, any, filter_by,
  Option-cases, Bool-cases, option_bind,
}
use forex_remote_copy_tradin.Number.{Number}
use forex_remote_copy_tradin.Types.{
  Slave, TradeEvent, NormalizedTradeEvent, CopyOrder, pending, failed,
}
use forex_remote_copy_tradin.World.{World, create_order, is_copy_of}
use forex_remote_copy_tradin.Realtime.WsGateway.{send_to_slave, is_live, get}
use forex_remote_copy_tradin.CopyEngine.Plan.{MasterAccount, Plan, refuse, proceed, plan}
use forex_remote_copy_tradin.CopyEngine.Dispatch.{
  new_order, is_mt4, is_reachable, fail_copy_order, instruction, record_send, deliver, carry_out,
  copy_to_slave,
}
use forex_remote_copy_tradin.CopyEngine.Fanout.{
  settle, fan_out, handle_master_event, is_copyable_event, find_trade_event, find_master,
  account_of, is_copied_to,
}
use forex_remote_copy_tradin.System.Writes.{
  outside, order_created, order_updated, Writes, done, one, both,
}
use forex_remote_copy_tradin.System.Writes.Services.{told, unchanged}

-- What follows the creation of a row, if it does not throw.
created_then :
    (o : CopyOrder) (w : World) (f : World → World)
    → ((v : World) → Writes v (f v))
    → Writes w (get_or (option_bind (create_order o w) (λ v. some (f v))) w)
unfolding create_order
created_then o w f after =
    elim (Bool-cases (any (is_copy_of o.trade_event_id o.slave_id) w.copy_orders)) [
      | inl taken ↦ rw (create_order, taken) done
      | inr free ↦ rw (create_order, free) (both (one (order_created o free)) (after _))
    ]

module _ (new_id : String) (s : Slave) (te : String) (e : NormalizedTradeEvent) where
  record_send-Writes :
      (ticket : Option String) (v : Option Number) (w : World) (b : Bool)
      → Writes w (record_send new_id s te e ticket v (w, b))
  unfolding record_send
  record_send-Writes ticket v w true =
      both (one (order_updated new_id _ (λ q. unchanged))) (told _ _)
  record_send-Writes ticket v w false =
      both (one (order_updated new_id _ (λ q. unchanged))) (told _ _)

  sent-Writes :
      (ticket : Option String) (v : Option Number) (w : World)
      → Writes w (
          record_send new_id s te e ticket v
            (send_to_slave s.id (instruction new_id s te e w ticket v) w))
  unfolding send_to_slave
  sent-Writes ticket v w = elim (Bool-cases (is_live (get s.id w.connections))) [
    | inl live ↦ rw live (
        both
          (one
            (outside (record w { sent = (s.id, instruction new_id s te e w ticket v) ∷ w.sent })))
          (record_send-Writes ticket v _ true))
    | inr shut ↦ rw shut (record_send-Writes ticket v w false)
  ]

  deliver-Writes :
      (ticket : Option String) (v : Option Number) (w : World)
      → Writes w (deliver new_id s te e ticket v w)
  unfolding deliver
  deliver-Writes ticket v w = elim (Bool-cases (is_reachable s w)) [
    | inr away ↦ rw away (both (one (order_updated new_id _ (λ q. unchanged))) (told _ _))
    | inl near ↦ elim (Bool-cases (is_mt4 s)) [
      | inl polls ↦ rw (near, polls) (told _ _)
      | inr listens ↦ rw (near, listens) (sent-Writes ticket v w)
    ]
  ]

  carry_out-Writes : (p : Plan) (w : World) → Writes w (get_or (carry_out new_id s te e p w) w)
  unfolding carry_out fail_copy_order
  carry_out-Writes (refuse reason requested) w =
      created_then (new_order new_id s te e failed requested (some reason)) w _ (λ v. told _ v)
  carry_out-Writes (proceed ticket volume) w =
      created_then (new_order new_id s te e pending volume none) w _
        (λ v. deliver-Writes ticket volume v)

  copy_to_slave-Writes :
      (account : MasterAccount) (w : World)
      → Writes w (get_or (copy_to_slave new_id s te e account w) w)
  unfolding copy_to_slave
  copy_to_slave-Writes account w = carry_out-Writes (plan w.copy_orders s e account) w

module _ (new_id : Slave → String) (e : NormalizedTradeEvent) where
  fan_out-Writes :
      (te : String) (account : MasterAccount) (slaves : List Slave) (w : World)
      → Writes w (fan_out new_id te e account slaves w)
  unfolding fan_out
  fan_out-Writes te account [] w = done
  fan_out-Writes te account (s ∷ slaves) w =
      both (copy_to_slave-Writes (new_id s) s te e account w)
        (fan_out-Writes te account slaves (settle new_id te e account s w))

  pub handle_master_event-Writes :
      (late : List TradeEvent) (w : World) → Writes w (handle_master_event new_id late e w)
  unfolding handle_master_event
  handle_master_event-Writes late w = elim (Bool-cases (is_copyable_event e)) [
    | inr other ↦ rw other done
    | inl copyable ↦ elim (Option-cases (find_trade_event w.trade_events e.event_id)) [
      | inr (t, stored) ↦
          rw (copyable, stored)
            (fan_out-Writes t.id (account_of (find_master w e.master_id))
              (filter_by (is_copied_to e.master_id) w.slaves) w)
      | inl missing ↦ elim (Option-cases (find_trade_event late e.event_id)) [
        | inl gone ↦ rw (copyable, missing, gone) (one (outside (record w { trade_events = late })))
        | inr (t, stored) ↦
            rw (copyable, missing, stored)
              (both (one (outside (record w { trade_events = late }))) (
                fan_out-Writes t.id (account_of (find_master w e.master_id))
                  (filter_by (is_copied_to e.master_id) w.slaves)
                  (record w { trade_events = late })))
      ]
    ]
  ]
