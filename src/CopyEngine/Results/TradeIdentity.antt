-- ===== src/CopyEngine/Results/TradeIdentity.antt =====
-- The ticket of a trade: from the result of an OPEN to the CLOSE or MODIFY that follows it.
use forex_remote_copy_tradin.Prelude.{
  ℕ, String, ◌≡◌, refl, ap, ◌∙◌, ◌⊎◌, inl, inr, Bool, true, false, if◌then◌else◌, ◌&&◌, some, List,
  [], ◌∷◌, arith, find_first, update_where, ◌==◌, Bool-cases, eq→beq, truthy,
}
use forex_remote_copy_tradin.Types.{
  Slave, NormalizedTradeEvent, closes, modifies, CopyOrder, ExecutionResult, ResultStatus, is_opens,
}
use forex_remote_copy_tradin.World.{World, find_order}
use forex_remote_copy_tradin.CopyEngine.Queries.{is_open_copy_of, find_executed_open_slave_ticket}
use forex_remote_copy_tradin.CopyEngine.Plan.{MasterAccount, proceed, plan}
use forex_remote_copy_tradin.CopyEngine.Plan.Laws.{plan_of_ticket}
use forex_remote_copy_tradin.CopyEngine.Results.{with_result, handle_slave_message}
use forex_remote_copy_tradin.CopyEngine.Results.Laws.{handle_slave_message_own}

-- an OPEN copy of the Slave for the Master's ticket, whatever its status
abbrev pub opens_for : String → String → CopyOrder → Bool
opens_for slave_id master_ticket o =
    o.master_ticket == master_ticket && o.slave_id == slave_id && is_opens o.type

module _ (slave_id master_ticket k : String) (r : ExecutionResult) (now : ℕ)
    (done : r.status ≡ ResultStatus.executed) where
  executed_matches :
      (o : CopyOrder)
      → opens_for slave_id master_ticket o ≡ true
      → is_open_copy_of slave_id master_ticket (with_result r now o) ≡ true
  executed_matches o h = ground arith

  other_row :
      (o : CopyOrder) (b : Bool)
      → opens_for slave_id master_ticket o ≡ false
      → is_open_copy_of slave_id master_ticket (if b then with_result r now o else o) ≡ false
  other_row o b h = ground arith

  newest_executed :
      (orders : List CopyOrder) (o : CopyOrder)
      → find_first (opens_for slave_id master_ticket) orders ≡ some o
      → o.id ≡ k
      → find_first
          (is_open_copy_of slave_id master_ticket)
          (update_where (λ q. q.id == k) (with_result r now) orders)
        ≡ some (with_result r now o)
  newest_executed [] o h e = absurd (cc)
  newest_executed (x ∷ orders) o h e = elim (Bool-cases (opens_for slave_id master_ticket x)) [
    | inr other ↦ rw (other_row x (x.id == k) other) (newest_executed orders o (rw other at h) e)
    | inl hit ↦
        let found : some x ≡ some o = rw hit at h in
        let same : x ≡ o = cc in
        rw (eq→beq x.id k (ap (λ q. q.id) same ∙ e), executed_matches x hit)
          (ap (λ q. some (with_result r now q)) same)
  ]

  executed_ticket :
      (orders : List CopyOrder) (o : CopyOrder) (ticket : String)
      → find_first (opens_for slave_id master_ticket) orders ≡ some o
      → o.id ≡ k
      → r.slave_ticket ≡ some ticket
      → find_executed_open_slave_ticket
          (update_where (λ q. q.id == k) (with_result r now) orders)
          slave_id
          master_ticket
        ≡ some ticket
  unfolding find_executed_open_slave_ticket
  executed_ticket orders o ticket newest e h = rw (newest_executed orders o newest e, h) refl

-- The identity of a trade. When a Slave reports EXECUTED, with a ticket that is not empty, for its
-- newest OPEN copy of a Master ticket, then after that message every CLOSE or MODIFY of the Master
-- ticket is planned to go on to that Slave with exactly the reported ticket.
pub handle_slave_message-plan :
    (s : Slave) (r : ExecutionResult) (w : World) (o : CopyOrder) (ticket : String)
    (e : NormalizedTradeEvent) (account : MasterAccount)
    → find_order w.copy_orders r.copy_id ≡ some o
    → o.id ≡ r.copy_id
    → o.slave_id ≡ s.id
    → find_first (opens_for s.id e.master_ticket) w.copy_orders ≡ some o
    → r.status ≡ ResultStatus.executed
    → r.slave_ticket ≡ some ticket
    → truthy (some ticket) ≡ some ticket
    → (e.type ≡ closes) ⊎ (e.type ≡ modifies)
    → plan (handle_slave_message s.id (some r) w).copy_orders s e account
      ≡ proceed (some ticket) e.volume
handle_slave_message-plan s r w o ticket e account found id own newest done told shown h =
    plan_of_ticket _ s e account ticket h (
      rw
        (
          handle_slave_message_own s.id r w o found own,
          executed_ticket s.id e.master_ticket r.copy_id r w.now done w.copy_orders o ticket newest
              id told,
        )
        shown)
