-- ===== src/CopyEngine/Results/Laws.antt =====
-- What the result of an execution changes, and what it leaves alone.
use forex_remote_copy_tradin.Prelude.{
  ℕ, false, ◌≢◌, Option-cases, or_else, String, ◌≡◌, refl, ap, ◌∙◌, ◌⊎◌, inl, inr, Option, none,
  some, List, [], ◌∷◌, arith, update_where, ◌==◌, Bool-cases, eq→beq, beq→eq, if◌then◌else◌,
  option_map, eq_iff,
}
use forex_remote_copy_tradin.Types.{
  CopyOrder, CopyOrderStatus, ExecutionResult, ResultStatus, TradeEvent, reported,
}
use forex_remote_copy_tradin.World.{World, find_order}
use forex_remote_copy_tradin.Realtime.AdminWsGateway.{broadcast_to_admins}
use forex_remote_copy_tradin.CopyEngine.Queries.{trade_event_of}
use forex_remote_copy_tradin.CopyEngine.Results.{
  to_status, with_result, announce, record_result, handle_slave_message,
}

announce-copy_orders :
    (slave_id : String) (r : ExecutionResult) (o : CopyOrder) (t : Option TradeEvent) (w : World)
    → (announce slave_id r o t w).copy_orders ≡ w.copy_orders
unfolding broadcast_to_admins
announce-copy_orders slave_id r o none w = refl
announce-copy_orders slave_id r o (some t) w = refl

-- The value is the new one, or the old one where there is none.
abbrev pub IsTaken {ℓ} : {A : Type ℓ} → Option A → Option A → Option A → Type ℓ
IsTaken none old now = now ≡ old
IsTaken (some a) old now = now ≡ some a

-- No row, or one of another Slave.
abbrev pub IsForeign : String → Option CopyOrder → Type 0
IsForeign slave_id none = Unit
IsForeign slave_id (some o) = o.slave_id ≢ slave_id

-- Another id than that of the message, no row, or one of another Slave.
abbrev pub IsNotOwn : String → String → String → Option CopyOrder → Type 0
IsNotOwn slave_id copy_id id found = (id ≢ copy_id) ⊎ IsForeign slave_id found

other_id : (id key : String) → (id == key) ≡ false → id ≢ key
other_id id key other e = let same = eq→beq id key e in cc

foreign_elsewhere :
    (slave_id copy_id id : String) (orders : List CopyOrder)
    → IsForeign slave_id (find_order orders copy_id)
    → IsNotOwn slave_id copy_id id (find_order orders id)
foreign_elsewhere slave_id copy_id id orders foreign = elim (Bool-cases (id == copy_id)) [
  | inr other ↦ inl (other_id id copy_id other)
  | inl here ↦ inr (rw (beq→eq id copy_id here) foreign)
]

-- The table after a message.
pub handle_slave_message-copy_orders :
    (slave_id : String) (r : ExecutionResult) (w : World)
    → (IsForeign slave_id (find_order w.copy_orders r.copy_id)
        × ((handle_slave_message slave_id (some r) w).copy_orders ≡ w.copy_orders))
      ⊎ ((o : CopyOrder) × (find_order w.copy_orders r.copy_id ≡ some o)
          × (o.slave_id ≡ slave_id)
          × ((handle_slave_message slave_id (some r) w).copy_orders
              ≡ update_where (λ q. q.id == r.copy_id) (with_result r w.now) w.copy_orders))
unfolding handle_slave_message record_result
handle_slave_message-copy_orders slave_id r w =
    elim (Option-cases (find_order w.copy_orders r.copy_id)) [
      | inl missing ↦ inl (rw missing tt, rw (handle_slave_message, missing) refl)
      | inr (o, found) ↦ elim (Bool-cases (o.slave_id == slave_id)) [
        | inr other ↦ inl (
          rw found (other_id o.slave_id slave_id other),
          rw (handle_slave_message, found, record_result, other) refl,
        )
        | inl own ↦ inr (
          o,
          found,
          beq→eq o.slave_id slave_id own,
          rw (handle_slave_message, found, record_result, own)
              (announce-copy_orders slave_id r o (trade_event_of w.trade_events o) _),
        )
      ]
    ]

-- A lookup after the update of one row, for a change that keeps the id.
find_order-update :
    (k j : String) (change : CopyOrder → CopyOrder) (orders : List CopyOrder)
    → ((o : CopyOrder) → (change o).id ≡ o.id)
    → find_order (update_where (λ q. q.id == k) change orders) j
      ≡ (if j == k then option_map change (find_order orders j) else find_order orders j)
find_order-update k j change [] keeps = ground arith
find_order-update k j change (o ∷ orders) keeps = ground (
  arith,
  keeps o,
  eq_iff o.id k,
  eq_iff o.id j,
  eq_iff j k,
  find_order-update k j change orders keeps,
)

-- What a Slave reports is in the row: the status, and the ticket, the price and the reason where there
-- are such; the row is else the old one.
pub record IsReported (r : ExecutionResult) (now : ℕ) (o q : CopyOrder) : Type 0 where
  pub status :
      ((r.status ≡ ResultStatus.executed) × (q.status ≡ CopyOrderStatus.executed))
      ⊎ ((r.status ≡ ResultStatus.failed) × (q.status ≡ CopyOrderStatus.failed))
  pub ticket : IsTaken r.slave_ticket o.slave_ticket q.slave_ticket
  pub price : IsTaken r.execution_price o.execution_price q.execution_price
  pub reason : IsTaken (option_map reported r.reason) o.error_reason q.error_reason
  pub time : q.executed_at ≡ some now
  pub others : q ≡ record o {
    status = q.status;
    slave_ticket = q.slave_ticket;
    execution_price = q.execution_price;
    error_reason = q.error_reason;
    executed_at = q.executed_at;
  }

to_status_cases :
    (s : ResultStatus)
    → ((s ≡ ResultStatus.executed) × (to_status s ≡ CopyOrderStatus.executed))
      ⊎ ((s ≡ ResultStatus.failed) × (to_status s ≡ CopyOrderStatus.failed))
to_status_cases ResultStatus.executed = inl (refl, refl)
to_status_cases ResultStatus.failed = inr (refl, refl)

or_else-IsTaken {ℓ} : {A : Type ℓ} (new old : Option A) → IsTaken new old (or_else new old)
or_else-IsTaken none old = refl
or_else-IsTaken (some a) old = refl

with_result-IsReported :
    (r : ExecutionResult) (now : ℕ) (o : CopyOrder) → IsReported r now o (with_result r now o)
with_result-IsReported r now o = record {
  status = to_status_cases r.status;
  ticket = or_else-IsTaken r.slave_ticket o.slave_ticket;
  price = or_else-IsTaken r.execution_price o.execution_price;
  reason = or_else-IsTaken (option_map reported r.reason) o.error_reason;
  time = refl;
  others = refl;
}

-- A message of a Slave, at any id of the table of copy orders. If it is the copyId of the message and the
-- row there is the Slave's own, the row takes the reported status, the time, and the reported ticket,
-- price and reason where there are such, and nothing else changes in it. If it is another id, or there is
-- no row, or the row is of another Slave, then what is found at the id is what was there before.
pub handle_slave_message-rows :
    (slave_id : String) (r : ExecutionResult) (w : World) (id : String)
    → ((o : CopyOrder) × (id ≡ r.copy_id)
        × (find_order w.copy_orders id ≡ some o)
        × (o.slave_id ≡ slave_id)
        × (q : CopyOrder) × (find_order (handle_slave_message slave_id (some r) w).copy_orders id
            ≡ some q)
        × IsReported r w.now o q)
      ⊎ (IsNotOwn slave_id r.copy_id id (find_order w.copy_orders id)
          × (find_order (handle_slave_message slave_id (some r) w).copy_orders id
              ≡ find_order w.copy_orders id))
handle_slave_message-rows slave_id r w id = elim (handle_slave_message-copy_orders slave_id r w) [
  | inl (foreign, same) ↦ inr (
    foreign_elsewhere slave_id r.copy_id id w.copy_orders foreign,
    ap (λ os. find_order os id) same,
  )
  | inr (o, found, own, table) ↦
      let lookup =
        ap (λ os. find_order os id) table
        ∙ find_order-update r.copy_id id (with_result r w.now) w.copy_orders (λ q. refl) in
      elim (Bool-cases (id == r.copy_id)) [
        | inr other ↦ inr (inl (λ e. other_id id r.copy_id other e), rw other at lookup)
        | inl here ↦
            let e = beq→eq id r.copy_id here in
            let found_here : find_order w.copy_orders id ≡ some o = rw e found in
            inl (
              o,
              e,
              found_here,
              own,
              with_result r w.now o,
              lookup ∙ rw (here, found_here),
              with_result-IsReported r w.now o,
            )
      ]
]

-- A message of a Slave that is the owner of the row updates the table.
pub handle_slave_message_own :
    (slave_id : String) (r : ExecutionResult) (w : World) (o : CopyOrder)
    → find_order w.copy_orders r.copy_id ≡ some o
    → o.slave_id ≡ slave_id
    → (handle_slave_message slave_id (some r) w).copy_orders
      ≡ update_where (λ q. q.id == r.copy_id) (with_result r w.now) w.copy_orders
unfolding handle_slave_message
handle_slave_message_own slave_id r w o found own =
    rw (found, eq→beq o.slave_id slave_id own)
      (announce-copy_orders slave_id r o (trade_event_of w.trade_events o) _)
