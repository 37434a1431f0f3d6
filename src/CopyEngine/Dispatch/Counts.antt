-- ===== src/CopyEngine/Dispatch/Counts.antt =====
-- How many rows a Slave has for a trade event, before and after copyToSlave.
use forex_remote_copy_tradin.Prelude.{
  ℕ, ◌+◌, ◌≤◌, String, ◌≡◌, refl, ◌∙◌, inl, inr, Bool, true, false, ◌&&◌, Option, none, some, List,
  [], ◌∷◌, arith, any, update_where, count_where, Bool-cases, ◌==◌, option_bind-eq_some,
  if◌then◌else◌,
}
use forex_remote_copy_tradin.Number.{Number}
use forex_remote_copy_tradin.Types.{
  Slave, NormalizedTradeEvent, CopyOrder, ErrorReason, failed, slave_offline,
}
use forex_remote_copy_tradin.World.{World, update_order, create_order, is_copy_of}
use forex_remote_copy_tradin.Realtime.AdminWsGateway.{broadcast_to_admins}
use forex_remote_copy_tradin.Realtime.WsGateway.{send_to_slave, is_live, get}
use forex_remote_copy_tradin.CopyEngine.Plan.{MasterAccount, Plan, refuse, proceed, plan}
use forex_remote_copy_tradin.CopyEngine.Dispatch.{
  fail_copy_order, deliver, record_send, carry_out, copy_to_slave, instruction,
}

-- the rows of a trade event for a Slave
abbrev pub count_copies : String → String → List CopyOrder → ℕ
count_copies trade_event_id slave_id orders =
    count_where (is_copy_of trade_event_id slave_id) orders

pub count_where-update_where {ℓ} :
    {A : Type ℓ} (p q : A → Bool) (f : A → A) (xs : List A)
    → ((x : A) → p (f x) ≡ p x)
    → count_where p (update_where q f xs) ≡ count_where p xs
count_where-update_where p q f [] same = refl
count_where-update_where p q f (x ∷ xs) same =
    ground (arith, same x, count_where-update_where p q f xs same)

pub count_of_none {ℓ} :
    {A : Type ℓ} (p : A → Bool) (xs : List A) → any p xs ≡ false → count_where p xs ≡ 0
count_of_none p [] h = refl
count_of_none p (x ∷ xs) h = ground (arith, count_of_none p xs)

pub count_of_any {ℓ} :
    {A : Type ℓ} (p : A → Bool) (xs : List A) → any p xs ≡ true → 1 ≤ count_where p xs
count_of_any p [] h = absurd (cc)
count_of_any p (x ∷ xs) h = ground (arith, count_of_any p xs)

module _ (new_id : String) (s : Slave) (te : String) (e : NormalizedTradeEvent) (t x : String) where
  update_order-count :
      (change : CopyOrder → CopyOrder) (w : World)
      → ((o : CopyOrder) → is_copy_of t x (change o) ≡ is_copy_of t x o)
      → count_copies t x (update_order new_id change w).copy_orders ≡ count_copies t x w.copy_orders
  update_order-count change w same =
      count_where-update_where (is_copy_of t x) (λ o. o.id == new_id) change w.copy_orders same

  record_send-count :
      (ticket : Option String) (v : Option Number) (w : World) (b : Bool)
      → count_copies t x (record_send new_id s te e ticket v (w, b)).copy_orders
        ≡ count_copies t x w.copy_orders
  unfolding record_send broadcast_to_admins
  record_send-count ticket v w true = update_order-count _ w (λ o. refl)
  record_send-count ticket v w false = update_order-count _ w (λ o. refl)

  sent-count :
      (ticket : Option String) (v : Option Number) (w : World)
      → count_copies t x
          (record_send new_id s te e ticket v
            (send_to_slave s.id (instruction new_id s te e w ticket v) w)).copy_orders
        ≡ count_copies t x w.copy_orders
  unfolding send_to_slave
  sent-count ticket v w = elim (Bool-cases (is_live (get s.id w.connections))) [
    | inl e ↦ rw e (record_send-count ticket v _ true)
    | inr e ↦ rw e (record_send-count ticket v w false)
  ]

  deliver-count :
      (ticket : Option String) (v : Option Number) (w : World)
      → count_copies t x (deliver new_id s te e ticket v w).copy_orders
        ≡ count_copies t x w.copy_orders
  unfolding deliver broadcast_to_admins
  deliver-count ticket v w = ground (
    arith,
    sent-count ticket v w,
    update_order-count (λ o. record o { status = failed; error_reason = some slave_offline }) w
        (λ o. refl),
  )

  create_order-count :
      (o : CopyOrder) (w : World) {w' : World}
      → create_order o w ≡ some w'
      → count_copies t x w'.copy_orders
        ≡ (if is_copy_of t x o then 1 else 0) + count_copies t x w.copy_orders
  unfolding create_order
  create_order-count o w {w'} h = ground arith

  fail_copy_order-count :
      (reason : ErrorReason) (requested : Option Number) (w : World) {w' : World}
      → fail_copy_order new_id s te e reason requested w ≡ some w'
      → count_copies t x w'.copy_orders
        ≡ (if te == t && s.id == x then 1 else 0) + count_copies t x w.copy_orders
  unfolding fail_copy_order broadcast_to_admins
  fail_copy_order-count reason requested w {w'} h =
      let (w1, made, announced) = option_bind-eq_some (create_order _ w) _ h in
      let count = create_order-count _ w made in ground arith

  carry_out-count :
      (p : Plan) (w : World) {w' : World}
      → carry_out new_id s te e p w ≡ some w'
      → count_copies t x w'.copy_orders
        ≡ (if te == t && s.id == x then 1 else 0) + count_copies t x w.copy_orders
  unfolding carry_out
  carry_out-count (refuse reason requested) w h = fail_copy_order-count reason requested w h
  carry_out-count (proceed ticket v) w {w'} h =
      let (w1, made, delivered) = option_bind-eq_some (create_order _ w) _ h in
      let count = create_order-count _ w made in
      let same : w' ≡ deliver new_id s te e ticket v w1 = cc in
      rw same (deliver-count ticket v w1 ∙ count)

  -- A copy that does not throw adds one row, of this Slave and event.
  pub copy_to_slave-count :
      (account : MasterAccount) (w : World) {w' : World}
      → copy_to_slave new_id s te e account w ≡ some w'
      → count_copies t x w'.copy_orders
        ≡ (if te == t && s.id == x then 1 else 0) + count_copies t x w.copy_orders
  unfolding copy_to_slave
  copy_to_slave-count account w h = carry_out-count (plan w.copy_orders s e account) w h

  carry_out-none :
      (p : Plan) (w : World)
      → carry_out new_id s te e p w ≡ none
      → any (is_copy_of te s.id) w.copy_orders ≡ true
  unfolding carry_out fail_copy_order create_order
  carry_out-none (refuse reason requested) w h =
      elim (Bool-cases (any (is_copy_of te s.id) w.copy_orders)) [
        | inl e ↦ e
        | inr e ↦ absurd (ground arith)
      ]
  carry_out-none (proceed ticket v) w h =
      elim (Bool-cases (any (is_copy_of te s.id) w.copy_orders)) [
        | inl e ↦ e
        | inr e ↦ absurd (ground arith)
      ]

  -- It throws only where the Slave has a row for the event.
  pub copy_to_slave-none :
      (account : MasterAccount) (w : World)
      → copy_to_slave new_id s te e account w ≡ none
      → any (is_copy_of te s.id) w.copy_orders ≡ true
  unfolding copy_to_slave
  copy_to_slave-none account w h = carry_out-none (plan w.copy_orders s e account) w h
