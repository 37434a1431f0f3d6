-- ===== src/CopyEngine/Queries/Laws.antt =====
-- Which of the Master's tickets count as open at a Slave.
use forex_remote_copy_tradin.Prelude.{
  String, ◌≡◌, refl, ◌∙◌, ap, inl, inr, Bool, not, ◌&&◌, List, [], ◌∷◌, arith, any, map, filter_by,
  ◌==◌, Bool-cases, beq→eq,
}
use forex_remote_copy_tradin.Types.{CopyOrder}
use forex_remote_copy_tradin.CopyEngine.Queries.{
  get_copy_order_positions, is_executed_open, is_executed_close, is_closed_ticket, to_open,
  to_closed, OpenCopyOrderInfo, is_open_copy_of,
}

abbrev pub is_close_copy_of : String → String → CopyOrder → Bool
is_close_copy_of slave_id master_ticket o =
    o.master_ticket == master_ticket && is_executed_close slave_id o

any-map-filter {ℓ κ} :
    {A : Type ℓ} {B : Type κ} (p q : A → Bool) (r : B → Bool) (f : A → B) (xs : List A)
    → ((x : A) → r (f x) ≡ q x)
    → any r (map f (filter_by p xs)) ≡ any (λ x. q x && p x) xs
any-map-filter p q r f [] same = refl
any-map-filter p q r f (x ∷ xs) same = ground (arith, same x, any-map-filter p q r f xs same)

is_closed_ticket-any :
    (slave_id ticket : String) (orders : List CopyOrder)
    → is_closed_ticket (map to_closed (filter_by (is_executed_close slave_id) orders)) ticket
      ≡ any (is_close_copy_of slave_id ticket) orders
is_closed_ticket-any slave_id ticket orders =
    any-map-filter (is_executed_close slave_id) (λ o. o.master_ticket == ticket) _ to_closed orders
      (λ o. refl)

abbrev pub is_opened : String → OpenCopyOrderInfo → Bool
is_opened ticket i = i.master_ticket == ticket

-- The rows that stay are those whose ticket has not been closed.
kept-any :
    (closed : String → Bool) (slave_id ticket : String) (orders : List CopyOrder)
    → any (is_opened ticket) (
        map to_open (
          filter_by
            (λ o. not (closed o.master_ticket))
            (filter_by (is_executed_open slave_id) orders)))
      ≡ (any (is_open_copy_of slave_id ticket) orders && not (closed ticket))
kept-any closed slave_id ticket [] = refl
kept-any closed slave_id ticket (o ∷ orders) = elim (Bool-cases (o.master_ticket == ticket)) [
  | inl same ↦
      let e : closed o.master_ticket ≡ closed ticket =
        ap closed (beq→eq o.master_ticket ticket same) in
      ground (arith, kept-any closed slave_id ticket orders)
  | inr other ↦ ground (arith, kept-any closed slave_id ticket orders)
]

-- A ticket of the Master counts as open at a Slave exactly when an OPEN of it was EXECUTED there and no
-- CLOSE of it was, in whichever order the two stand in the table.
pub get_copy_order_positions_iff :
    (orders : List CopyOrder) (slave_id ticket : String)
    → any (is_opened ticket) (get_copy_order_positions orders slave_id).opened ≡ (
        any (is_open_copy_of slave_id ticket) orders
        && not (any (is_close_copy_of slave_id ticket) orders))
unfolding get_copy_order_positions
get_copy_order_positions_iff orders slave_id ticket =
    kept-any (is_closed_ticket (map to_closed (filter_by (is_executed_close slave_id) orders)))
      slave_id ticket orders
    ∙ ap (λ b. any (is_open_copy_of slave_id ticket) orders && not b)
        (is_closed_ticket-any slave_id ticket orders)
