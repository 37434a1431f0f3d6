-- ===== src/System/Writes/Kept.antt =====
-- The rows of the copy orders through the writes.
use forex_remote_copy_tradin.Prelude.{
  Bool, refl, ◌∙◌, inl, inr, List, [], ◌∷◌, update_where, Bool-cases, ◌==◌,
}
use forex_remote_copy_tradin.Types.{CopyOrder}
use forex_remote_copy_tradin.World.{World}
use forex_remote_copy_tradin.System.Writes.{
  IsSameOrder, Write, outside, token_cached, connectors_updated, connector_added, order_created,
  order_updated, Writes, done, next,
}

-- Every row of the first table is in the second, in the same order and with the same identity; the second
-- may have rows besides.
pub data Kept : List CopyOrder → List CopyOrder → Type 0 where
  nothing : Kept [] []
  row :
      {o q : CopyOrder} {os qs : List CopyOrder}
      → IsSameOrder o q
      → Kept os qs
      → Kept (o ∷ os) (q ∷ qs)
  added : {q : CopyOrder} {os qs : List CopyOrder} → Kept os qs → Kept os (q ∷ qs)

IsSameOrder-refl : (o : CopyOrder) → IsSameOrder o o
IsSameOrder-refl o = record {
  id = refl;
  trade_event_id = refl;
  master_id = refl;
  slave_id = refl;
  master_ticket = refl;
  type = refl;
}

IsSameOrder-trans : (o q r : CopyOrder) → IsSameOrder o q → IsSameOrder q r → IsSameOrder o r
IsSameOrder-trans o q r a b = record {
  id = b.id ∙ a.id;
  trade_event_id = b.trade_event_id ∙ a.trade_event_id;
  master_id = b.master_id ∙ a.master_id;
  slave_id = b.slave_id ∙ a.slave_id;
  master_ticket = b.master_ticket ∙ a.master_ticket;
  type = b.type ∙ a.type;
}

Kept-refl : (os : List CopyOrder) → Kept os os
Kept-refl [] = nothing
Kept-refl (o ∷ os) = row (IsSameOrder-refl o) (Kept-refl os)

Kept-trans : {os qs rs : List CopyOrder} → Kept os qs → Kept qs rs → Kept os rs
Kept-trans a nothing = a
Kept-trans (row {o} {q} x a) (row {q = r} y b) = row (IsSameOrder-trans o q r x y) (Kept-trans a b)
Kept-trans (added a) (row y b) = added (Kept-trans a b)
Kept-trans a (added b) = added (Kept-trans a b)

Kept-updated :
    (p : CopyOrder → Bool) (f : CopyOrder → CopyOrder) (os : List CopyOrder)
    → ((o : CopyOrder) → IsSameOrder o (f o))
    → Kept os (update_where p f os)
Kept-updated p f [] same = nothing
Kept-updated p f (o ∷ os) same = elim (Bool-cases (p o)) [
  | inl hit ↦ rw hit (row (same o) (Kept-updated p f os same))
  | inr miss ↦ rw miss (row (IsSameOrder-refl o) (Kept-updated p f os same))
]

Write-Kept : {w v : World} → Write w v → Kept w.copy_orders v.copy_orders
Write-Kept {w} (outside u) = Kept-refl w.copy_orders
Write-Kept {w} (token_cached hash c e) = Kept-refl w.copy_orders
Write-Kept {w} (connectors_updated p f same) = Kept-refl w.copy_orders
Write-Kept {w} (connector_added c e) = Kept-refl w.copy_orders
Write-Kept {w} (order_created o free) = added (Kept-refl w.copy_orders)
Write-Kept {w} (order_updated id f same) = Kept-updated (λ o. o.id == id) f w.copy_orders same

pub Writes-Kept : {w v : World} → Writes w v → Kept w.copy_orders v.copy_orders
Writes-Kept {w} done = Kept-refl w.copy_orders
Writes-Kept (next xs x) = Kept-trans (Writes-Kept xs) (Write-Kept x)
