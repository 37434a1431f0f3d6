-- ===== src/System/Writes.antt =====
-- A relation for the proofs about the steps of the system, which translates no code: what one write of a
-- handler may do to the copy orders, the connectors and the token cache, where it keeps what is proved.
pub mod Services
pub mod Copies
pub mod Handlers
pub mod Requests
pub mod Steps
pub mod Kept
pub mod Safety
use forex_remote_copy_tradin.Prelude.{
  String, Bool, false, ◌≡◌, refl, sym, subst, Option, none, some, List, ◌∷◌, any, update_where,
}
use forex_remote_copy_tradin.Types.{Connector, CopyOrder, TradeEvent}
use forex_remote_copy_tradin.World.{World, update_order, is_copy_of, redis_set}
use forex_remote_copy_tradin.Ingest.{is_event}
use forex_remote_copy_tradin.Connectors.Service.{find_by_hash, identity, token_cache_ttl_seconds}

-- The columns of a copy order that no update writes.
pub record IsSameOrder (o q : CopyOrder) : Type 0 where
  pub id : q.id ≡ o.id
  pub trade_event_id : q.trade_event_id ≡ o.trade_event_id
  pub master_id : q.master_id ≡ o.master_id
  pub slave_id : q.slave_id ≡ o.slave_id
  pub master_ticket : q.master_ticket ≡ o.master_ticket
  pub type : q.type ≡ o.type

-- The columns of a connector that no update writes.
pub record IsSameConnector (c d : Connector) : Type 0 where
  pub token_hash : d.token_hash ≡ c.token_hash
  pub identity : identity d ≡ identity c

-- A change of one of the three, under which the invariants are kept.
pub data Write (w : World) : World → Type 0 where
  -- any change of the other tables, the sockets, the other keys of Redis and the clock
  outside :
      (v : World)
      → Write w (record v {
        copy_orders = w.copy_orders;
        connectors = w.connectors;
        token_cache = w.token_cache;
      })
  token_cached :
      (hash : String) (c : Connector)
      → find_by_hash w.connectors hash ≡ some c
      → Write w (record w {
        token_cache = redis_set w.now hash (identity c) token_cache_ttl_seconds w.token_cache;
      })
  connectors_updated :
      (p : Connector → Bool) (f : Connector → Connector)
      → ((c : Connector) → IsSameConnector c (f c))
      → Write w (record w { connectors = update_where p f w.connectors })
  connector_added :
      (c : Connector)
      → find_by_hash w.connectors c.token_hash ≡ none
      → Write w (record w { connectors = c ∷ w.connectors })
  order_created :
      (o : CopyOrder)
      → any (is_copy_of o.trade_event_id o.slave_id) w.copy_orders ≡ false
      → Write w (record w { copy_orders = o ∷ w.copy_orders })
  order_updated :
      (id : String) (f : CopyOrder → CopyOrder)
      → ((o : CopyOrder) → IsSameOrder o (f o))
      → Write w (update_order id f w)

-- Some writes, one after another.
pub data Writes (w : World) : World → Type 0 where
  done : Writes w w
  next : {v u : World} → Writes w v → Write v u → Writes w u

pub one : {w v : World} → Write w v → Writes w v
one x = next done x

pub both : {w v u : World} → Writes w v → Writes v u → Writes w u
both xs done = xs
both xs (next ys y) = next (both xs ys) y
