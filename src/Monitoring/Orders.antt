-- ===== src/Monitoring/Orders.antt =====
-- backend/src/modules/dashboard/copyOrder.routes.ts. `number_of` is what Number makes of a text, where
-- that is a whole number; a negative or fractional limit is left out.
use forex_remote_copy_tradin.Prelude.{
  ℕ, zero, suc, String, Bool, true, Option, none, some, List, ◌&&◌, if◌then◌else◌, filter_by,
  find_first, option_map, map, take, truthy, ◌==◌, leb, option_bind,
}
use forex_remote_copy_tradin.Http.{Reply, sent}
use forex_remote_copy_tradin.Types.{CopyOrder, TradeSide}
use forex_remote_copy_tradin.World.{World}
use forex_remote_copy_tradin.Slaves.Routes.{find_slave}
use forex_remote_copy_tradin.CopyEngine.Fanout.{find_master}

abbrev default_limit : ℕ
default_limit = 100

abbrev max_limit : ℕ
max_limit = 500

-- A row with the parts of the rows that it refers to: symbol and side, and name and account number.
pub record OrderView : Type 0 where
  pub order : CopyOrder
  pub trade_event : Option (String × Option TradeSide)
  pub master : Option (String × String)
  pub slave : Option (String × String)

abbrev pub view : World → CopyOrder → OrderView
view w o = record {
  order = o;
  trade_event =
      option_map (λ t. (t.event.symbol, t.event.side))
        (find_first (λ t. t.id == o.trade_event_id) w.trade_events);
  master = option_map (λ m. (m.name, m.account_number)) (find_master w o.master_id);
  slave = option_map (λ s. (s.name, s.account_number)) (find_slave w.slaves o.slave_id);
}

-- `...(x ? { x } : {})`
abbrev pub is_asked : Option String → String → Bool
is_asked none column = true
is_asked (some value) column = column == value

-- `Number(limit) || DEFAULT_LIMIT`: zero and NaN are read as false
abbrev or_default : Option ℕ → ℕ
or_default none = default_limit
or_default (some zero) = default_limit
or_default (some (suc n)) = suc n

module _ (number_of : String → Option ℕ) where
  abbrev taken : Option String → ℕ
  unfolding truthy
  taken limit =
      let n = or_default (option_bind (truthy limit) number_of) in
      if leb n max_limit then n else max_limit

  abbrev pub selected : Option String → Option String → Option String → World → List CopyOrder
  unfolding truthy
  selected master_id slave_id limit w = take (taken limit) (
      filter_by
        (λ o. is_asked (truthy master_id) o.master_id && is_asked (truthy slave_id) o.slave_id)
        w.copy_orders)

  -- GET /api/copy-orders
  unfoldable pub get_copy_orders :
      Option String → Option String → Option String → World → Reply (List OrderView)
  unfolding truthy
  get_copy_orders master_id slave_id limit w =
      sent (map (view w) (selected master_id slave_id limit w))
