-- ===== src/Monitoring/Summary.antt =====
-- backend/src/modules/dashboard/dashboard.routes.ts. `created_at` is the column createdAt of a trade event
-- or copy order, by its id.
use forex_remote_copy_tradin.Prelude.{
  ℕ, suc, zero, ◌+◌, ◌-◌, ◌*◌, ◌%◌, String, Bool, true, false, not, Option, none, some, List, [],
  ◌∷◌, ◌&&◌, length, count_where, filter_by, leb,
}
use forex_remote_copy_tradin.Prelude.Int.{pos}
use forex_remote_copy_tradin.Number.{Number}
use forex_remote_copy_tradin.Types.{SlaveStatus, CopyOrderStatus, TradeEvent, is_executed}
use forex_remote_copy_tradin.World.{World}

pub record DashboardSummary : Type 0 where
  pub total_masters : ℕ
  pub total_slaves : ℕ
  pub online_slaves : ℕ
  pub offline_slaves : ℕ
  pub copying_slaves : ℕ
  pub paused_slaves : ℕ
  pub failed_slaves : ℕ
  pub trades_today : ℕ
  pub successful_copies_today : ℕ
  pub failed_copies_today : ℕ
  pub success_rate : Option Number
  pub avg_latency_ms : Option Number

abbrev is_online : SlaveStatus → Bool
is_online SlaveStatus.online = true
is_online _ = false

abbrev is_offline : SlaveStatus → Bool
is_offline SlaveStatus.offline = true
is_offline _ = false

abbrev is_error : SlaveStatus → Bool
is_error SlaveStatus.error = true
is_error _ = false

abbrev is_failed : CopyOrderStatus → Bool
is_failed CopyOrderStatus.failed = true
is_failed _ = false

-- n / d, where d is not 0
abbrev ratio : ℕ → ℕ → Option Number
ratio n zero = none
ratio n (suc d) = some (record { num = pos n; den_pred = d })

abbrev sum_latency : List TradeEvent → ℕ
sum_latency [] = 0
sum_latency (t ∷ ts) = t.latency.total_latency_ms + sum_latency ts

-- startOfTodayUtc
abbrev start_of_today_utc : ℕ → ℕ
start_of_today_utc now = now - now % 86_400_000

module _ (created_at : String → ℕ) where
  abbrev is_today : World → String → Bool
  is_today w id = leb (start_of_today_utc w.now) (created_at id)

  abbrev executed_today : World → ℕ
  executed_today w = count_where (λ o. is_executed o.status && is_today w o.id) w.copy_orders

  abbrev failed_today : World → ℕ
  failed_today w = count_where (λ o. is_failed o.status && is_today w o.id) w.copy_orders

  abbrev events_today : World → List TradeEvent
  events_today w = filter_by (λ t. is_today w t.id) w.trade_events

  -- GET /api/dashboard/summary
  unfoldable pub get_summary : World → DashboardSummary
  get_summary w = record {
    total_masters = length w.masters;
    total_slaves = length w.slaves;
    online_slaves = count_where (λ s. is_online s.status) w.slaves;
    offline_slaves = count_where (λ s. is_offline s.status) w.slaves;
    copying_slaves = count_where (λ s. s.copy_enabled) w.slaves;
    paused_slaves = count_where (λ s. not s.copy_enabled) w.slaves;
    failed_slaves = count_where (λ s. is_error s.status) w.slaves;
    trades_today = length (events_today w);
    successful_copies_today = executed_today w;
    failed_copies_today = failed_today w;
    success_rate = ratio (executed_today w * 100) (executed_today w + failed_today w);
    avg_latency_ms = ratio (sum_latency (events_today w)) (length (events_today w));
  }
