-- ===== src/Monitoring/Health.antt =====
-- backend/src/modules/monitoring/health.routes.ts, on what the two checks found.
use forex_remote_copy_tradin.Prelude.{ℕ, String, Bool, ◌&&◌, if◌then◌else◌}

pub record SystemHealth : Type 0 where
  pub code : ℕ
  pub status : String
  pub api : String
  pub database : String
  pub redis : String
  pub timestamp : ℕ

abbrev online_if : Bool → String
online_if ok = if ok then "ONLINE" else "OFFLINE"

-- GET /api/system/health
unfoldable pub get_health : Bool → Bool → ℕ → SystemHealth
get_health database_ok redis_ok now = record {
  code = if database_ok && redis_ok then 200 else 503;
  status = if database_ok && redis_ok then "ONLINE" else "DEGRADED";
  api = "ONLINE";
  database = online_if database_ok;
  redis = online_if redis_ok;
  timestamp = now;
}
