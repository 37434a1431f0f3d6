-- ===== src/Audit.antt =====
-- backend/src/modules/audit/audit.service.ts
use forex_remote_copy_tradin.Prelude.{String, Option, ◌∷◌}
use forex_remote_copy_tradin.Types.{AuditValue, AuditLog}
use forex_remote_copy_tradin.World.{World}

-- what the routes of the admin API write: their actor is "admin"
abbrev pub admin_entry :
    String → String → Option AuditValue → Option AuditValue → Option String → AuditLog
admin_entry action entity old_value new_value ip = record {
  actor = "admin";
  action = action;
  entity = entity;
  old_value = old_value;
  new_value = new_value;
  ip = ip;
}

abbrev pub write_audit : AuditLog → World → World
write_audit entry w = record w { audit_logs = entry ∷ w.audit_logs }
