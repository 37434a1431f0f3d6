-- ===== src/Monitoring/Findings.antt =====
-- backend/src/modules/reconciliation/reconciliation.routes.ts
use forex_remote_copy_tradin.Prelude.{String, Option, List, ◌&&◌, filter_by, truthy}
use forex_remote_copy_tradin.Http.{Reply, sent}
use forex_remote_copy_tradin.World.{World}
use forex_remote_copy_tradin.Monitoring.Orders.{is_asked}
use forex_remote_copy_tradin.Reconciliation.Service.{
  FindingRow, RunSummary, Limits, run_reconciliation,
}

-- GET /api/reconciliation/findings, the newest first
unfoldable pub get_findings :
    Option String → Option String → List FindingRow → Reply (List FindingRow)
unfolding truthy
get_findings master_id slave_id rows = sent (
    filter_by
      (λ r. is_asked (truthy master_id) r.master_id && is_asked (truthy slave_id) r.slave_id) rows)

-- POST /api/reconciliation/run, with the findings that it leaves
unfoldable pub post_run :
    Limits
    → Option String
    → Option String
    → World
    → List FindingRow
    → List FindingRow × Reply RunSummary
unfolding run_reconciliation
post_run limits master_id slave_id w rows =
    let done =
      run_reconciliation limits (record { master_id = master_id; slave_id = slave_id }) w rows in
    (done.0, sent done.1)
