-- ===== src/Reconciliation/Service.antt =====
-- backend/src/modules/reconciliation/reconciliation.service.ts: a run over the pairs of Master and
-- Slave. It reads the World, and writes the table of findings, which nothing else reads or writes: the
-- table is passed along. The staleness and the two tolerances are parameters (config/env.ts).
-- A stored snapshot is as the heartbeat's schema accepted it, so a stored one parses again.
pub mod Rows
pub mod Replacement
use forex_remote_copy_tradin.Prelude.{
  ℕ, ◌+◌, ◌*◌, String, Bool, true, false, not, ◌&&◌, ◌||◌, Option, none, some, List, [], ◌∷◌, ◌++◌,
  map, if◌then◌else◌, find_first, filter_by, length, get_or, leb, truthy, ◌==◌,
}
use forex_remote_copy_tradin.Number.{Number}
use forex_remote_copy_tradin.Types.{Master, Slave, PositionSnapshotItem}
use forex_remote_copy_tradin.World.{World}
use forex_remote_copy_tradin.CopyEngine.Queries.{
  OpenCopyOrderInfo, ClosedCopyOrderInfo, get_copy_order_positions, get_expected_sl_tp,
}
use forex_remote_copy_tradin.Reconciliation.Engine.{
  MasterPositionInfo, SlavePositionInfo, OpenCopyInfo, ClosedCopyInfo, CompareStateInput, Finding,
  compare_state,
}

-- A row of reconciliation_findings, without the time of its detection.
pub record FindingRow : Type 0 where
  pub master_id : String
  pub slave_id : String
  pub finding : Finding

pub record RunOptions : Type 0 where
  pub master_id : Option String
  pub slave_id : Option String

pub record RunSummary : Type 0 where
  pub pairs_scanned : ℕ
  pub pairs_skipped_stale : ℕ
  pub findings_created : ℕ

pub record Limits : Type 0 where
  pub staleness_seconds : ℕ
  pub volume_tolerance : Number
  pub price_tolerance : Number

-- isFresh: `now - snapshotAt <= staleness`, with the subtraction on the other side
abbrev pub is_fresh : ℕ → ℕ → Option ℕ → Bool
is_fresh staleness_seconds now none = false
is_fresh staleness_seconds now (some at) = leb now (at + staleness_seconds * 1000)

abbrev pub matches : Option String → String → Bool
matches none id = true
matches (some wanted) id = id == wanted

-- `where` of the Slaves; an empty id in the options is no filter
abbrev pub is_selected : RunOptions → Slave → Bool
is_selected o s = matches (truthy o.slave_id) s.id && matches (truthy o.master_id) s.master_id

abbrev pub master_position : PositionSnapshotItem → MasterPositionInfo
master_position p = record { ticket = p.ticket; symbol = p.symbol; volume = p.volume }

abbrev pub slave_position : PositionSnapshotItem → SlavePositionInfo
slave_position p = record {
  ticket = p.ticket;
  symbol = p.symbol;
  volume = p.volume;
  sl = p.sl;
  tp = p.tp;
  comment = p.comment;
}

abbrev pub open_copy : OpenCopyOrderInfo → OpenCopyInfo
open_copy o = record {
  copy_id = o.id;
  master_ticket = o.master_ticket;
  slave_ticket = o.slave_ticket;
  requested_volume = o.requested_volume;
}

abbrev pub closed_copy : ClosedCopyOrderInfo → ClosedCopyInfo
closed_copy c = record { master_ticket = c.master_ticket; slave_ticket = c.slave_ticket }

-- the argument of compareState
pub pair_input : Limits → World → Master → Slave → CompareStateInput
pair_input limits w master s =
    let positions = get_copy_order_positions w.copy_orders s.id in
    record {
      master_positions = map master_position (get_or master.position_snapshot []);
      open_copies = map open_copy positions.opened;
      closed_copies = map closed_copy positions.closed;
      slave_positions = map slave_position (get_or s.position_snapshot []);
      expected_sl_tp = get_expected_sl_tp w s.id;
      volume_tolerance = limits.volume_tolerance;
      price_tolerance = limits.price_tolerance;
    }

abbrev pub is_of_pair : String → String → FindingRow → Bool
is_of_pair master_id slave_id r = r.master_id == master_id && r.slave_id == slave_id

abbrev pub finding_row : String → String → Finding → FindingRow
finding_row master_id slave_id f = record {
  master_id = master_id;
  slave_id = slave_id;
  finding = f;
}

-- deleteMany of the pair's rows, and createMany of the new ones
pub replace_findings : String → String → List Finding → List FindingRow → List FindingRow
replace_findings master_id slave_id findings rows =
    map (finding_row master_id slave_id) findings
    ++ filter_by (λ r. not (is_of_pair master_id slave_id r)) rows

abbrev pub is_pair_fresh : Limits → ℕ → Master → Slave → Bool
is_pair_fresh limits now master s =
    is_fresh limits.staleness_seconds now master.position_snapshot_at
    && is_fresh limits.staleness_seconds now s.position_snapshot_at

-- one round of the loop; the Slave's Master is there by its foreign key
abbrev pub master_of : World → Slave → Option Master
master_of w s = find_first (λ m. m.id == s.master_id) w.masters

pub scan_pair :
    Limits
    → World
    → Option Master
    → Slave
    → List FindingRow × RunSummary
    → List FindingRow × RunSummary
scan_pair limits w none s (rows, summary) = (rows, summary)
scan_pair limits w (some master) s (rows, summary) =
    let findings = compare_state (pair_input limits w master s) in
    if is_pair_fresh limits w.now master s
    then (
      replace_findings master.id s.id findings rows,
      record summary {
        pairs_scanned = summary.pairs_scanned + 1;
        findings_created = summary.findings_created + length findings;
      },
    )
    else (rows, record summary { pairs_skipped_stale = summary.pairs_skipped_stale + 1 })

pub scan_pairs :
    Limits → World → List Slave → List FindingRow × RunSummary → List FindingRow × RunSummary
scan_pairs limits w [] state = state
scan_pairs limits w (s ∷ slaves) state =
    scan_pairs limits w slaves (scan_pair limits w (master_of w s) s state)

unfoldable pub run_reconciliation :
    Limits → RunOptions → World → List FindingRow → List FindingRow × RunSummary
unfolding scan_pairs
run_reconciliation limits options w rows =
    scan_pairs limits w (filter_by (is_selected options) w.slaves)
      (rows, record { pairs_scanned = 0; pairs_skipped_stale = 0; findings_created = 0 })
