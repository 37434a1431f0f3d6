-- ===== src/Reconciliation/Engine/Agreement.antt =====
-- What it means that compareState has nothing to report.
use forex_remote_copy_tradin.Prelude.{◌≤◌, ◌↔◌, String, ◌≡◌, [], All, count_where}
use forex_remote_copy_tradin.Reconciliation.Engine.{
  CompareStateInput, missing_copies, open_findings, closed_findings, unexpected_findings,
  compare_state,
}
use forex_remote_copy_tradin.Reconciliation.Engine.Silence.{
  append-eq_nil, IsKnown, IsReflected, IsGone, IsTraced, missing_copies-nil, open_findings-nil,
  closed_findings-nil, unexpected_findings-nil,
}
use forex_remote_copy_tradin.Reconciliation.Engine.Accord.{
  missing_copies_of_IsKnown, open_findings_of_IsReflected, closed_findings_of_IsGone,
  unexpected_findings_of_IsTraced,
}
use forex_remote_copy_tradin.Reconciliation.Engine.Groups.{duplicate_findings_of_single}
use forex_remote_copy_tradin.Reconciliation.Engine.Duplicates.{is_traced_to, traced_once}

-- Master, system and Slave agree.
pub record Agrees (i : CompareStateInput) : Type 0 where
  pub copied : All (IsKnown i) i.master_positions
  pub reflected : All (IsReflected i) i.open_copies
  pub gone : All (IsGone i) i.closed_copies
  pub known : All (IsTraced i) i.slave_positions
  pub single : (copy_id : String) → count_where (is_traced_to i copy_id) i.slave_positions ≤ 1

compare_state-Agrees : (i : CompareStateInput) → compare_state i ≡ [] → Agrees i
unfolding compare_state
compare_state-Agrees i h =
    let (missing, h1) = append-eq_nil (missing_copies i i.master_positions) _ h in
    let (opened, h2) = append-eq_nil (open_findings i i.open_copies) _ h1 in
    let (closed, h3) = append-eq_nil (closed_findings i i.closed_copies) _ h2 in
    let (unexpected, doubled) = append-eq_nil (unexpected_findings i i.slave_positions) _ h3 in
    record {
      copied = missing_copies-nil i i.master_positions missing;
      reflected = open_findings-nil i i.open_copies opened;
      gone = closed_findings-nil i i.closed_copies closed;
      known = unexpected_findings-nil i i.slave_positions unexpected;
      single = λ copy_id. traced_once i copy_id doubled;
    }

compare_state_of_Agrees : (i : CompareStateInput) → Agrees i → compare_state i ≡ []
unfolding compare_state
compare_state_of_Agrees i a =
    rw
      (
        missing_copies_of_IsKnown i i.master_positions a.copied,
        open_findings_of_IsReflected i i.open_copies a.reflected,
        closed_findings_of_IsGone i i.closed_copies a.gone,
        unexpected_findings_of_IsTraced i i.slave_positions a.known,
      )
      (duplicate_findings_of_single i a.single)

-- The comparison reports nothing exactly when Master, system and Slave agree: every position of the
-- Master has an executed copy, open or closed; the Slave has the position of every open copy with a
-- ticket, with the requested volume and the expected stop loss and take profit, where the differences, as
-- doubles, are not above the tolerances; it has no position of a closed copy; each of its positions names
-- an open copy; and no two name the same.
pub compare_state-Agrees_iff : (i : CompareStateInput) → (compare_state i ≡ []) ↔ Agrees i
compare_state-Agrees_iff i = (compare_state-Agrees i, compare_state_of_Agrees i)
