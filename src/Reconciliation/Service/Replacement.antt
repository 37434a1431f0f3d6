-- ===== src/Reconciliation/Service/Replacement.antt =====
-- Which findings the table holds after a run.
use forex_remote_copy_tradin.Prelude.{
  String, ◌≡◌, refl, ap, ◌∙◌, inl, inr, Bool, true, false, Option, none, some, List, [], ◌∷◌, map,
  arith, any, filter_by, All, Bool-cases, if◌then◌else◌, ◌==◌, eq→beq, beq→eq,
}
use forex_remote_copy_tradin.Types.{Master, Slave}
use forex_remote_copy_tradin.World.{World}
use forex_remote_copy_tradin.Reconciliation.Engine.{compare_state}
use forex_remote_copy_tradin.Reconciliation.Service.Rows.{rows_of, rows_of-replaced, rows_of-others}
use forex_remote_copy_tradin.Reconciliation.Service.{
  FindingRow, RunOptions, RunSummary, Limits, is_selected, finding_row, is_pair_fresh, master_of,
  pair_input, scan_pair, scan_pairs, run_reconciliation,
}

abbrev pub has_slave : String → List Slave → Bool
has_slave x slaves = any (λ s. s.id == x) slaves

-- No two Slaves of the list have the same id.
abbrev pub HasDistinctSlaves : List Slave → Type 0
HasDistinctSlaves [] = Unit {0}
HasDistinctSlaves (s ∷ slaves) = (has_slave s.id slaves ≡ false) × HasDistinctSlaves slaves

has_slave-filter_by :
    (p : Slave → Bool) (x : String) (slaves : List Slave)
    → has_slave x slaves ≡ false
    → has_slave x (filter_by p slaves) ≡ false
has_slave-filter_by p x [] h = refl
has_slave-filter_by p x (s ∷ slaves) h = ground (arith, has_slave-filter_by p x slaves)

HasDistinctSlaves-filter_by :
    (p : Slave → Bool) (slaves : List Slave)
    → HasDistinctSlaves slaves
    → HasDistinctSlaves (filter_by p slaves)
HasDistinctSlaves-filter_by p [] d = tt
HasDistinctSlaves-filter_by p (s ∷ slaves) (new, rest) = elim (Bool-cases (p s)) [
  | inl e ↦ rw e (has_slave-filter_by p s.id slaves new, HasDistinctSlaves-filter_by p slaves rest)
  | inr e ↦ rw e (HasDistinctSlaves-filter_by p slaves rest)
]

module _ (limits : Limits) (w : World) where
  -- what the table holds of a pair, after a run that started with `rows`
  abbrev pub rows_after : Master → Slave → List FindingRow → List FindingRow
  rows_after master s rows =
      if is_pair_fresh limits w.now master s
      then map (finding_row master.id s.id) (compare_state (pair_input limits w master s))
      else rows_of master.id s.id rows

  -- The run leaves the pair of the Slave and its Master as it should be.
  abbrev pub IsReplacedFor : List FindingRow → List FindingRow → Slave → Option Master → Type 0
  IsReplacedFor before after s none = Unit {0}
  IsReplacedFor before after s (some master) =
      rows_of master.id s.id after ≡ rows_after master s before

  abbrev pub IsReplaced : List FindingRow → List FindingRow → Slave → Type 0
  IsReplaced before after s = IsReplacedFor before after s (master_of w s)

  replaced_for :
      (before after : List FindingRow) (s : Slave) (o : Option Master)
      → ((master : Master)
          → o ≡ some master
          → rows_of master.id s.id after ≡ rows_after master s before)
      → IsReplacedFor before after s o
  replaced_for before after s none h = tt
  replaced_for before after s (some master) h = h master refl

  scan_pair-own :
      (s : Slave) (master : Master) (rows : List FindingRow) (summary : RunSummary)
      → rows_of master.id s.id (scan_pair limits w (some master) s (rows, summary)).0
        ≡ rows_after master s rows
  unfolding scan_pair
  scan_pair-own s master rows summary = elim (Bool-cases (is_pair_fresh limits w.now master s)) [
    | inl fresh ↦ rw fresh (rows_of-replaced master.id s.id _ rows)
    | inr stale ↦ rw stale refl
  ]

  scan_pair-others :
      (m x : String) (o : Option Master) (s : Slave) (state : List FindingRow × RunSummary)
      → (s.id == x) ≡ false
      → rows_of m x (scan_pair limits w o s state).0 ≡ rows_of m x state.0
  unfolding scan_pair
  scan_pair-others m x none s (rows, summary) other = refl
  scan_pair-others m x (some master) s (rows, summary) other =
      elim (Bool-cases (is_pair_fresh limits w.now master s)) [
        | inl fresh ↦ rw fresh (rows_of-others m master.id x s.id _ rows other)
        | inr stale ↦ rw stale refl
      ]

  scan_pairs-others :
      (m x : String) (slaves : List Slave) (state : List FindingRow × RunSummary)
      → has_slave x slaves ≡ false
      → rows_of m x (scan_pairs limits w slaves state).0 ≡ rows_of m x state.0
  unfolding scan_pairs
  scan_pairs-others m x [] state other = refl
  scan_pairs-others m x (s ∷ slaves) state other =
      scan_pairs-others m x slaves _ (ground arith)
      ∙ scan_pair-others m x (master_of w s) s state (ground arith)

  -- The table at the start of the loop and the one at a later round agree on the pairs to come.
  abbrev AgreesOn : List Slave → List FindingRow → List FindingRow → Type 0
  AgreesOn slaves before now =
      (m x : String) → has_slave x slaves ≡ true → rows_of m x now ≡ rows_of m x before

  AgreesOn-scan_pair :
      (s : Slave) (slaves : List Slave) (before : List FindingRow)
      (state : List FindingRow × RunSummary)
      → has_slave s.id slaves ≡ false
      → AgreesOn (s ∷ slaves) before state.0
      → AgreesOn slaves before (scan_pair limits w (master_of w s) s state).0
  AgreesOn-scan_pair s slaves before state new agrees m x here = elim (Bool-cases (s.id == x)) [
    | inl same ↦ absurd (let e = beq→eq s.id x same in let gone = rw e at new in cc)
    | inr other ↦ scan_pair-others m x (master_of w s) s state other ∙ agrees m x (ground arith)
  ]

  head-rows :
      (before : List FindingRow) (s : Slave) (slaves : List Slave) (rows : List FindingRow)
      (summary : RunSummary) (master : Master)
      → AgreesOn (s ∷ slaves) before rows
      → has_slave s.id slaves ≡ false
      → master_of w s ≡ some master
      → rows_of master.id s.id
          (scan_pairs limits w slaves (scan_pair limits w (master_of w s) s (rows, summary))).0
        ≡ rows_after master s before
  head-rows before s slaves rows summary master agrees new found =
      let listed : has_slave s.id (s ∷ slaves) ≡ true = rw (eq→beq s.id s.id refl) refl in
      let kept = agrees master.id s.id listed in
      let fresh = is_pair_fresh limits w.now master s in
      let findings = compare_state (pair_input limits w master s) in
      scan_pairs-others master.id s.id slaves (scan_pair limits w (master_of w s) s (rows, summary))
        new
      ∙ (rw found (scan_pair-own s master rows summary)
          ∙ ap (λ l. if fresh then map (finding_row master.id s.id) findings else l) kept)

  scan_pairs-IsReplaced :
      (before : List FindingRow) (slaves : List Slave) (rows : List FindingRow)
      (summary : RunSummary)
      → HasDistinctSlaves slaves
      → AgreesOn slaves before rows
      → All (IsReplaced before (scan_pairs limits w slaves (rows, summary)).0) slaves
  unfolding scan_pairs
  scan_pairs-IsReplaced before [] rows summary distinct agrees = tt
  scan_pairs-IsReplaced before (s ∷ slaves) rows summary (new, distinct) agrees =
      let next = scan_pair limits w (master_of w s) s (rows, summary) in
      (
        replaced_for before _ s (master_of w s)
            (λ master. head-rows before s slaves rows summary master agrees new),
        scan_pairs-IsReplaced before slaves next.0 next.1 distinct
            (AgreesOn-scan_pair s slaves before (rows, summary) new agrees),
      )

  -- After a run over Slaves with distinct ids, the table holds for every selected Slave and its Master
  -- exactly what compareState finds, in its order, where both snapshots are fresh, and what it held
  -- before where one is missing or stale.
  pub run_reconciliation-IsReplaced :
      (options : RunOptions) (rows : List FindingRow)
      → HasDistinctSlaves w.slaves
      → All
          (IsReplaced rows (run_reconciliation limits options w rows).0)
          (filter_by (is_selected options) w.slaves)
  unfolding run_reconciliation
  run_reconciliation-IsReplaced options rows distinct =
      scan_pairs-IsReplaced rows (filter_by (is_selected options) w.slaves) rows _
        (HasDistinctSlaves-filter_by _ w.slaves distinct) (λ m x h. refl)

  -- For a Slave that the options do not select, a run leaves the findings with every Master as they
  -- were.
  pub run_reconciliation-others :
      (options : RunOptions) (rows : List FindingRow) (m x : String)
      → has_slave x (filter_by (is_selected options) w.slaves) ≡ false
      → rows_of m x (run_reconciliation limits options w rows).0 ≡ rows_of m x rows
  unfolding run_reconciliation
  run_reconciliation-others options rows m x other =
      scan_pairs-others m x (filter_by (is_selected options) w.slaves) _ other
