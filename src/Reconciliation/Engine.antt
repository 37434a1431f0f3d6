-- ===== src/Reconciliation/Engine.antt =====
-- backend/src/modules/reconciliation/reconciliationEngine.ts
pub mod CopyId
pub mod Silence
pub mod Duplicates
pub mod Groups
pub mod Accord
pub mod Agreement
use forex_remote_copy_tradin.Number.Double.{to_double, distance}
use forex_remote_copy_tradin.Prelude.{
  ℕ, String, Bool, true, false, not, ◌&&◌, ◌||◌, Option, none, some, List, [], ◌∷◌, ◌++◌, map,
  if◌then◌else◌, any, find_first, filter_by, find_last, length, is_some, ltb, truthy, get_or, ◌==◌,
}
use forex_remote_copy_tradin.Number
use forex_remote_copy_tradin.Number.{Number}
use forex_remote_copy_tradin.Types.{PositionSnapshotItem}
use forex_remote_copy_tradin.CopyEngine.Queries.{ExpectedSlTp}
use CopyId.{extract_copy_id}

pub record MasterPositionInfo : Type 0 where
  pub ticket : String
  pub symbol : String
  pub volume : Number

pub record SlavePositionInfo : Type 0 where
  pub ticket : String
  pub symbol : String
  pub volume : Number
  pub sl : Option Number
  pub tp : Option Number
  pub comment : Option String

pub record OpenCopyInfo : Type 0 where
  pub copy_id : String
  pub master_ticket : String
  pub slave_ticket : Option String
  pub requested_volume : Option Number

pub record ClosedCopyInfo : Type 0 where
  pub master_ticket : String
  pub slave_ticket : Option String

-- A finding with its tickets and details, a constructor for each ReconciliationFindingType.
pub data Finding : Type 0 where
  missing_copy : (master_ticket symbol : String) (volume : Number) → Finding
  slave_position_missing : (master_ticket slave_ticket : String) → Finding
  volume_mismatch : (master_ticket slave_ticket : String) (expected actual : Number) → Finding
  sltp_mismatch :
      (master_ticket slave_ticket : String) (expected : ExpectedSlTp)
      (actual_sl actual_tp : Option Number)
      → Finding
  slave_not_closed : (master_ticket slave_ticket : String) → Finding
  unexpected_slave_position :
      (slave_ticket symbol : String) (volume : Number) (comment : Option String) → Finding
  duplicate_slave_position : (slave_ticket copy_id : String) (duplicate_count : ℕ) → Finding

pub record CompareStateInput : Type 0 where
  pub master_positions : List MasterPositionInfo
  pub open_copies : List OpenCopyInfo
  pub closed_copies : List ClosedCopyInfo
  pub slave_positions : List SlavePositionInfo
  pub expected_sl_tp : String → Option ExpectedSlTp
  pub volume_tolerance : Number
  pub price_tolerance : Number

-- openByMasterTicket.has, closedByMasterTicket.has
abbrev pub has_open : List OpenCopyInfo → String → Bool
has_open copies ticket = any (λ c. c.master_ticket == ticket) copies

abbrev pub has_closed : List ClosedCopyInfo → String → Bool
has_closed copies ticket = any (λ c. c.master_ticket == ticket) copies

-- slavePositionByTicket.get: a later position of the same ticket replaces an earlier one
abbrev pub position_by_ticket : List SlavePositionInfo → String → Option SlavePositionInfo
position_by_ticket positions ticket = find_last (λ p. p.ticket == ticket) positions

module _ (i : CompareStateInput) where
  -- Master positions that were never copied.
  pub missing_copies : List MasterPositionInfo → List Finding
  missing_copies [] = []
  missing_copies (p ∷ rest) =
      if not (has_open i.open_copies p.ticket) && not (has_closed i.closed_copies p.ticket)
      then missing_copy p.ticket p.symbol p.volume ∷ missing_copies rest
      else missing_copies rest

  abbrev pub volume_differs : Option Number → Number → Bool
  volume_differs none actual = false
  volume_differs (some requested) actual =
      Number.ltb (to_double i.volume_tolerance) (distance actual requested)

  -- slMismatch and tpMismatch
  abbrev pub price_differs : Option Number → Option Number → Bool
  price_differs none actual = false
  price_differs (some expected) none = true
  price_differs (some expected) (some actual) =
      Number.ltb (to_double i.price_tolerance) (distance actual expected)

  volume_findings : OpenCopyInfo → String → SlavePositionInfo → List Finding
  volume_findings c ticket p =
      if volume_differs c.requested_volume p.volume
      then volume_mismatch c.master_ticket ticket (get_or c.requested_volume Number.zero) p.volume
        ∷ []
      else []

  sl_tp_findings : OpenCopyInfo → String → SlavePositionInfo → Option ExpectedSlTp → List Finding
  sl_tp_findings c ticket p none = []
  sl_tp_findings c ticket p (some e) =
      if price_differs e.sl p.sl || price_differs e.tp p.tp
      then sltp_mismatch c.master_ticket ticket e p.sl p.tp ∷ []
      else []

  position_findings : OpenCopyInfo → String → Option SlavePositionInfo → List Finding
  unfolding volume_findings sl_tp_findings
  position_findings c ticket none = slave_position_missing c.master_ticket ticket ∷ []
  position_findings c ticket (some p) =
      volume_findings c ticket p ++ sl_tp_findings c ticket p (i.expected_sl_tp c.master_ticket)

  -- one open copy: an empty ticket is passed over
  ticket_findings : OpenCopyInfo → Option String → List Finding
  unfolding position_findings
  ticket_findings c none = []
  ticket_findings c (some ticket) =
      position_findings c ticket (position_by_ticket i.slave_positions ticket)

  pub open_findings : List OpenCopyInfo → List Finding
  unfolding ticket_findings
  open_findings [] = []
  open_findings (c ∷ rest) = ticket_findings c (truthy c.slave_ticket) ++ open_findings rest

  abbrev closed_finding : ClosedCopyInfo → Option String → List Finding
  closed_finding c none = []
  closed_finding c (some ticket) =
      if is_some (position_by_ticket i.slave_positions ticket)
      then slave_not_closed c.master_ticket ticket ∷ []
      else []

  pub closed_findings : List ClosedCopyInfo → List Finding
  closed_findings [] = []
  closed_findings (c ∷ rest) = closed_finding c (truthy c.slave_ticket) ++ closed_findings rest

  -- the copyId of a position's comment, if it is that of an open copy
  abbrev known_copy : Option String → Option String
  known_copy none = none
  known_copy (some copy_id) =
      if any (λ c. c.copy_id == copy_id) i.open_copies then some copy_id else none

  abbrev pub traced : SlavePositionInfo → Option String
  traced p = known_copy (extract_copy_id p.comment)

  pub unexpected_findings : List SlavePositionInfo → List Finding
  unexpected_findings [] = []
  unexpected_findings (p ∷ rest) =
      if is_some (traced p)
      then unexpected_findings rest
      else unexpected_slave_position p.ticket p.symbol p.volume p.comment ∷ unexpected_findings rest

-- positionsByCopyId, in the order of insertion: a position joins the group of its copyId.
abbrev pub Groups : Type 0
Groups = List (String × List SlavePositionInfo)

abbrev join_group : String → SlavePositionInfo → Groups → Groups
join_group copy_id p [] = (copy_id, p ∷ []) ∷ []
join_group copy_id p ((k, ps) ∷ groups) =
    if k == copy_id then (k, ps ++ p ∷ []) ∷ groups else (k, ps) ∷ join_group copy_id p groups

abbrev join_traced : Option String → SlavePositionInfo → Groups → Groups
join_traced none p groups = groups
join_traced (some copy_id) p groups = join_group copy_id p groups

pub group_positions : CompareStateInput → List SlavePositionInfo → Groups → Groups
group_positions i [] groups = groups
group_positions i (p ∷ rest) groups = group_positions i rest (join_traced (traced i p) p groups)

duplicates_of : String → ℕ → List SlavePositionInfo → List Finding
duplicates_of copy_id count [] = []
duplicates_of copy_id count (p ∷ rest) =
    duplicate_slave_position p.ticket copy_id count ∷ duplicates_of copy_id count rest

pub duplicate_findings : Groups → List Finding
unfolding duplicates_of
duplicate_findings [] = []
duplicate_findings ((copy_id, ps) ∷ groups) =
    let here = if ltb 1 (length ps) then duplicates_of copy_id (length ps) ps else [] in
    here ++ duplicate_findings groups

unfoldable pub compare_state : CompareStateInput → List Finding
unfolding missing_copies open_findings closed_findings unexpected_findings group_positions
    duplicate_findings
compare_state i =
    missing_copies i i.master_positions
    ++ (open_findings i i.open_copies
        ++ (closed_findings i i.closed_copies
            ++ (unexpected_findings i i.slave_positions
                ++ duplicate_findings (group_positions i i.slave_positions []))))
