-- ===== src/Reconciliation/Engine/Accord.antt =====
-- The passes of compareState where Master, system and Slave agree.
use forex_remote_copy_tradin.Number.Double.{to_double, distance}
use forex_remote_copy_tradin.Prelude.{
  String, ◌≡◌, refl, true, false, Option, none, some, List, [], ◌∷◌, arith, All, truthy,
}
use forex_remote_copy_tradin.Number
use forex_remote_copy_tradin.Number.{Number}
use forex_remote_copy_tradin.CopyEngine.Queries.{ExpectedSlTp}
use forex_remote_copy_tradin.Reconciliation.Engine.{
  MasterPositionInfo, SlavePositionInfo, OpenCopyInfo, ClosedCopyInfo, CompareStateInput,
  position_by_ticket, missing_copies, price_differs, volume_findings, sl_tp_findings,
  position_findings, ticket_findings, open_findings, closed_finding, closed_findings,
  unexpected_findings,
}
use forex_remote_copy_tradin.Reconciliation.Engine.Silence.{
  IsPriced, Reflected, IsReflected, IsGone, IsKnown, IsTraced,
}

module _ (i : CompareStateInput) where
  pub missing_copies_of_IsKnown :
      (ps : List MasterPositionInfo) → All (IsKnown i) ps → missing_copies i ps ≡ []
  unfolding missing_copies
  missing_copies_of_IsKnown [] all = refl
  missing_copies_of_IsKnown (p ∷ rest) (known, later) =
      ground (arith, missing_copies_of_IsKnown rest later)

  not_differs_of_price :
      (expected actual : Option Number)
      → IsPriced i expected actual
      → price_differs i expected actual ≡ false
  not_differs_of_price none actual h = refl
  not_differs_of_price (some x) none h = let (y, there, near) = h x refl in absurd (cc)
  not_differs_of_price (some x) (some z) h =
      let (y, there, near) = h x refl in let same : z ≡ y = cc in rw same (ground arith)

  volume_findings_of_near :
      (c : OpenCopyInfo) (ticket : String) (p : SlavePositionInfo) (o : Option Number)
      → c.requested_volume ≡ o
      → ((requested : Number)
          → o ≡ some requested
          → Number.leb (distance p.volume requested) (to_double i.volume_tolerance) ≡ true)
      → volume_findings i c ticket p ≡ []
  unfolding volume_findings
  volume_findings_of_near c ticket p none e h = rw e refl
  volume_findings_of_near c ticket p (some requested) e h =
      let near : Number.ltb (to_double i.volume_tolerance) (distance p.volume requested) ≡ false =
        ground (arith, h requested refl) in
      rw (e, near) refl

  sl_tp_findings_of_priced :
      (c : OpenCopyInfo) (ticket : String) (p : SlavePositionInfo) (o : Option ExpectedSlTp)
      → ((e : ExpectedSlTp) → o ≡ some e → IsPriced i e.sl p.sl × IsPriced i e.tp p.tp)
      → sl_tp_findings i c ticket p o ≡ []
  unfolding sl_tp_findings
  sl_tp_findings_of_priced c ticket p none h = refl
  sl_tp_findings_of_priced c ticket p (some e) h =
      let (sl, tp) = h e refl in
      rw (not_differs_of_price e.sl p.sl sl, not_differs_of_price e.tp p.tp tp) refl

  position_findings_of_Reflected :
      (c : OpenCopyInfo) (ticket : String)
      → Reflected i c ticket
      → position_findings i c ticket (position_by_ticket i.slave_positions ticket) ≡ []
  unfolding position_findings
  position_findings_of_Reflected c ticket r =
      rw
        (
          r.found,
          volume_findings_of_near c ticket r.position c.requested_volume refl r.volume_agrees,
        )
        (sl_tp_findings_of_priced c ticket r.position (i.expected_sl_tp c.master_ticket)
          r.prices_agree)

  ticket_findings_of_Reflected :
      (c : OpenCopyInfo) (o : Option String)
      → ((ticket : String) → o ≡ some ticket → Reflected i c ticket)
      → ticket_findings i c o ≡ []
  unfolding ticket_findings
  ticket_findings_of_Reflected c none h = refl
  ticket_findings_of_Reflected c (some ticket) h =
      position_findings_of_Reflected c ticket (h ticket refl)

  pub open_findings_of_IsReflected :
      (cs : List OpenCopyInfo) → All (IsReflected i) cs → open_findings i cs ≡ []
  unfolding open_findings
  open_findings_of_IsReflected [] all = refl
  open_findings_of_IsReflected (c ∷ rest) (here, later) =
      rw (ticket_findings_of_Reflected c (truthy c.slave_ticket) here)
        (open_findings_of_IsReflected rest later)

  closed_finding_of_gone :
      (c : ClosedCopyInfo) (o : Option String)
      → ((ticket : String) → o ≡ some ticket → position_by_ticket i.slave_positions ticket ≡ none)
      → closed_finding i c o ≡ []
  closed_finding_of_gone c none h = refl
  closed_finding_of_gone c (some ticket) h = rw (h ticket refl) refl

  pub closed_findings_of_IsGone :
      (cs : List ClosedCopyInfo) → All (IsGone i) cs → closed_findings i cs ≡ []
  unfolding closed_findings
  closed_findings_of_IsGone [] all = refl
  closed_findings_of_IsGone (c ∷ rest) (here, later) =
      rw (closed_finding_of_gone c (truthy c.slave_ticket) here)
        (closed_findings_of_IsGone rest later)

  pub unexpected_findings_of_IsTraced :
      (ps : List SlavePositionInfo) → All (IsTraced i) ps → unexpected_findings i ps ≡ []
  unfolding unexpected_findings
  unexpected_findings_of_IsTraced [] all = refl
  unexpected_findings_of_IsTraced (p ∷ rest) (known, later) =
      rw known (unexpected_findings_of_IsTraced rest later)
