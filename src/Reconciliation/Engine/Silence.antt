-- ===== src/Reconciliation/Engine/Silence.antt =====
-- What each pass of compareState says by reporting nothing.
use forex_remote_copy_tradin.Number.Double.{to_double, distance}
use forex_remote_copy_tradin.Prelude.{
  String, ◌≡◌, ◌≢◌, refl, ◌∙◌, inl, inr, true, false, ◌||◌, Option, none, some, List, [], ◌∷◌, ◌++◌,
  arith, All, is_some, truthy, Bool-cases, Option-cases,
}
use forex_remote_copy_tradin.Number
use forex_remote_copy_tradin.Number.{Number}
use forex_remote_copy_tradin.CopyEngine.Queries.{ExpectedSlTp}
use forex_remote_copy_tradin.Reconciliation.Engine.{
  MasterPositionInfo, SlavePositionInfo, OpenCopyInfo, ClosedCopyInfo, CompareStateInput, has_open,
  has_closed, position_by_ticket, missing_copies, price_differs, volume_findings, sl_tp_findings,
  position_findings, ticket_findings, open_findings, closed_finding, closed_findings, traced,
  unexpected_findings,
}

pub append-eq_nil {ℓ} : {A : Type ℓ} (xs ys : List A) → xs ++ ys ≡ [] → (xs ≡ []) × (ys ≡ [])
append-eq_nil [] ys h = (refl, h)
append-eq_nil (x ∷ xs) ys h = absurd (cc)

pub cons-not_nil {ℓ} : {A : Type ℓ} (x : A) (xs : List A) → x ∷ xs ≢ []
cons-not_nil x xs h = cc

module _ (i : CompareStateInput) where
  -- A price that is expected is there, and differs by no more than the tolerance.
  abbrev pub IsPriced : Option Number → Option Number → Type 0
  IsPriced expected actual =
      (x : Number)
      → expected ≡ some x
      → (y : Number) × (actual ≡ some y)
        × (Number.leb (distance y x) (to_double i.price_tolerance) ≡ true)

  -- The copy's position is there, with the volume and the prices that are expected of it.
  pub record Reflected (c : OpenCopyInfo) (ticket : String) : Type 0 where
    pub position : SlavePositionInfo
    pub found : position_by_ticket i.slave_positions ticket ≡ some position
    pub volume_agrees :
        (requested : Number)
        → c.requested_volume ≡ some requested
        → Number.leb (distance position.volume requested) (to_double i.volume_tolerance) ≡ true
    pub prices_agree :
        (e : ExpectedSlTp)
        → i.expected_sl_tp c.master_ticket ≡ some e
        → IsPriced e.sl position.sl × IsPriced e.tp position.tp

  abbrev pub IsReflected : OpenCopyInfo → Type 0
  IsReflected c = (ticket : String) → truthy c.slave_ticket ≡ some ticket → Reflected c ticket

  abbrev pub IsGone : ClosedCopyInfo → Type 0
  IsGone c =
      (ticket : String)
      → truthy c.slave_ticket ≡ some ticket
      → position_by_ticket i.slave_positions ticket ≡ none

  abbrev pub IsKnown : MasterPositionInfo → Type 0
  IsKnown p = (has_open i.open_copies p.ticket || has_closed i.closed_copies p.ticket) ≡ true

  pub missing_copies-nil :
      (ps : List MasterPositionInfo) → missing_copies i ps ≡ [] → All IsKnown ps
  unfolding missing_copies
  missing_copies-nil [] h = tt
  missing_copies-nil (p ∷ rest) h = elim (Bool-cases (has_open i.open_copies p.ticket)) [
    | inl o ↦ (ground arith, missing_copies-nil rest (rw o at h))
    | inr o ↦ elim (Bool-cases (has_closed i.closed_copies p.ticket)) [
      | inl c ↦ (ground arith, missing_copies-nil rest (rw (o, c) at h))
      | inr c ↦ absurd (ground arith)
    ]
  ]

  volume_findings-nil :
      (c : OpenCopyInfo) (ticket : String) (p : SlavePositionInfo) (o : Option Number)
      → c.requested_volume ≡ o
      → volume_findings i c ticket p ≡ []
      → (requested : Number) → o ≡ some requested
      → Number.leb (distance p.volume requested) (to_double i.volume_tolerance) ≡ true
  unfolding volume_findings
  volume_findings-nil c ticket p o e h requested f =
      elim (Bool-cases (Number.ltb (to_double i.volume_tolerance) (distance p.volume requested))) [
        | inl differs ↦ absurd (
            let v : c.requested_volume ≡ some requested = e ∙ f in
            cons-not_nil _ _ (rw (v, differs) at h))
        | inr agrees ↦ ground arith
      ]

  price_of_not_differs :
      (expected actual : Option Number)
      → price_differs i expected actual ≡ false
      → IsPriced expected actual
  price_of_not_differs none actual h x e = absurd (cc)
  price_of_not_differs (some z) none h x e = absurd (cc)
  price_of_not_differs (some z) (some y) h x e = (y, refl, ground (arith))

  sl_tp_findings-nil :
      (c : OpenCopyInfo) (ticket : String) (p : SlavePositionInfo) (e : ExpectedSlTp)
      → sl_tp_findings i c ticket p (some e) ≡ []
      → IsPriced e.sl p.sl × IsPriced e.tp p.tp
  unfolding sl_tp_findings
  sl_tp_findings-nil c ticket p e h = elim (Bool-cases (price_differs i e.sl p.sl)) [
    | inl differs ↦ absurd (cons-not_nil _ _ (rw differs at h))
    | inr sl ↦ elim (Bool-cases (price_differs i e.tp p.tp)) [
      | inl differs ↦ absurd (cons-not_nil _ _ (rw (sl, differs) at h))
      | inr tp ↦ (price_of_not_differs e.sl p.sl sl, price_of_not_differs e.tp p.tp tp)
    ]
  ]

  position_findings-nil :
      (c : OpenCopyInfo) (ticket : String) (o : Option SlavePositionInfo)
      → position_by_ticket i.slave_positions ticket ≡ o
      → position_findings i c ticket o ≡ []
      → Reflected c ticket
  unfolding position_findings
  position_findings-nil c ticket none found h = absurd (cc)
  position_findings-nil c ticket (some p) found h =
      let (volumes, prices) = append-eq_nil (volume_findings i c ticket p) _ h in
      record {
        position = p;
        found = found;
        volume_agrees = volume_findings-nil c ticket p c.requested_volume refl volumes;
        prices_agree = λ x e. sl_tp_findings-nil c ticket p x (rw e at prices);
      }

  ticket_findings-nil :
      (c : OpenCopyInfo) (o : Option String)
      → ticket_findings i c o ≡ []
      → (ticket : String) → o ≡ some ticket
      → Reflected c ticket
  unfolding ticket_findings
  ticket_findings-nil c o h ticket e =
      position_findings-nil c ticket (position_by_ticket i.slave_positions ticket) refl (rw e at h)

  pub open_findings-nil : (cs : List OpenCopyInfo) → open_findings i cs ≡ [] → All IsReflected cs
  unfolding open_findings
  open_findings-nil [] h = tt
  open_findings-nil (c ∷ rest) h =
      let (here, later) = append-eq_nil (ticket_findings i c (truthy c.slave_ticket)) _ h in
      (ticket_findings-nil c (truthy c.slave_ticket) here, open_findings-nil rest later)

  closed_finding-nil :
      (c : ClosedCopyInfo) (o : Option String)
      → closed_finding i c o ≡ []
      → (ticket : String) → o ≡ some ticket
      → position_by_ticket i.slave_positions ticket ≡ none
  closed_finding-nil c o h ticket e =
      let here = rw e at h in
      elim (Option-cases (position_by_ticket i.slave_positions ticket)) [
        | inl gone ↦ gone
        | inr (p, found) ↦ absurd (cons-not_nil _ _ (rw found at here))
      ]

  pub closed_findings-nil : (cs : List ClosedCopyInfo) → closed_findings i cs ≡ [] → All IsGone cs
  unfolding closed_findings
  closed_findings-nil [] h = tt
  closed_findings-nil (c ∷ rest) h =
      let (here, later) = append-eq_nil (closed_finding i c (truthy c.slave_ticket)) _ h in
      (closed_finding-nil c (truthy c.slave_ticket) here, closed_findings-nil rest later)

  -- the position was opened by a copy that is known
  abbrev pub IsTraced : SlavePositionInfo → Type 0
  IsTraced p = is_some (traced i p) ≡ true

  pub unexpected_findings-nil :
      (ps : List SlavePositionInfo) → unexpected_findings i ps ≡ [] → All IsTraced ps
  unfolding unexpected_findings
  unexpected_findings-nil [] h = tt
  unexpected_findings-nil (p ∷ rest) h = elim (Bool-cases (is_some (traced i p))) [
    | inl known ↦ (known, unexpected_findings-nil rest (rw known at h))
    | inr unknown ↦ absurd (cons-not_nil _ _ (rw unknown at h))
  ]
