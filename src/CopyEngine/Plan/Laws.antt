-- ===== src/CopyEngine/Plan/Laws.antt =====
-- What copyToSlave decides.
use forex_remote_copy_tradin.Prelude.{
  String, ◌≡◌, refl, sym, ap, ◌∙◌, ◌⊎◌, inl, inr, true, Option, none, some, List, arith, truthy,
  Option-cases,
}
use forex_remote_copy_tradin.Number
use forex_remote_copy_tradin.Number.{Number}
use forex_remote_copy_tradin.Types.{
  Slave, NormalizedTradeEvent, CopyOrder, no_matching_open_copy, opens, closes, modifies,
}
use forex_remote_copy_tradin.CopyEngine.VolumeCalculator.{
  VolumeCalculatorResult, volume, rejected, calculate_volume,
}
use forex_remote_copy_tradin.CopyEngine.VolumeCalculator.Bounds.{calculate_volume_bounds}
use forex_remote_copy_tradin.CopyEngine.RiskChecks.{
  allowed, check_entry_allowed, check_exposure_allowed, ExposureCheckInput,
}
use forex_remote_copy_tradin.CopyEngine.RiskChecks.Laws.{IsEntryAllowed, check_entry_allowed_iff}
use forex_remote_copy_tradin.CopyEngine.Queries.{
  get_open_positions_summary, find_executed_open_slave_ticket,
}
use forex_remote_copy_tradin.CopyEngine.Plan.{
  MasterAccount, refuse, proceed, sizing_input, entry_input, exposure_input, plan_exposure,
  plan_size, plan_open, plan_reduction, plan,
}

check_exposure_allowed-le :
    (i : ExposureCheckInput)
    → check_exposure_allowed i ≡ allowed
    → (limit : Number) → i.max_exposure ≡ some limit
    → Number.leb (Number.add i.current_open_exposure i.incoming_volume) limit ≡ true
unfolding check_exposure_allowed
check_exposure_allowed-le i h limit e = ground arith

module _ (orders : List CopyOrder) (s : Slave) (e : NormalizedTradeEvent)
    (account : MasterAccount) where
  -- What an OPEN has met when it goes on to be sent with the size v.
  pub record IsWithinLimits (v : Number) : Type 0 where
    pub entry : IsEntryAllowed (entry_input orders s e)
    pub sized : calculate_volume (sizing_input s e account) ≡ volume v
    pub above_min : Number.leb s.min_lot v ≡ true
    pub below_max : Number.leb v s.max_lot ≡ true
    pub exposure :
        (limit : Number)
        → s.max_exposure ≡ some limit
        → Number.leb (Number.add (get_open_positions_summary orders s.id).total_volume v) limit
          ≡ true

  plan_open-proceed :
      {ticket : Option String} {requested : Option Number}
      → plan_open orders s e account ≡ proceed ticket requested
      → (check_entry_allowed (entry_input orders s e) ≡ allowed)
        × (plan_size orders s e account ≡ proceed ticket requested)
  unfolding plan_open
  plan_open-proceed h = ground arith

  plan_size-proceed :
      {ticket : Option String} {requested : Option Number}
      → plan_size orders s e account ≡ proceed ticket requested
      → (v : Number) × (calculate_volume (sizing_input s e account) ≡ volume v)
        × (plan_exposure orders s v ≡ proceed ticket requested)
  unfolding plan_size
  plan_size-proceed {ticket} {requested} h = go (calculate_volume (sizing_input s e account)) refl
    where
      go :
          (r : VolumeCalculatorResult)
          → calculate_volume (sizing_input s e account) ≡ r
          → (v : Number) × (calculate_volume (sizing_input s e account) ≡ volume v)
            × (plan_exposure orders s v ≡ proceed ticket requested)
      go (volume v) p = (v, p, ground arith)
      go (rejected reason) p = absurd (ground arith)

  plan_exposure-proceed :
      (v : Number) {ticket : Option String} {requested : Option Number}
      → plan_exposure orders s v ≡ proceed ticket requested
      → (check_exposure_allowed (exposure_input orders s v) ≡ allowed)
        × (ticket ≡ none)
        × (requested ≡ some v)
  unfolding plan_exposure
  plan_exposure-proceed v h = ground arith

  plan_open-IsWithinLimits :
      {ticket : Option String} {requested : Option Number}
      → plan_open orders s e account ≡ proceed ticket requested
      → (v : Number) × (ticket ≡ none) × (requested ≡ some v) × IsWithinLimits v
  plan_open-IsWithinLimits h =
      let (entry, size) = plan_open-proceed h in
      let (v, sized, rest) = plan_size-proceed size in
      let (exposure, no_ticket, is_v) = plan_exposure-proceed v rest in
      let (above, below) = calculate_volume_bounds (sizing_input s e account) v sized in
      (
        v,
        no_ticket,
        is_v,
        record {
          entry = (check_entry_allowed_iff (entry_input orders s e)).0 entry;
          sized = sized;
          above_min = above;
          below_max = below;
          exposure = check_exposure_allowed-le (exposure_input orders s v) exposure;
        },
      )

  plan_of_opens : e.type ≡ opens → plan orders s e account ≡ plan_open orders s e account
  unfolding plan
  plan_of_opens h = ground arith

  plan_of_reduction :
      (e.type ≡ closes) ⊎ (e.type ≡ modifies)
      → plan orders s e account ≡ plan_reduction orders s.id e
  unfolding plan
  plan_of_reduction h = ground arith

  -- An OPEN goes on to a Slave only within all its limits: the entry checks hold, its size is the
  -- calculated one, between the minimum and the maximum lot, and the volumes of the Slave's open
  -- copies with that size do not exceed the maximum exposure, if there is one. It carries no ticket.
  pub plan-IsWithinLimits :
      {ticket : Option String} {requested : Option Number}
      → e.type ≡ opens
      → plan orders s e account ≡ proceed ticket requested
      → (v : Number) × (ticket ≡ none) × (requested ≡ some v) × IsWithinLimits v
  plan-IsWithinLimits h p = plan_open-IsWithinLimits (sym (plan_of_opens h) ∙ p)

  plan_reduction-proceed :
      (ticket : String)
      → truthy (find_executed_open_slave_ticket orders s.id e.master_ticket) ≡ some ticket
      → plan_reduction orders s.id e ≡ proceed (some ticket) e.volume
  unfolding plan_reduction
  plan_reduction-proceed ticket h = rw (h, plan_reduction)

  plan_reduction-refuse :
      truthy (find_executed_open_slave_ticket orders s.id e.master_ticket) ≡ none
      → plan_reduction orders s.id e ≡ refuse no_matching_open_copy none
  unfolding plan_reduction
  plan_reduction-refuse h = rw (h, plan_reduction)

-- A CLOSE or MODIFY is refused exactly when the newest EXECUTED OPEN copy of its Master ticket on the
-- Slave is missing or has no ticket; otherwise it goes on with that ticket and the event's volume.
pub plan_reduction_cases :
    (orders : List CopyOrder) (s : Slave) (e : NormalizedTradeEvent) (account : MasterAccount)
    → (e.type ≡ closes) ⊎ (e.type ≡ modifies)
    → ((truthy (find_executed_open_slave_ticket orders s.id e.master_ticket) ≡ none)
        × (plan orders s e account ≡ refuse no_matching_open_copy none))
      ⊎ ((ticket : String) × (truthy (find_executed_open_slave_ticket orders s.id e.master_ticket)
            ≡ some ticket)
          × (plan orders s e account ≡ proceed (some ticket) e.volume))
plan_reduction_cases orders s e account h =
    elim (Option-cases (truthy (find_executed_open_slave_ticket orders s.id e.master_ticket))) [
      | inl none_found ↦ inl (
        none_found,
        plan_of_reduction orders s e account h
            ∙ plan_reduction-refuse orders s e account none_found,
      )
      | inr (ticket, found) ↦ inr (
        ticket,
        found,
        plan_of_reduction orders s e account h
            ∙ plan_reduction-proceed orders s e account ticket found,
      )
    ]

pub plan_of_ticket :
    (orders : List CopyOrder) (s : Slave) (e : NormalizedTradeEvent) (account : MasterAccount)
    (ticket : String)
    → (e.type ≡ closes) ⊎ (e.type ≡ modifies)
    → truthy (find_executed_open_slave_ticket orders s.id e.master_ticket) ≡ some ticket
    → plan orders s e account ≡ proceed (some ticket) e.volume
plan_of_ticket orders s e account ticket h found =
    plan_of_reduction orders s e account h ∙ plan_reduction-proceed orders s e account ticket found

-- A CLOSE or MODIFY is decided by the Slave's copies alone: two configurations of a Slave with the
-- same id, whatever their risk limits, emergency stop and sizing, and any two accounts of the Master
-- lead to the same plan.
pub plan-ignores_limits :
    (orders : List CopyOrder) (s t : Slave) (e : NormalizedTradeEvent) (a b : MasterAccount)
    → s.id ≡ t.id
    → (e.type ≡ closes) ⊎ (e.type ≡ modifies)
    → plan orders s e a ≡ plan orders t e b
plan-ignores_limits orders s t e a b same h =
    plan_of_reduction orders s e a h
    ∙ ap (λ id. plan_reduction orders id e) same
    ∙ sym (plan_of_reduction orders t e b h)
