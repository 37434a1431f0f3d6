-- ===== src/Tests/Copying.antt =====
-- The copy engine's theorems at concrete inputs.
use forex_remote_copy_tradin.Prelude.{
  ℕ, ◌↔◌, String, ◌≡◌, refl, inl, ◌⊎◌, true, not, ◌&&◌, Option, none, some, [], ◌∷◌, arith, any,
  All, truthy,
}
use forex_remote_copy_tradin.Prelude.Int.{pos}
use forex_remote_copy_tradin.Number.{Number, of_int, cents, ltb, leb, zero}
use forex_remote_copy_tradin.Types.{CopyOrder, CopyMode}
use forex_remote_copy_tradin.World.{World, find_order, is_copy_of}
use forex_remote_copy_tradin.CopyEngine.Dispatch.Throws.{copy_to_slave-none_iff}
use forex_remote_copy_tradin.CopyEngine.VolumeCalculator.{
  VolumeCalculatorInput, raw_of, calculate_volume, volume, round_down_to_step,
}
use forex_remote_copy_tradin.CopyEngine.VolumeCalculator.Rounding.{
  round_down_to_step-IsLargestMultiple, IsLargestMultiple, widened,
}
use forex_remote_copy_tradin.CopyEngine.VolumeCalculator.Bounds.{
  calculate_volume-le-raw, calculate_volume-IsConfigured_iff, IsSizedOrTooSmall, IsConfigured,
}
use forex_remote_copy_tradin.CopyEngine.RiskChecks.{EntryCheckInput, check_entry_allowed, allowed}
use forex_remote_copy_tradin.CopyEngine.Queries.{
  get_copy_order_positions, is_open_copy_of, find_executed_open_slave_ticket,
}
use forex_remote_copy_tradin.CopyEngine.Queries.Laws.{
  get_copy_order_positions_iff, is_opened, is_close_copy_of,
}
use forex_remote_copy_tradin.CopyEngine.Plan.{plan, proceed, sizing_input}
use forex_remote_copy_tradin.CopyEngine.Plan.Laws.{plan-IsWithinLimits, IsWithinLimits}
use forex_remote_copy_tradin.CopyEngine.Dispatch.{copy_to_slave}
use forex_remote_copy_tradin.CopyEngine.Dispatch.Outcome.{Copied}
use forex_remote_copy_tradin.CopyEngine.Dispatch.Laws.{copy_to_slave-Copied}
use forex_remote_copy_tradin.CopyEngine.Dispatch.Reductions.{copy_to_slave-ignores_limits}
use forex_remote_copy_tradin.CopyEngine.Fanout.{handle_master_event}
use forex_remote_copy_tradin.CopyEngine.Fanout.Laws.{
  handle_master_event-IsCopiedOnce, IsUnique, IsCopiedOnce,
}
use forex_remote_copy_tradin.CopyEngine.Results.{handle_slave_message}
use forex_remote_copy_tradin.CopyEngine.Results.Laws.{
  handle_slave_message-rows, IsReported, IsNotOwn,
}
use forex_remote_copy_tradin.CopyEngine.Results.TradeIdentity.{handle_slave_message-plan}
use forex_remote_copy_tradin.Tests.Data.{
  slave_mt5, slave_mt4, opened, ended, stored, account, sent_open, executed_open, executed_message,
  start, with_orders,
}

-- what the copy of the OPEN leaves at the MT5 Slave
abbrev copied : Option World
copied = copy_to_slave "c1" slave_mt5 "t1" opened account start

abbrev or_start : Option World → World
or_start none = start
or_start (some w) = w

copied-some : copied ≡ some (or_start copied)
unfolding copy_to_slave check_entry_allowed
    forex_remote_copy_tradin.CopyEngine.Queries.get_open_positions_summary calculate_volume ltb
    forex_remote_copy_tradin.Number.min round_down_to_step forex_remote_copy_tradin.Number.mul
    forex_remote_copy_tradin.Number.to_fixed8 forex_remote_copy_tradin.Number.div
    forex_remote_copy_tradin.CopyEngine.RiskChecks.check_exposure_allowed
    forex_remote_copy_tradin.World.create_order
copied-some = refl

copy_to_slave-Copied_example :
    Copied "c1" slave_mt5 "t1" opened (plan [] slave_mt5 opened account) start (or_start copied)
copy_to_slave-Copied_example =
    copy_to_slave-Copied "c1" slave_mt5 "t1" opened account start (or_start copied) refl copied-some

copy_to_slave-none_iff_example :
    (copy_to_slave "c2" slave_mt5 "t1" opened account (with_orders (sent_open ∷ [])) ≡ none)
    ↔ (any (is_copy_of "t1" "slave-5") (sent_open ∷ []) ≡ true)
copy_to_slave-none_iff_example =
    copy_to_slave-none_iff "c2" slave_mt5 "t1" opened account (with_orders (sent_open ∷ []))

planned-open :
    plan (executed_open ∷ []) slave_mt5 (record opened { master_ticket = "m2" }) account
    ≡ proceed none (some (record { num = pos 10_000_000; den_pred = 99_999_999 }))
unfolding plan check_entry_allowed
    forex_remote_copy_tradin.CopyEngine.Queries.get_open_positions_summary calculate_volume ltb
    forex_remote_copy_tradin.Number.min round_down_to_step forex_remote_copy_tradin.Number.mul
    forex_remote_copy_tradin.Number.to_fixed8 forex_remote_copy_tradin.Number.div
    forex_remote_copy_tradin.CopyEngine.RiskChecks.check_exposure_allowed
planned-open = refl

plan-IsWithinLimits_example :
    (v : Number) × (◌≡◌ {A = Option String} none none)
    × (some (record { num = pos 10_000_000; den_pred = 99_999_999 }) ≡ some v)
    × IsWithinLimits
        (executed_open ∷ [])
        slave_mt5
        (record opened { master_ticket = "m2" })
        account
        v
plan-IsWithinLimits_example =
    plan-IsWithinLimits (executed_open ∷ []) slave_mt5 (record opened { master_ticket = "m2" })
      account refl planned-open

copy_to_slave-ignores_limits_example :
    copy_to_slave "c9" slave_mt5 "t2" ended account (with_orders (executed_open ∷ []))
    ≡ copy_to_slave "c9"
        (record slave_mt5 { emergency_stop = true; max_positions = some 0 })
        "t2"
        ended
        (record { master_balance = none; master_equity = none })
        (with_orders (executed_open ∷ []))
copy_to_slave-ignores_limits_example =
    copy_to_slave-ignores_limits "c9" "t2" ended slave_mt5
      (record slave_mt5 { emergency_stop = true; max_positions = some 0 }) account
      (record { master_balance = none; master_equity = none }) (with_orders (executed_open ∷ []))
      refl refl (inl refl)

handle_slave_message-plan_example :
    plan
      (handle_slave_message "slave-5"
        (some executed_message)
        (with_orders (sent_open ∷ []))).copy_orders
      slave_mt5
      ended
      account
    ≡ proceed (some "s77") none
unfolding truthy
handle_slave_message-plan_example =
    handle_slave_message-plan slave_mt5 executed_message (with_orders (sent_open ∷ [])) sent_open
      "s77" ended account refl refl refl refl refl refl refl (inl refl)

abbrev reported_state : World
reported_state =
    handle_slave_message "slave-5" (some executed_message) (with_orders (sent_open ∷ []))

handle_slave_message-rows_example :
    ((o : CopyOrder) × (◌≡◌ {A = String} "c1" "c1")
      × (find_order (sent_open ∷ []) "c1" ≡ some o)
      × (o.slave_id ≡ "slave-5")
      × (q : CopyOrder) × (find_order reported_state.copy_orders "c1" ≡ some q)
      × IsReported executed_message 1_000_000 o q)
    ⊎ (IsNotOwn "slave-5" "c1" "c1" (find_order (sent_open ∷ []) "c1")
        × (find_order reported_state.copy_orders "c1" ≡ find_order (sent_open ∷ []) "c1"))
handle_slave_message-rows_example =
    handle_slave_message-rows "slave-5" executed_message (with_orders (sent_open ∷ [])) "c1"

-- 0.237 in steps of 0.05
round_down_to_step-IsLargestMultiple_example :
    (k : ℕ) × IsLargestMultiple
      (record { num = pos 237; den_pred = 999 })
      (cents 5)
      (round_down_to_step (record { num = pos 237; den_pred = 999 }) (cents 5))
      k
unfolding ltb
round_down_to_step-IsLargestMultiple_example =
    round_down_to_step-IsLargestMultiple (record { num = pos 237; den_pred = 999 }) 4 refl

abbrev sizing : VolumeCalculatorInput
sizing = sizing_input slave_mt5 opened account

abbrev tenth : Number
tenth = record { num = pos 10_000_000; den_pred = 99_999_999 }

sized : calculate_volume sizing ≡ volume tenth
unfolding calculate_volume ltb forex_remote_copy_tradin.Number.min round_down_to_step
    forex_remote_copy_tradin.Number.mul forex_remote_copy_tradin.Number.to_fixed8
    forex_remote_copy_tradin.Number.div
sized = refl

calculate_volume-le-raw_example :
    (raw : Number) × (raw_of CopyMode.multiplier sizing ≡ volume raw)
    × (leb tenth (widened raw (cents 1)) ≡ true)
unfolding ltb
calculate_volume-le-raw_example = calculate_volume-le-raw sizing 0 tenth refl refl sized

calculate_volume-IsConfigured_iff_example :
    IsSizedOrTooSmall sizing ↔ IsConfigured CopyMode.multiplier sizing
calculate_volume-IsConfigured_iff_example = calculate_volume-IsConfigured_iff sizing

get_copy_order_positions_iff_example :
    any (is_opened "m1") (get_copy_order_positions (executed_open ∷ []) "slave-5").opened ≡ (
      any (is_open_copy_of "slave-5" "m1") (executed_open ∷ [])
      && not (any (is_close_copy_of "slave-5" "m1") (executed_open ∷ [])))
get_copy_order_positions_iff_example =
    get_copy_order_positions_iff (executed_open ∷ []) "slave-5" "m1"

abbrev after_open : World
after_open = handle_master_event (λ s. s.id) [] opened start

nothing-IsUnique : IsUnique start
nothing-IsUnique t x = omega arith

handle_master_event-IsCopiedOnce_example :
    All (IsCopiedOnce "t1" after_open) (slave_mt5 ∷ slave_mt4 ∷ [])
unfolding forex_remote_copy_tradin.CopyEngine.Fanout.is_copyable_event
handle_master_event-IsCopiedOnce_example =
    handle_master_event-IsCopiedOnce (λ s. s.id) [] opened start (stored opened "t1") refl refl
      nothing-IsUnique
