-- ===== src/CopyEngine/Fanout/Laws.antt =====
-- The rows that handleMasterEvent leaves for each Slave.
use forex_remote_copy_tradin.Prelude.{
  ◌+◌, ◌≤◌, String, ◌≡◌, refl, sym, ap, ◌∙◌, inl, inr, ◌⊎◌, true, false, ◌&&◌, some, List, [], ◌∷◌,
  arith, any, filter_by, All, Bool-cases, Option-cases, eq→beq, beq→eq, ◌==◌, if◌then◌else◌,
}
use forex_remote_copy_tradin.Types.{Slave, NormalizedTradeEvent, TradeEvent}
use forex_remote_copy_tradin.World.{World, is_copy_of}
use forex_remote_copy_tradin.CopyEngine.Plan.{MasterAccount}
use forex_remote_copy_tradin.CopyEngine.Dispatch.{copy_to_slave}
use forex_remote_copy_tradin.CopyEngine.Dispatch.Counts.{
  count_copies, count_of_none, count_of_any, copy_to_slave-count, copy_to_slave-none,
}
use forex_remote_copy_tradin.CopyEngine.Dispatch.Laws.{copy_to_slave-duplicate}
use forex_remote_copy_tradin.CopyEngine.Fanout.{
  settle, fan_out, handle_master_event, is_copied_to, is_copyable_event, find_trade_event,
  find_master, account_of,
}

-- The unique constraint of copy_orders: at most one row for a trade event and a Slave.
abbrev pub IsUnique : World → Type 0
IsUnique w = (t x : String) → count_copies t x w.copy_orders ≤ 1

module _ (new_id : Slave → String) (te : String) (e : NormalizedTradeEvent)
    (account : MasterAccount) where
  -- What one Slave's copy does to the rows of an event and a Slave.
  settle_cases :
      (s : Slave) (w : World)
      → ((any (is_copy_of te s.id) w.copy_orders ≡ true) × (settle new_id te e account s w ≡ w))
        ⊎ ((t x : String)
            → count_copies t x (settle new_id te e account s w).copy_orders
              ≡ (if te == t && s.id == x then 1 else 0) + count_copies t x w.copy_orders)
  settle_cases s w = elim (Option-cases (copy_to_slave (new_id s) s te e account w)) [
    | inl failed ↦
        inl (copy_to_slave-none (new_id s) s te e te s.id account w failed, rw failed refl)
    | inr (w', copied) ↦
        inr (λ t x. rw copied (copy_to_slave-count (new_id s) s te e t x account w copied))
  ]

  settle-has :
      (s : Slave) (w : World)
      → 1 ≤ count_copies te s.id (settle new_id te e account s w).copy_orders
  settle-has s w = elim (settle_cases s w) [
    | inl (there, same) ↦ rw same (count_of_any _ w.copy_orders there)
    | inr count ↦ omega (arith, rw (eq→beq te te refl, eq→beq s.id s.id refl) at (count te s.id))
  ]

  settle-grows :
      (s : Slave) (w : World) (t x : String)
      → count_copies t x w.copy_orders
        ≤ count_copies t x (settle new_id te e account s w).copy_orders
  settle-grows s w t x = elim (settle_cases s w) [
    | inl (there, same) ↦ rw same (omega arith)
    | inr count ↦ ground (arith, count t x)
  ]

  fan_out-grows :
      (slaves : List Slave) (w : World) (t x : String)
      → count_copies t x w.copy_orders
        ≤ count_copies t x (fan_out new_id te e account slaves w).copy_orders
  unfolding fan_out
  fan_out-grows [] w t x = omega arith
  fan_out-grows (s ∷ slaves) w t x =
      omega (arith, settle-grows s w t x, fan_out-grows slaves (settle new_id te e account s w) t x)

  fan_out-has :
      (slaves : List Slave) (w : World)
      → All
          (λ s. 1 ≤ count_copies te s.id (fan_out new_id te e account slaves w).copy_orders)
          slaves
  unfolding fan_out
  fan_out-has [] w = tt
  fan_out-has (s ∷ slaves) w =
      let after = settle new_id te e account s w in
      (omega (arith, settle-has s w, fan_out-grows slaves after te s.id), fan_out-has slaves after)

  settle-IsUnique : (s : Slave) (w : World) → IsUnique w → IsUnique (settle new_id te e account s w)
  settle-IsUnique s w unique t x = elim (Bool-cases (any (is_copy_of te s.id) w.copy_orders)) [
    | inl there ↦
        let thrown = copy_to_slave-duplicate (new_id s) s te e account w there in
        rw thrown (unique t x)
    | inr new ↦
        let before = count_of_none _ w.copy_orders new in
        elim (settle_cases s w) [
          | inl (there, same) ↦ rw same (unique t x)
          | inr count ↦ elim (Bool-cases (te == t && s.id == x)) [
            | inr other ↦ omega (arith, unique t x, rw other at (count t x))
            | inl here ↦
                let same_event = beq→eq te t (ground arith) in
                let same_slave = beq→eq s.id x (ground arith) in
                let none_yet : count_copies t x w.copy_orders ≡ 0 =
                  rw (sym same_event, sym same_slave) before in
                omega (arith, none_yet, rw here at (count t x))
          ]
        ]
  ]

  fan_out-IsUnique :
      (slaves : List Slave) (w : World)
      → IsUnique w
      → IsUnique (fan_out new_id te e account slaves w)
  unfolding fan_out
  fan_out-IsUnique [] w unique = unique
  fan_out-IsUnique (s ∷ slaves) w unique =
      fan_out-IsUnique slaves (settle new_id te e account s w) (settle-IsUnique s w unique)

  fan_out-others :
      (t x : String) (slaves : List Slave) (w : World)
      → any (λ s. s.id == x) slaves ≡ false
      → count_copies t x (fan_out new_id te e account slaves w).copy_orders
        ≡ count_copies t x w.copy_orders
  unfolding fan_out
  fan_out-others t x [] w other = refl
  fan_out-others t x (s ∷ slaves) w other =
      let rest = fan_out-others t x slaves (settle new_id te e account s w) (ground arith) in
      let this : (s.id == x) ≡ false = ground arith in
      elim (settle_cases s w) [
        | inl (there, same) ↦ rest ∙ ap (λ v. count_copies t x v.copy_orders) same
        | inr count ↦ rest ∙ ground (arith, count t x)
      ]

-- The row that the event of a Master gets for each Slave that it is copied to.
abbrev pub IsCopiedOnce : String → World → Slave → Type 0
IsCopiedOnce te w s = count_copies te s.id w.copy_orders ≡ 1

once_of_bounds :
    (te : String) (slaves : List Slave) (w : World)
    → IsUnique w
    → All (λ s. 1 ≤ count_copies te s.id w.copy_orders) slaves
    → All (IsCopiedOnce te w) slaves
once_of_bounds te [] w unique all = tt
once_of_bounds te (s ∷ slaves) w unique (one, rest) =
    (omega (arith, one, unique te s.id), once_of_bounds te slaves w unique rest)

-- the Slaves that an event of the Master is copied to
abbrev pub copied_slaves : World → NormalizedTradeEvent → List Slave
copied_slaves w e = filter_by (is_copied_to e.master_id) w.slaves

module _ (new_id : Slave → String) (late : List TradeEvent) (e : NormalizedTradeEvent)
    (w : World) where
  -- The handler leaves the rows alone, or runs the copies on them.
  handle_master_event_cases :
      ((handle_master_event new_id late e w).copy_orders ≡ w.copy_orders)
      ⊎ ((te : String) × (w' : World) × (w'.copy_orders ≡ w.copy_orders)
          × (handle_master_event new_id late e w
              ≡ fan_out new_id te e
                  (account_of (find_master w e.master_id))
                  (copied_slaves w e)
                  w'))
  unfolding handle_master_event
  handle_master_event_cases = elim (Bool-cases (is_copyable_event e)) [
    | inr other ↦ inl (rw other refl)
    | inl copyable ↦ elim (Option-cases (find_trade_event w.trade_events e.event_id)) [
      | inr (t, stored) ↦ inr (t.id, w, refl, rw (copyable, stored) refl)
      | inl missing ↦ elim (Option-cases (find_trade_event late e.event_id)) [
        | inl gone ↦ inl (rw (copyable, missing, gone) refl)
        | inr (t, stored) ↦
            inr (t.id, record w { trade_events = late }, refl, rw (copyable, missing, stored) refl)
      ]
    ]
  ]

  -- However the copies end, the handler of a Master's event keeps the table free of two rows for the
  -- same trade event and Slave.
  pub handle_master_event-IsUnique : IsUnique w → IsUnique (handle_master_event new_id late e w)
  handle_master_event-IsUnique unique = elim handle_master_event_cases [
    | inl same ↦ λ t x. rw same (unique t x)
    | inr (te, w', same, after) ↦
        let before : IsUnique w' = λ t x. rw same (unique t x) in
        rw after (fan_out-IsUnique new_id te e _ (copied_slaves w e) w' before)
  ]

  -- When an OPEN, CLOSE or MODIFY event is stored and no trade event has two rows for a Slave, then
  -- after the handler every Slave of the event's Master that has copying enabled and is not DISABLED
  -- has exactly one row for the event, whichever of the copies failed.
  pub handle_master_event-IsCopiedOnce :
      (t : TradeEvent)
      → is_copyable_event e ≡ true
      → find_trade_event w.trade_events e.event_id ≡ some t
      → IsUnique w
      → All (IsCopiedOnce t.id (handle_master_event new_id late e w)) (copied_slaves w e)
  unfolding handle_master_event
  handle_master_event-IsCopiedOnce t copyable stored unique =
      let account = account_of (find_master w e.master_id) in
      let slaves = copied_slaves w e in
      rw (copyable, stored)
        (once_of_bounds t.id slaves (fan_out new_id t.id e account slaves w)
          (fan_out-IsUnique new_id t.id e account slaves w unique)
          (fan_out-has new_id t.id e account slaves w))

  -- A Slave that the event is not copied to, because it follows another Master, has copying disabled
  -- or is DISABLED, has as many rows for each trade event as before.
  pub handle_master_event-others :
      (t x : String)
      → any (λ s. s.id == x) (copied_slaves w e) ≡ false
      → count_copies t x (handle_master_event new_id late e w).copy_orders
        ≡ count_copies t x w.copy_orders
  handle_master_event-others t x other = elim handle_master_event_cases [
    | inl same ↦ ap (count_copies t x) same
    | inr (te, w', same, after) ↦ rw after (
        fan_out-others new_id te e (account_of (find_master w e.master_id)) t x (copied_slaves w e)
          w' other
        ∙ ap (count_copies t x) same)
  ]
