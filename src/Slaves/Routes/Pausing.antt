-- ===== src/Slaves/Routes/Pausing.antt =====
-- PATCH /api/slaves/:id with copyEnabled, and the events after it.
use forex_remote_copy_tradin.Prelude.{
  ℕ, String, false, ◌≡◌, refl, Option, some, List, [], ◌∷◌, inl, inr, arith, any, filter_by,
  update_where, Bool-cases, ◌==◌,
}
use forex_remote_copy_tradin.Number.{Number}
use forex_remote_copy_tradin.Types.{Slave, TradeEvent, NormalizedTradeEvent}
use forex_remote_copy_tradin.World.{World}
use forex_remote_copy_tradin.CopyEngine.Dispatch.Counts.{count_copies}
use forex_remote_copy_tradin.CopyEngine.Fanout.{is_copied_to, handle_master_event}
use forex_remote_copy_tradin.CopyEngine.Fanout.Laws.{handle_master_event-others}
use forex_remote_copy_tradin.Slaves.Config.{UpdateSlaveInput, updated}
use forex_remote_copy_tradin.Slaves.Routes.{find_slave, patch_slave}

module _ (numeric : ℕ → Number → Number) (id : String) (c : UpdateSlaveInput) where
  paused_is_not_copied_to :
      (master_id : String) (slaves : List Slave)
      → c.copy_enabled ≡ some false
      → any
          (λ s. s.id == id)
          (filter_by
            (is_copied_to master_id)
            (update_where (λ s. s.id == id) (updated numeric c) slaves))
        ≡ false
  unfolding updated
  paused_is_not_copied_to master_id [] off = refl
  paused_is_not_copied_to master_id (s ∷ slaves) off =
      let rest = paused_is_not_copied_to master_id slaves off in
      elim (Bool-cases (s.id == id)) [
        | inl here ↦ rw (here, off) ground (arith, rest)
        | inr other ↦ rw other (ground (arith, rest))
      ]

  -- After a PATCH that sets copyEnabled to false for a Slave that exists, no event, of whichever Master,
  -- creates a copy order for that Slave.
  pub patch_slave-handle_master_event :
      (ip : Option String) (w : World) (s : Slave) (new_id : Slave → String)
      (late : List TradeEvent) (e : NormalizedTradeEvent) (t : String)
      → find_slave w.slaves id ≡ some s
      → c.copy_enabled ≡ some false
      → count_copies t id
          (handle_master_event new_id late e (patch_slave numeric id (some c) ip w).0).copy_orders
        ≡ count_copies t id w.copy_orders
  unfolding patch_slave
  patch_slave-handle_master_event ip w s new_id late e t found off =
      rw (patch_slave, found)
        (handle_master_event-others new_id late e _ t id
          (paused_is_not_copied_to e.master_id w.slaves off))
