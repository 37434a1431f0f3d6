-- ===== src/Slaves/Routes/Audited.antt =====
-- What the audit log keeps of a PATCH.
use forex_remote_copy_tradin.Prelude.{
  ℕ, String, ◌≡◌, refl, ap, ◌∙◌, Option, none, some, List, [], ◌∷◌, inl, inr, arith, update_where,
  Bool-cases, get_or, option_map, ◌==◌,
}
use forex_remote_copy_tradin.Number.{Number}
use forex_remote_copy_tradin.Types.{Slave, SlaveFields, fields}
use forex_remote_copy_tradin.World.{World}
use forex_remote_copy_tradin.Audit.{admin_entry}
use forex_remote_copy_tradin.Slaves.Config.{UpdateSlaveInput, updated, pick}
use forex_remote_copy_tradin.Slaves.Routes.{find_slave, entity_of, patch_slave}

-- The row with the values of some columns put back.
abbrev pub restored : SlaveFields → Slave → Slave
restored f s = record s {
  copy_enabled = get_or f.copy_enabled s.copy_enabled;
  copy_mode = get_or f.copy_mode s.copy_mode;
  fixed_lot = get_or f.fixed_lot s.fixed_lot;
  multiplier = get_or f.multiplier s.multiplier;
  min_lot = get_or f.min_lot s.min_lot;
  max_lot = get_or f.max_lot s.max_lot;
  lot_step = get_or f.lot_step s.lot_step;
  emergency_stop = get_or f.emergency_stop s.emergency_stop;
  allowed_symbols = get_or f.allowed_symbols s.allowed_symbols;
  blocked_symbols = get_or f.blocked_symbols s.blocked_symbols;
  max_positions = get_or f.max_positions s.max_positions;
  max_exposure = get_or f.max_exposure s.max_exposure;
}

-- Of a key that is in the request the value is put back; one that is not has the value still.
put_back {ℓ κ} :
    {A : Type ℓ} {B : Type κ} (key : Option A) (x y : B)
    → (key ≡ none → y ≡ x)
    → get_or (option_map (λ _. x) key) y ≡ x
put_back none x y same = same refl
put_back (some a) x y same = refl

module _ (numeric : ℕ → Number → Number) (c : UpdateSlaveInput) (s : Slave) where
  undone : restored (pick c s) (updated numeric c s) ≡ s
  unfolding updated pick
  undone = λ i. record s {
    copy_enabled =
        put_back c.copy_enabled s.copy_enabled (updated numeric c s).copy_enabled (λ h. rw h refl)
          i;
    copy_mode =
        put_back c.config.copy_mode s.copy_mode (updated numeric c s).copy_mode (λ h. rw h refl) i;
    fixed_lot =
        put_back c.config.fixed_lot s.fixed_lot (updated numeric c s).fixed_lot (λ h. rw h refl) i;
    multiplier =
        put_back c.config.multiplier s.multiplier (updated numeric c s).multiplier (λ h. rw h refl)
          i;
    min_lot = put_back c.config.min_lot s.min_lot (updated numeric c s).min_lot (λ h. rw h refl) i;
    max_lot = put_back c.config.max_lot s.max_lot (updated numeric c s).max_lot (λ h. rw h refl) i;
    lot_step =
        put_back c.config.lot_step s.lot_step (updated numeric c s).lot_step (λ h. rw h refl) i;
    emergency_stop =
        put_back c.config.emergency_stop s.emergency_stop (updated numeric c s).emergency_stop
          (λ h. rw h refl) i;
    allowed_symbols =
        put_back c.config.allowed_symbols s.allowed_symbols (updated numeric c s).allowed_symbols
          (λ h. rw h refl) i;
    blocked_symbols =
        put_back c.config.blocked_symbols s.blocked_symbols (updated numeric c s).blocked_symbols
          (λ h. rw h refl) i;
    max_positions =
        put_back c.config.max_positions s.max_positions (updated numeric c s).max_positions
          (λ h. rw h refl) i;
    max_exposure =
        put_back c.config.max_exposure s.max_exposure (updated numeric c s).max_exposure
          (λ h. rw h refl) i;
  }

  redone : restored (pick c (updated numeric c s)) s ≡ updated numeric c s
  unfolding updated pick
  redone = λ i. record s {
    copy_enabled =
        put_back c.copy_enabled (updated numeric c s).copy_enabled s.copy_enabled (λ h. rw h refl)
          i;
    copy_mode =
        put_back c.config.copy_mode (updated numeric c s).copy_mode s.copy_mode (λ h. rw h refl) i;
    fixed_lot =
        put_back c.config.fixed_lot (updated numeric c s).fixed_lot s.fixed_lot (λ h. rw h refl) i;
    multiplier =
        put_back c.config.multiplier (updated numeric c s).multiplier s.multiplier (λ h. rw h refl)
          i;
    min_lot = put_back c.config.min_lot (updated numeric c s).min_lot s.min_lot (λ h. rw h refl) i;
    max_lot = put_back c.config.max_lot (updated numeric c s).max_lot s.max_lot (λ h. rw h refl) i;
    lot_step =
        put_back c.config.lot_step (updated numeric c s).lot_step s.lot_step (λ h. rw h refl) i;
    emergency_stop =
        put_back c.config.emergency_stop (updated numeric c s).emergency_stop s.emergency_stop
          (λ h. rw h refl) i;
    allowed_symbols =
        put_back c.config.allowed_symbols (updated numeric c s).allowed_symbols s.allowed_symbols
          (λ h. rw h refl) i;
    blocked_symbols =
        put_back c.config.blocked_symbols (updated numeric c s).blocked_symbols s.blocked_symbols
          (λ h. rw h refl) i;
    max_positions =
        put_back c.config.max_positions (updated numeric c s).max_positions s.max_positions
          (λ h. rw h refl) i;
    max_exposure =
        put_back c.config.max_exposure (updated numeric c s).max_exposure s.max_exposure
          (λ h. rw h refl) i;
  }

-- The row that a table has for the Slave after the update of its rows.
pub found_updated :
    (f : Slave → Slave) (id : String) (slaves : List Slave) (s : Slave)
    → ((t : Slave) → (f t).id ≡ t.id)
    → find_slave slaves id ≡ some s
    → find_slave (update_where (λ t. t.id == id) f slaves) id ≡ some (f s)
found_updated f id [] s keeps found = absurd (cc)
found_updated f id (t ∷ slaves) s keeps found = elim (Bool-cases (t.id == id)) [
  | inl here ↦ ground (arith, keeps t)
  | inr other ↦ rw (other, other) (found_updated f id slaves s keeps (rw other at found))
]

-- A PATCH of a Slave that exists adds one entry to the audit log, with the old and the new values of
-- some columns. The new values put into the old row give the row that the table has afterwards, and the
-- old values put into that row give the old row again.
pub patch_slave-IsUndoable :
    (numeric : ℕ → Number → Number) (id : String) (c : UpdateSlaveInput) (ip : Option String)
    (w : World) (s : Slave)
    → find_slave w.slaves id ≡ some s
    → (old : SlaveFields) × (new : SlaveFields) × ((patch_slave numeric id
          (some c)
          ip
          w).0.audit_logs
        ≡ admin_entry "SLAVE_UPDATED" (entity_of id) (some (fields old)) (some (fields new)) ip
          ∷ w.audit_logs)
      × (find_slave (patch_slave numeric id (some c) ip w).0.slaves id ≡ some (restored new s))
      × (restored old (restored new s) ≡ s)
unfolding patch_slave
patch_slave-IsUndoable numeric id c ip w s found = (
  pick c s,
  pick c (updated numeric c s),
  rw (patch_slave, found) refl,
  rw (patch_slave, found, redone numeric c s)
      (found_updated (updated numeric c) id w.slaves s (λ t. refl) found),
  ap (restored (pick c s)) (redone numeric c s) ∙ undone numeric c s,
)
