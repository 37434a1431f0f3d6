-- ===== src/Dashboard/SlaveDetailPage.antt =====
-- frontend/src/pages/SlaveDetailPage.tsx: the form of a Slave, its save and the pause button.
-- `text` is the JSON text of a Decimal column, and `number_of` what Number makes of a text, `none` where
-- that is NaN.
pub mod Saving
pub mod Emptied
pub mod Pausing
use forex_remote_copy_tradin.Types.{Connector}
use forex_remote_copy_tradin.Slaves.Routes.{get_slave}
use forex_remote_copy_tradin.Auth.{Tokens}
use forex_remote_copy_tradin.Dashboard.Api.{Session, Fetched, body, undefined, api_error, api_fetch}
use forex_remote_copy_tradin.Dashboard.Polling.{Polled, settled, refetched}
use forex_remote_copy_tradin.Prelude.{
  ℕ, String, Bool, true, false, not, Option, none, some, option_map, truthy, ◌==◌, List,
}
use forex_remote_copy_tradin.Prelude.Int.{pos}
use forex_remote_copy_tradin.Number.{Number, of_int}
use forex_remote_copy_tradin.Types.{CopyMode, Slave}
use forex_remote_copy_tradin.World.{World}
use forex_remote_copy_tradin.Slaves.Config.Parsing.{
  Field, absent, null, number, UpdateSlaveBody, parse_update,
}
use forex_remote_copy_tradin.Slaves.Routes.{patch_slave}

-- the fields of `form` that the page edits or saves; a null column is `none`
pub record SlaveForm : Type 0 where
  pub copy_mode : CopyMode
  pub multiplier : Option String
  pub fixed_lot : Option String
  pub min_lot : Option String
  pub max_lot : Option String
  pub lot_step : Option String
  pub emergency_stop : Bool
  pub max_positions : Option Field
  pub max_exposure : Option String

-- what a JSON body has for a number of JavaScript
abbrev json_number : Option Number → Field
json_number none = null
json_number (some n) = number n

-- the form of a Slave that was loaded
abbrev pub seeded : (Number → String) → Slave → SlaveForm
seeded text s = record {
  copy_mode = s.copy_mode;
  multiplier = some (text s.multiplier);
  fixed_lot = option_map text s.fixed_lot;
  min_lot = some (text s.min_lot);
  max_lot = some (text s.max_lot);
  lot_step = some (text s.lot_step);
  emergency_stop = s.emergency_stop;
  max_positions = option_map (λ n. number (of_int (pos n))) s.max_positions;
  max_exposure = option_map text s.max_exposure;
}

-- `form.maxPositions ?? undefined`
abbrev entered_count : Option Field → Field
entered_count none = absent
entered_count (some n) = n

module _ (number_of : String → Option Number) where
  -- the input of Max Positions: `value ? Number(value) : null`
  abbrev enter_max_positions : String → SlaveForm → SlaveForm
  unfolding truthy
  enter_max_positions value form = record form {
    max_positions = option_map (λ v. json_number (number_of v)) (truthy (some value));
  }

  -- `form.x ? Number(form.x) : undefined`
  abbrev entered : Option String → Field
  unfolding truthy
  entered value = elim (truthy value) [ none ↦ absent | some v ↦ json_number (number_of v) ]

  unfoldable pub save_body : SlaveForm → UpdateSlaveBody
  unfolding truthy
  save_body form = record {
    copy_enabled = none;
    copy_mode = some form.copy_mode;
    fixed_lot = entered form.fixed_lot;
    multiplier = entered form.multiplier;
    min_lot = entered form.min_lot;
    max_lot = entered form.max_lot;
    lot_step = entered form.lot_step;
    emergency_stop = some form.emergency_stop;
    max_positions = entered_count form.max_positions;
    max_exposure = entered form.max_exposure;
  }

  -- what the page says after the request: an ApiError is caught
  abbrev save_message : Fetched Slave → String
  save_message (body s) = "Saved."
  save_message undefined = "Saved."
  save_message (api_error status) = "Failed to save."

  abbrev pub saved : World × (Session × Fetched Slave) → World × (Session × String)
  saved (w, (session, answer)) = (w, (session, save_message answer))

  -- A save: the request with the guard before its route, the session after it, and the message.
  -- The refetch that follows a success is polled_slave.
  unfoldable pub save :
      Tokens
      → (ℕ → Number → Number)
      → String
      → SlaveForm
      → Option String
      → World
      → Session
      → World × (Session × String)
  unfolding save_body patch_slave parse_update api_fetch
  save tokens numeric id form ip w session =
      saved (api_fetch tokens (patch_slave numeric id (parse_update (save_body form)) ip) w session)

-- the body of the pause button
abbrev pause_body : Slave → UpdateSlaveBody
pause_body s = record {
  copy_enabled = some (not s.copy_enabled);
  copy_mode = none;
  fixed_lot = absent;
  multiplier = absent;
  min_lot = absent;
  max_lot = absent;
  lot_step = absent;
  emergency_stop = none;
  max_positions = absent;
  max_exposure = absent;
}

-- what `usePolling` has of GET /api/slaves/:id
abbrev pub SlavePage : Type 0
SlavePage = Polled (Slave × List Connector)

module _ (tokens : Tokens) (message : ℕ → String) where
  abbrev pub polled :
      SlavePage → World × (Session × Fetched (Slave × List Connector)) → Session × SlavePage
  unfolding refetched
  polled p (w, (session, answer)) = (session, refetched (settled message answer) p)

  -- a call of refetch of the page
  unfoldable pub polled_slave : String → World → Session × SlavePage → Session × SlavePage
  unfolding get_slave refetched api_fetch
  polled_slave id w (session, p) = polled p (api_fetch tokens (λ v. (v, get_slave id v)) w session)

  -- after the request of togglePause: an ApiError is thrown, and there is no refetch
  abbrev pub toggled :
      String → SlavePage → World × (Session × Fetched Slave) → World × (Session × SlavePage)
  unfolding polled_slave
  toggled id p (w, (session, body s)) = (w, polled_slave id w (session, p))
  toggled id p (w, (session, undefined)) = (w, polled_slave id w (session, p))
  toggled id p (w, (session, api_error status)) = (w, (session, p))

  -- togglePause of a page that shows a Slave
  unfoldable pub toggle_pause :
      (ℕ → Number → Number)
      → Slave
      → Option String
      → World
      → Session × SlavePage
      → World × (Session × SlavePage)
  unfolding polled_slave patch_slave parse_update api_fetch
  toggle_pause numeric s ip w (session, p) =
      toggled s.id p
        (api_fetch tokens (patch_slave numeric s.id (parse_update (pause_body s)) ip) w session)
