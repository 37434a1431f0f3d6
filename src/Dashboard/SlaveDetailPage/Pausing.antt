-- ===== src/Dashboard/SlaveDetailPage/Pausing.antt =====
-- The pause button, and what the page shows after it.
use forex_remote_copy_tradin.Prelude.{
  ℕ, String, false, ◌≡◌, ◌⊎◌, inl, inr, refl, Option, none, some, not, filter_by, Option-cases, ap,
  ◌∙◌,
}
use forex_remote_copy_tradin.Number.{Number}
use forex_remote_copy_tradin.Types.{Slave}
use forex_remote_copy_tradin.World.{World, is_at}
use forex_remote_copy_tradin.Auth.{AdminTokenPayload, Tokens, require_admin_auth}
use forex_remote_copy_tradin.Http.{sent}
use forex_remote_copy_tradin.Slaves.Config.{UpdateSlaveInput, updated}
use forex_remote_copy_tradin.Slaves.Config.Parsing.{no_config, parse_update}
use forex_remote_copy_tradin.Slaves.Routes.{find_slave, get_slave, patch_slave}
use forex_remote_copy_tradin.Slaves.Routes.Audited.{found_updated}
use forex_remote_copy_tradin.Dashboard.Api.{Session, logout, authorization, fetched}
use forex_remote_copy_tradin.Dashboard.Api.Requests.{fetch-open, fetch-shut}
use forex_remote_copy_tradin.Dashboard.Polling.{refetched}
use forex_remote_copy_tradin.Dashboard.SlaveDetailPage.{
  SlavePage, polled, pause_body, toggled, toggle_pause, polled_slave,
}

-- the input of the button
abbrev pause : Slave → UpdateSlaveInput
pause s = record { copy_enabled = some (not s.copy_enabled); config = no_config }

-- the Slave of the page after the button
abbrev pub flipped : Slave → Slave
flipped s = record s { copy_enabled = not s.copy_enabled }

module _ (tokens : Tokens) (message : ℕ → String) (numeric : ℕ → Number → Number) where
  -- the row after the request
  found_flipped :
      (s : Slave) (ip : Option String) (w : World)
      → find_slave w.slaves s.id ≡ some s
      → find_slave (patch_slave numeric s.id (some (pause s)) ip w).0.slaves s.id ≡ some (flipped s)
  unfolding patch_slave updated
  found_flipped s ip w found =
      rw (patch_slave, found)
        (found_updated (updated numeric (pause s)) s.id w.slaves s (λ t. refl) found)

  -- the request that the guard lets through, and the refetch
  toggled_open :
      (s : Slave) (ip : Option String) (w : World) (session : Session) (p : SlavePage)
      (a : AdminTokenPayload)
      → find_slave w.slaves s.id ≡ some s
      → require_admin_auth tokens (authorization session) none w.now ≡ some a
      → toggle_pause tokens message numeric s ip w (session, p) ≡ (
        (patch_slave numeric s.id (some (pause s)) ip w).0,
        polled_slave tokens message s.id
            (patch_slave numeric s.id (some (pause s)) ip w).0
            (session, p),
      )
  unfolding toggle_pause parse_update patch_slave
  toggled_open s ip w session p a found known =
      let reply : (patch_slave numeric s.id (some (pause s)) ip w).1
          ≡ sent (updated numeric (pause s) s) =
        rw (patch_slave, found) refl in
      ap (toggled tokens message s.id p)
        (fetch-open tokens (patch_slave numeric s.id (some (pause s)) ip) session a w known)
      ∙ ap
          (λ r.
            toggled tokens message s.id p
              ((patch_slave numeric s.id (some (pause s)) ip w).0, fetched r session))
          reply

  polled_open :
      (id : String) (u : World) (session : Session) (p : SlavePage) (a : AdminTokenPayload)
      (s : Slave)
      → find_slave u.slaves id ≡ some s
      → require_admin_auth tokens (authorization session) none u.now ≡ some a
      → polled_slave tokens message id u (session, p) ≡ (
        session,
        record {
          data_shown = some (s, filter_by (λ c. is_at c.slave_id s.id) u.connectors);
          error = none;
          loading = false;
        },
      )
  unfolding polled_slave get_slave refetched
  polled_open id u session p a s found known =
      ap (polled tokens message p) (fetch-open tokens (λ v. (v, get_slave id v)) session a u known)
      ∙ rw (get_slave, found) refl

  -- The pause button on a page that shows a Slave as the table has it. With a token that the guard
  -- accepts, it flips the copyEnabled of the Slave's row and nothing else of it, keeps the session, and
  -- the refetch that follows shows the row, with the Slave's connectors and without an error, whatever
  -- the page had shown. With no token, or one that is not accepted, the backend and what the page shows
  -- stay as they are, and the dashboard is logged out.
  pub toggle_pause-polled_slave :
      (s : Slave) (ip : Option String) (w : World) (session : Session) (p : SlavePage)
      → find_slave w.slaves s.id ≡ some s
      → ((a : AdminTokenPayload) × (require_admin_auth tokens (authorization session) none w.now
            ≡ some a)
          × (find_slave (toggle_pause tokens message numeric s ip w (session, p)).0.slaves s.id
              ≡ some (flipped s))
          × ((toggle_pause tokens message numeric s ip w (session, p)).1 ≡ (
            session,
            record {
              data_shown = some (flipped s, filter_by (λ c. is_at c.slave_id s.id) w.connectors);
              error = none;
              loading = false;
            },
          )))
        ⊎ ((require_admin_auth tokens (authorization session) none w.now ≡ none)
            × (toggle_pause tokens message numeric s ip w (session, p) ≡ (w, (logout session, p))))
  unfolding toggle_pause patch_slave parse_update polled_slave get_slave refetched updated
  toggle_pause-polled_slave s ip w session p found =
      let route = patch_slave numeric s.id (parse_update (pause_body s)) ip in
      elim (Option-cases (require_admin_auth tokens (authorization session) none w.now)) [
        | inl unknown ↦ inr (
          unknown,
          ap (toggled tokens message s.id p) (fetch-shut tokens route session w unknown),
        )
        | inr (a, known) ↦
            let u : World = (patch_slave numeric s.id (some (pause s)) ip w).0 in
            let done = toggled_open s ip w session p a found known in
            let row = found_flipped s ip w found in
            let kept : (u.now ≡ w.now) × (u.connectors ≡ w.connectors) =
              rw (patch_slave, found) (refl, refl) in
            let known_then : require_admin_auth tokens (authorization session) none u.now ≡ some a =
              rw kept.0 known in
            inl (
              a,
              known,
              ap (λ r. find_slave r.0.slaves s.id) done ∙ row,
              ap (λ r. r.1) done
                  ∙ polled_open s.id u session p a (flipped s) row known_then
                  ∙ rw kept.1 refl,
            )
      ]
