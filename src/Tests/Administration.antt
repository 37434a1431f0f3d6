-- ===== src/Tests/Administration.antt =====
-- The admin API and the dashboard at concrete inputs.
use forex_remote_copy_tradin.Auth.{AdminTokenPayload, require_admin_auth}
use forex_remote_copy_tradin.Dashboard.Api.{Session, provider, logout, authorization}
use forex_remote_copy_tradin.Prelude.{◌⊎◌}
use forex_remote_copy_tradin.Prelude.{
  ℕ, String, true, false, ◌≡◌, refl, none, some, List, [], ◌∷◌, arith, truthy,
}
use forex_remote_copy_tradin.Number.{cents}
use forex_remote_copy_tradin.Http.{Reply}
use forex_remote_copy_tradin.Types.{Slave, Connector, SlaveFields, fields}
use forex_remote_copy_tradin.World.{World}
use forex_remote_copy_tradin.Audit.{admin_entry}
use forex_remote_copy_tradin.Tests.Data.{slave_mt5, start, opened}
use forex_remote_copy_tradin.CopyEngine.Dispatch.Counts.{count_copies}
use forex_remote_copy_tradin.CopyEngine.Fanout.{handle_master_event}
use forex_remote_copy_tradin.Slaves.Config.{UpdateSlaveInput}
use forex_remote_copy_tradin.Slaves.Routes.{find_slave, entity_of, patch_slave, get_slaves}
use forex_remote_copy_tradin.Slaves.Routes.Pausing.{patch_slave-handle_master_event}
use forex_remote_copy_tradin.Slaves.Routes.Audited.{restored, patch_slave-IsUndoable}
use forex_remote_copy_tradin.Auth.{create_admin}
use forex_remote_copy_tradin.Dashboard.Api.{logout, api_error, fetched, api_fetch, log_in}
use forex_remote_copy_tradin.Dashboard.Api.Requests.{log_in-api_fetch}
use forex_remote_copy_tradin.Dashboard.SlaveDetailPage.{SlaveForm, seeded, save}
use forex_remote_copy_tradin.Dashboard.SlaveDetailPage.Saving.{seeded-save}
use forex_remote_copy_tradin.Dashboard.SlaveDetailPage.Emptied.{HasSameLimits, save-HasSameLimits}
use forex_remote_copy_tradin.Tests.AdminData.{
  exact, plain, signing, with_boss, logged_out, text, number_of,
}

abbrev pause : UpdateSlaveInput
pause = record {
  copy_enabled = some false;
  config = record {
    copy_mode = none;
    fixed_lot = none;
    multiplier = some (cents 75);
    min_lot = none;
    max_lot = none;
    lot_step = none;
    emergency_stop = none;
    allowed_symbols = none;
    blocked_symbols = none;
    max_positions = some 3;
    max_exposure = none;
  };
}

abbrev id_for : Slave → String
id_for s = s.id

patch_slave-handle_master_event_example :
    count_copies "t1" "slave-5"
      (handle_master_event id_for [] opened
        (patch_slave exact "slave-5" (some pause) none start).0).copy_orders
    ≡ 0
patch_slave-handle_master_event_example =
    patch_slave-handle_master_event exact "slave-5" pause none start slave_mt5 id_for [] opened "t1"
      refl refl

patch_slave-IsUndoable_example :
    (old : SlaveFields) × (new : SlaveFields) × ((patch_slave exact "slave-5"
        (some pause)
        (some "10.0.0.1")
        start).0.audit_logs
      ≡ admin_entry "SLAVE_UPDATED"
          (entity_of "slave-5")
          (some (fields old))
          (some (fields new))
          (some "10.0.0.1")
        ∷ [])
    × (find_slave
          (patch_slave exact "slave-5" (some pause) (some "10.0.0.1") start).0.slaves
          "slave-5"
        ≡ some (restored new slave_mt5))
    × (restored old (restored new slave_mt5) ≡ slave_mt5)
patch_slave-IsUndoable_example =
    patch_slave-IsUndoable exact "slave-5" pause (some "10.0.0.1") start slave_mt5 refl

abbrev later : ℕ → World
later now = record with_boss { now = now }

abbrev slaves_route : World → World × Reply (List (Slave × List Connector))
slaves_route w = (w, get_slaves none w)

log_in-api_fetch_example :
    ((log_in plain signing (some ("boss", "pw")) with_boss logged_out).is_authenticated ≡ true)
    × (api_fetch signing slaves_route
          (later 2_000_000)
          (log_in plain signing (some ("boss", "pw")) with_boss logged_out)
        ≡ (
          (slaves_route (later 2_000_000)).0,
          fetched
              (slaves_route (later 2_000_000)).1
              (log_in plain signing (some ("boss", "pw")) with_boss logged_out),
        ))
    × (api_fetch signing slaves_route
          (later 5_000_000)
          (log_in plain signing (some ("boss", "pw")) with_boss logged_out)
        ≡ (
          later 5_000_000,
          (logout (log_in plain signing (some ("boss", "pw")) with_boss logged_out), api_error 401),
        ))
unfolding create_admin
log_in-api_fetch_example =
    log_in-api_fetch plain signing slaves_route logged_out "a1" "" "boss" "pw" start with_boss
      with_boss (later 2_000_000) (later 5_000_000)
      (record {
        not_empty = refl;
        accepted = λ now early. ground arith;
        expired = λ now late. ground arith;
      })
      refl refl (omega arith) (omega arith)

abbrev saved_same : World × (Session × String)
saved_same =
    save number_of signing exact "slave-5" (seeded text slave_mt5) none start
      (provider (some "token"))

seeded-save_example :
    ((p : AdminTokenPayload) × (require_admin_auth signing
          (authorization (provider (some "token")))
          none
          1_000_000
        ≡ some p)
      × (find_slave saved_same.0.slaves "slave-5" ≡ some slave_mt5)
      × (saved_same.1 ≡ (provider (some "token"), "Saved.")))
    ⊎ ((require_admin_auth signing (authorization (provider (some "token"))) none 1_000_000 ≡ none)
        × (saved_same ≡ (start, (logout (provider (some "token")), "Failed to save."))))
seeded-save_example =
    seeded-save exact text number_of signing "slave-5" none start (provider (some "token"))
      slave_mt5 refl
      (record {
        multiplier = record { shown = refl; read = refl; stored = refl; positive = refl };
        fixed_lot = tt;
        min_lot = record { shown = refl; read = refl; stored = refl; positive = refl };
        max_lot = record { shown = refl; read = refl; stored = refl; positive = refl };
        lot_step = record { shown = refl; read = refl; stored = refl; positive = refl };
        max_positions = omega arith;
        max_exposure = record { shown = refl; read = refl; stored = refl; positive = refl };
      })

-- both limits of the Slave are emptied in the form
abbrev emptied : SlaveForm
emptied = record (seeded text slave_mt5) { max_positions = none; max_exposure = some "" }

save-HasSameLimits_example :
    (t : Slave) × (find_slave
        (save number_of signing exact "slave-5" emptied none start
          (provider (some "token"))).0.slaves
        "slave-5"
      ≡ some t)
    × HasSameLimits slave_mt5 t
unfolding truthy
save-HasSameLimits_example =
    save-HasSameLimits number_of signing exact "slave-5" emptied none start
      (provider (some "token")) slave_mt5 refl refl refl refl
