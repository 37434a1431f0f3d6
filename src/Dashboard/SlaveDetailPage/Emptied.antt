-- ===== src/Dashboard/SlaveDetailPage/Emptied.antt =====
-- What a save of the form does to a limit whose input was emptied.
use forex_remote_copy_tradin.Prelude.{
  ℕ, String, ◌≡◌, refl, ap, Option, none, some, truthy, option_bind, inl, inr, Option-cases, subst,
  sym,
}
use forex_remote_copy_tradin.Number.{Number}
use forex_remote_copy_tradin.Types.{Slave}
use forex_remote_copy_tradin.World.{World}
use forex_remote_copy_tradin.Auth.{Tokens, require_admin_auth}
use forex_remote_copy_tradin.Dashboard.Api.{Session, authorization}
use forex_remote_copy_tradin.Dashboard.Api.Requests.{fetch-open, fetch-shut}
use forex_remote_copy_tradin.Slaves.Config.{UpdateSlaveInput, updated}
use forex_remote_copy_tradin.Slaves.Config.Parsing.{
  positive_field, absent, UpdateSlaveBody, parse_update,
}
use forex_remote_copy_tradin.Slaves.Routes.{find_slave, patch_slave}
use forex_remote_copy_tradin.Slaves.Routes.Audited.{found_updated}
use forex_remote_copy_tradin.Dashboard.SlaveDetailPage.{
  SlaveForm, entered, entered_count, save_body, saved, save,
}

-- The input, where there is one, has no fixed lot and no limit.
abbrev IsSilent : Option UpdateSlaveInput → Type 0
IsSilent none = Unit
IsSilent (some c) =
    (c.config.fixed_lot ≡ none) × (c.config.max_positions ≡ none) × (c.config.max_exposure ≡ none)

IsSilent-bind {ℓ} :
    {A : Type ℓ} (m : Option A) (f : A → Option UpdateSlaveInput)
    → ((a : A) → IsSilent (f a))
    → IsSilent (option_bind m f)
IsSilent-bind none f h = tt
IsSilent-bind (some a) f h = h a

IsSilent-parse :
    (b : UpdateSlaveBody)
    → b.fixed_lot ≡ absent
    → b.max_positions ≡ absent
    → b.max_exposure ≡ absent
    → IsSilent (parse_update b)
unfolding parse_update
IsSilent-parse b lot positions exposure =
    rw (parse_update, lot, positions, exposure)
      (IsSilent-bind (positive_field b.multiplier) _ λ m.
        IsSilent-bind (positive_field b.min_lot) _ λ l.
          IsSilent-bind (positive_field b.max_lot) _
            λ u. IsSilent-bind (positive_field b.lot_step) _ λ t. (refl, refl, refl))

-- The three columns that the form cannot empty.
pub record HasSameLimits (s t : Slave) : Type 0 where
  pub fixed_lot : t.fixed_lot ≡ s.fixed_lot
  pub max_positions : t.max_positions ≡ s.max_positions
  pub max_exposure : t.max_exposure ≡ s.max_exposure

updated-HasSameLimits :
    (numeric : ℕ → Number → Number) (c : UpdateSlaveInput) (s : Slave)
    → IsSilent (some c)
    → HasSameLimits s (updated numeric c s)
unfolding updated
updated-HasSameLimits numeric c s (lot, positions, exposure) = record {
  fixed_lot = rw lot refl;
  max_positions = rw positions refl;
  max_exposure = rw exposure refl;
}

-- The row that the table has for the Slave after the request.
patched-HasSameLimits :
    (numeric : ℕ → Number → Number) (id : String) (parsed : Option UpdateSlaveInput)
    (ip : Option String) (w : World) (s : Slave)
    → find_slave w.slaves id ≡ some s
    → IsSilent parsed
    → (t : Slave) × (find_slave (patch_slave numeric id parsed ip w).0.slaves id ≡ some t)
      × HasSameLimits s t
unfolding patch_slave
patched-HasSameLimits numeric id none ip w s found silent =
    (s, found, record { fixed_lot = refl; max_positions = refl; max_exposure = refl })
patched-HasSameLimits numeric id (some c) ip w s found silent = (
  updated numeric c s,
  rw (patch_slave, found) (found_updated (updated numeric c) id w.slaves s (λ t. refl) found),
  updated-HasSameLimits numeric c s silent,
)

entered-empty :
    (number_of : String → Option Number) (value : Option String)
    → truthy value ≡ none
    → entered number_of value ≡ absent
unfolding truthy
entered-empty number_of value h = rw (entered, h) refl

-- A save of a form in which the fixed lot, the limit on the positions and the limit on the exposure are
-- empty leaves all three of the Slave as they were, whatever the session: the page cannot remove them.
pub save-HasSameLimits :
    (number_of : String → Option Number) (tokens : Tokens) (numeric : ℕ → Number → Number)
    (id : String) (form : SlaveForm) (ip : Option String) (w : World) (session : Session)
    (s : Slave)
    → find_slave w.slaves id ≡ some s
    → truthy form.fixed_lot ≡ none
    → form.max_positions ≡ none
    → truthy form.max_exposure ≡ none
    → (t : Slave) × (find_slave (save number_of tokens numeric id form ip w session).0.slaves id
        ≡ some t)
      × HasSameLimits s t
unfolding save save_body
save-HasSameLimits number_of tokens numeric id form ip w session s found lot positions exposure =
    let route = patch_slave numeric id (parse_update (save_body number_of form)) ip in
    elim (Option-cases (require_admin_auth tokens (authorization session) none w.now)) [
      | inl unknown ↦ (
        s,
        subst (λ r. find_slave r.0.slaves id ≡ some s)
            (sym (ap (saved number_of) (fetch-shut tokens route session w unknown))) found,
        record { fixed_lot = refl; max_positions = refl; max_exposure = refl },
      )
      | inr (p, known) ↦
          subst (λ r. (t : Slave) × (find_slave r.0.slaves id ≡ some t) × HasSameLimits s t)
            (sym (ap (saved number_of) (fetch-open tokens route session p w known)))
            (patched-HasSameLimits numeric id (parse_update (save_body number_of form)) ip w s found
              (IsSilent-parse (save_body number_of form)
                (entered-empty number_of form.fixed_lot lot) (ap entered_count positions)
                (entered-empty number_of form.max_exposure exposure)))
    ]
