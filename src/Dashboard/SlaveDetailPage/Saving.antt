-- ===== src/Dashboard/SlaveDetailPage/Saving.antt =====
-- What a save of the form does to the Slave.
use forex_remote_copy_tradin.Prelude.{
  ℕ, ◌<◌, String, true, false, ◌≡◌, refl, ◌∙◌, ap, Option, none, some, arith, option_map, or_else,
  truthy, ◌==◌, ◌⊎◌, inl, inr, Option-cases,
}
use forex_remote_copy_tradin.Prelude.Int.{pos}
use forex_remote_copy_tradin.Number.{Number, of_int}
use forex_remote_copy_tradin.Types.{Slave}
use forex_remote_copy_tradin.World.{World}
use forex_remote_copy_tradin.Auth.{AdminTokenPayload, Tokens, require_admin_auth}
use forex_remote_copy_tradin.Dashboard.Api.{Session, logout, authorization, fetched}
use forex_remote_copy_tradin.Dashboard.Api.Requests.{fetch-open, fetch-shut}
use forex_remote_copy_tradin.Http.{sent}
use forex_remote_copy_tradin.Slaves.Config.{UpdateSlaveInput, updated}
use forex_remote_copy_tradin.Slaves.Config.Parsing.{
  number, is_positive, positive_field, count_field, parse_update,
}
use forex_remote_copy_tradin.Slaves.Routes.{find_slave, patch_slave}
use forex_remote_copy_tradin.Slaves.Routes.Audited.{found_updated}
use forex_remote_copy_tradin.Dashboard.SlaveDetailPage.{
  seeded, entered, entered_count, save_body, saved, save,
}

-- A number that the form shows, that a body carries and that the database stores comes back as it was.
pub record IsKept (numeric : ℕ → Number → Number) (text : Number → String)
    (number_of : String → Option Number) (digits : ℕ) (n : Number) : Type 0 where
  pub shown : (text n == "") ≡ false
  pub read : number_of (text n) ≡ some n
  pub stored : numeric digits n ≡ n
  pub positive : is_positive n ≡ true

module _ (numeric : ℕ → Number → Number) (text : Number → String)
    (number_of : String → Option Number) where
  abbrev pub IsKeptOption : ℕ → Option Number → Type 0
  IsKeptOption digits none = Unit
  IsKeptOption digits (some n) = IsKept numeric text number_of digits n

  abbrev pub IsCount : Option ℕ → Type 0
  IsCount none = Unit
  IsCount (some n) = 0 < n

  -- The numbers of the Slave that the form edits.
  pub record IsEditable (s : Slave) : Type 0 where
    pub multiplier : IsKept numeric text number_of 4 s.multiplier
    pub fixed_lot : IsKeptOption 2 s.fixed_lot
    pub min_lot : IsKept numeric text number_of 2 s.min_lot
    pub max_lot : IsKept numeric text number_of 2 s.max_lot
    pub lot_step : IsKept numeric text number_of 2 s.lot_step
    pub max_positions : IsCount s.max_positions
    pub max_exposure : IsKeptOption 2 s.max_exposure

  -- The field of a number that is kept is accepted with that number.
  entered-kept :
      (digits : ℕ) (n : Number)
      → IsKept numeric text number_of digits n
      → positive_field (entered number_of (some (text n))) ≡ some (some n)
  unfolding truthy
  entered-kept digits n k = rw (positive_field, entered, truthy, k.shown, k.read, k.positive) refl

  entered-kept_option :
      (digits : ℕ) (o : Option Number)
      → IsKeptOption digits o
      → positive_field (entered number_of (option_map text o)) ≡ some o
  unfolding truthy
  entered-kept_option digits none k = refl
  entered-kept_option digits (some n) k = entered-kept digits n k

  entered-count :
      (o : Option ℕ)
      → IsCount o
      → count_field (entered_count (option_map (λ n. number (of_int (pos n))) o)) ≡ some o
  entered-count none k = refl
  entered-count (some n) k = ground arith

  -- the input of a save that edits nothing
  abbrev same_input : Slave → UpdateSlaveInput
  same_input s = record {
    copy_enabled = none;
    config = record {
      copy_mode = some s.copy_mode;
      fixed_lot = s.fixed_lot;
      multiplier = some s.multiplier;
      min_lot = some s.min_lot;
      max_lot = some s.max_lot;
      lot_step = some s.lot_step;
      emergency_stop = some s.emergency_stop;
      allowed_symbols = none;
      blocked_symbols = none;
      max_positions = s.max_positions;
      max_exposure = s.max_exposure;
    };
  }

  parsed_seed :
      (s : Slave)
      → IsEditable s
      → parse_update (save_body number_of (seeded text s)) ≡ some (same_input s)
  unfolding parse_update save_body
  parsed_seed s e =
      rw
        (
          parse_update,
          save_body,
          entered-kept_option 2 s.fixed_lot e.fixed_lot,
          entered-kept 4 s.multiplier e.multiplier,
          entered-kept 2 s.min_lot e.min_lot,
          entered-kept 2 s.max_lot e.max_lot,
          entered-kept 2 s.lot_step e.lot_step,
          entered-count s.max_positions e.max_positions,
          entered-kept_option 2 s.max_exposure e.max_exposure,
        )
        refl

  stored_option : (o : Option Number) → IsKeptOption 2 o → or_else (option_map (numeric 2) o) o ≡ o
  stored_option none k = refl
  stored_option (some n) k = ap some k.stored

  stored_count : (o : Option ℕ) → or_else o o ≡ o
  stored_count none = refl
  stored_count (some n) = refl

  updated-same : (s : Slave) → IsEditable s → updated numeric (same_input s) s ≡ s
  unfolding updated
  updated-same s e = λ i. record s {
    fixed_lot = stored_option s.fixed_lot e.fixed_lot i;
    multiplier = e.multiplier.stored i;
    min_lot = e.min_lot.stored i;
    max_lot = e.max_lot.stored i;
    lot_step = e.lot_step.stored i;
    max_positions = stored_count s.max_positions i;
    max_exposure = stored_option s.max_exposure e.max_exposure i;
  }

  -- A form that is loaded from a Slave and saved without an edit, where the Slave's numbers are positive
  -- and survive the way through text, JSON and column. With a token that the guard accepts, the save
  -- leaves the Slave and the session as they are and says "Saved.". With none, or one that is not
  -- accepted, it leaves the backend as it is, logs the dashboard out and says "Failed to save.".
  pub seeded-save :
      (tokens : Tokens) (id : String) (ip : Option String) (w : World) (session : Session)
      (s : Slave)
      → find_slave w.slaves id ≡ some s
      → IsEditable s
      → ((p : AdminTokenPayload) × (require_admin_auth tokens (authorization session) none w.now
            ≡ some p)
          × (find_slave (save number_of tokens numeric id (seeded text s) ip w session).0.slaves id
              ≡ some s)
          × ((save number_of tokens numeric id (seeded text s) ip w session).1
              ≡ (session, "Saved.")))
        ⊎ ((require_admin_auth tokens (authorization session) none w.now ≡ none)
            × (save number_of tokens numeric id (seeded text s) ip w session
                ≡ (w, (logout session, "Failed to save."))))
  unfolding save patch_slave
  seeded-save tokens id ip w session s found e =
      let route = patch_slave numeric id (parse_update (save_body number_of (seeded text s))) ip in
      elim (Option-cases (require_admin_auth tokens (authorization session) none w.now)) [
        | inl unknown ↦
            inr (unknown, ap (saved number_of) (fetch-shut tokens route session w unknown))
        | inr (p, known) ↦
            let row : find_slave (route w).0.slaves id ≡ some s =
              rw (parsed_seed s e, patch_slave, found)
                (found_updated (updated numeric (same_input s)) id w.slaves s (λ t. refl) found
                  ∙ ap some (updated-same s e)) in
            let reply : (route w).1 ≡ sent (updated numeric (same_input s) s) =
              rw (parsed_seed s e, patch_slave, found) refl in
            let done : save number_of tokens numeric id (seeded text s) ip w session
                ≡ saved number_of ((route w).0, fetched (route w).1 session) =
              ap (saved number_of) (fetch-open tokens route session p w known) in
            inl (
              p,
              known,
              ap (λ r. find_slave r.0.slaves id) done ∙ row,
              ap (λ r. r.1) done ∙ ap (λ r. (saved number_of (w, fetched r session)).1) reply,
            )
      ]
