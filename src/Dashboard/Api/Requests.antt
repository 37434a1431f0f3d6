-- ===== src/Dashboard/Api/Requests.antt =====
-- From the creation of an administrator to the requests of the dashboard.
use forex_remote_copy_tradin.Prelude.{
  ◌+◌, ◌/◌, ◌<◌, ◌≤◌, String, true, false, ◌==◌, ◌≡◌, refl, none, some, truthy,
}
use forex_remote_copy_tradin.Http.{Reply}
use forex_remote_copy_tradin.World.{World}
use forex_remote_copy_tradin.Auth.{
  AdminTokenPayload, Passwords, Tokens, IsSigned, create_admin, require_admin_auth, guarded,
}
use forex_remote_copy_tradin.Auth.Session.{
  create_admin-find, accepted_in_header, refused_in_header, logged_in,
}
use forex_remote_copy_tradin.Dashboard.Api.{
  Session, logout, api_error, fetched, authorization, api_fetch, log_in,
}

module _ {ℓ} {A : Type ℓ} (tokens : Tokens) (route : World → World × Reply A) (s : Session) where
  -- the guard lets the request through
  pub fetch-open :
      (p : AdminTokenPayload) (u : World)
      → require_admin_auth tokens (authorization s) none u.now ≡ some p
      → api_fetch tokens route u s ≡ ((route u).0, fetched (route u).1 s)
  unfolding api_fetch guarded
  fetch-open p u known = rw (api_fetch, guarded, known) refl

  -- the guard refuses it
  pub fetch-shut :
      (u : World)
      → require_admin_auth tokens (authorization s) none u.now ≡ none
      → api_fetch tokens route u s ≡ (u, (logout s, api_error 401))
  unfolding api_fetch guarded
  fetch-shut u unknown = rw (api_fetch, guarded, unknown) refl

  fetch-accepted :
      (token : String) (p : AdminTokenPayload) (u : World)
      → s.token ≡ some token
      → (token == "") ≡ false
      → tokens.verify u.now token ≡ some p
      → api_fetch tokens route u s ≡ ((route u).0, fetched (route u).1 s)
  unfolding truthy
  fetch-accepted token p u held full ok = fetch-open p u (
      rw (authorization, held, truthy, full) (accepted_in_header tokens token none u.now p full ok))

  fetch-refused :
      (token : String) (u : World)
      → s.token ≡ some token
      → (token == "") ≡ false
      → tokens.verify u.now token ≡ none
      → api_fetch tokens route u s ≡ (u, (logout s, api_error 401))
  unfolding api_fetch guarded truthy
  fetch-refused token u held full bad =
      rw
        (
          api_fetch,
          guarded,
          authorization,
          held,
          truthy,
          full,
          refused_in_header tokens token u.now bad,
        )
        refl

-- An administrator who was created logs in on the dashboard with that username and password, as long as
-- the table of administrators is the same, and is authenticated then. A request at an instant before the
-- token of the login expires runs its route; one at or after that instant leaves the backend as it is and logs the
-- dashboard out.
pub log_in-api_fetch {ℓ} :
    {A : Type ℓ} (passwords : Passwords) (tokens : Tokens) (route : World → World × Reply A)
    (s : Session) (new_id salt username password : String) (w w' v u x : World)
    → IsSigned tokens v.now (record { admin_id = new_id; username = username })
    → create_admin passwords new_id salt username password w ≡ some w'
    → v.admins ≡ w'.admins
    → u.now / 1000 < v.now / 1000 + tokens.expires_in
    → v.now / 1000 + tokens.expires_in ≤ x.now / 1000
    → ((log_in passwords tokens (some (username, password)) v s).is_authenticated ≡ true)
      × (api_fetch tokens route u (log_in passwords tokens (some (username, password)) v s) ≡ (
        (route u).0,
        fetched (route u).1 (log_in passwords tokens (some (username, password)) v s),
      ))
      × (api_fetch tokens route x (log_in passwords tokens (some (username, password)) v s)
          ≡ (x, (logout (log_in passwords tokens (some (username, password)) v s), api_error 401)))
unfolding log_in
log_in-api_fetch passwords tokens route s new_id salt username password w w' v u x signed made kept
      early late =
    let p : AdminTokenPayload = record { admin_id = new_id; username = username } in
    let token = tokens.sign v.now p in
    let full = signed.not_empty in
    let found = create_admin-find passwords new_id salt username password w w' made in
    let entered = logged_in passwords tokens new_id salt username password v (rw kept found) in
    let t = log_in passwords tokens (some (username, password)) v s in
    let held : t.token ≡ some token = rw (log_in, entered) refl in
    (
      rw (log_in, entered) refl,
      fetch-accepted tokens route t token p u held full (signed.accepted u.now early),
      fetch-refused tokens route t token x held full (signed.expired x.now late),
    )
