-- ===== src/Dashboard/Api.antt =====
-- frontend/src/lib/api.ts and auth.tsx: the session of the dashboard and its requests.
-- `localStorage` has the token alone.
pub mod Requests
use Prim.Native.String.{◌++◌}
use forex_remote_copy_tradin.Prelude.{
  ℕ, String, Bool, true, false, Option, none, some, option_map, truthy, is_some, if◌then◌else◌,
}
use forex_remote_copy_tradin.Prelude.Text.{same}
use forex_remote_copy_tradin.Http.{
  Reply, sent, created, no_content, invalid_payload, unauthorized, invalid_credentials, not_found,
  master_not_found, server_error,
}
use forex_remote_copy_tradin.World.{World}
use forex_remote_copy_tradin.Auth.{Tokens, Passwords, guarded, post_login}

-- the stored token, and the state of AuthProvider
pub record Session : Type 0 where
  pub token : Option String
  pub is_authenticated : Bool
  pub loading : Bool
  pub error : Option String

-- AuthProvider at its first rendering
abbrev pub provider : Option String → Session
provider token = record {
  token = token;
  is_authenticated = is_some token;
  loading = false;
  error = none;
}

-- logout, and the handler that a 401 calls
abbrev pub logout : Session → Session
logout s = record s { token = none; is_authenticated = false }

-- What a page gets: a body, undefined, or an ApiError with its status.
pub data Fetched {ℓ} (A : Type ℓ) : Type ℓ where
  body : A → Fetched A
  undefined : Fetched A
  api_error : ℕ → Fetched A

-- the end of apiFetch, on the response
abbrev pub fetched {ℓ} : {A : Type ℓ} → Reply A → Session → Session × Fetched A
fetched (sent a) s = (s, body a)
fetched (created a) s = (s, body a)
fetched no_content s = (s, undefined)
fetched invalid_payload s = (s, api_error 400)
fetched unauthorized s = (logout s, api_error 401)
fetched invalid_credentials s = (logout s, api_error 401)
fetched not_found s = (s, api_error 404)
fetched master_not_found s = (s, api_error 404)
fetched server_error s = (s, api_error 500)

-- the Authorization header of a request
abbrev pub authorization : Session → Option String
unfolding truthy
authorization s = option_map (λ token. "Bearer " ++ token) (truthy s.token)

-- apiFetch of a guarded route, with the backend's part of it.
unfoldable pub api_fetch {ℓ} :
    {A : Type ℓ}
    → Tokens
    → (World → World × Reply A)
    → World
    → Session
    → World × (Session × Fetched A)
unfolding guarded truthy
api_fetch tokens route w s =
    let answered = guarded tokens (authorization s) none route w in
    (answered.0, fetched answered.1 s)

abbrev login_error : ℕ → String
login_error status =
    if same status 401
    then "Invalid username or password"
    else "Login failed — is the backend running?"

-- login's use of the response: to take the token out of undefined throws a TypeError
abbrev logged : Session × Fetched String → Session
logged (s, body token) = record s { token = some token; is_authenticated = true; loading = false }
logged (s, undefined) = record s { loading = false; error = some (login_error 0) }
logged (s, api_error status) = record s { loading = false; error = some (login_error status) }

-- login of AuthProvider, on the route that is not guarded; it throws on an error as well
unfoldable pub log_in : Passwords → Tokens → Option (String × String) → World → Session → Session
unfolding post_login
log_in passwords tokens parsed w s =
    logged
      (fetched (post_login passwords tokens parsed w) (record s { loading = true; error = none }))
