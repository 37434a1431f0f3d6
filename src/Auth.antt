-- ===== src/Auth.antt =====
-- backend/src/modules/auth and backend/tools/seedAdmin.ts: the administrators, their login, and the guard
-- of the admin API. bcryptjs and jsonwebtoken are parameters.
pub mod Session
use forex_remote_copy_tradin.Prelude.{
  ℕ, ◌+◌, ◌/◌, ◌<◌, ◌≤◌, String, ◌≡◌, Bool, true, false, Option, none, some, List, ◌∷◌,
  if◌then◌else◌, find_first, any, is_some, or_else, option_bind, truthy, get_or, ◌==◌, ◌||◌,
}
use forex_remote_copy_tradin.Prelude.Text.{strip_prefix}
use forex_remote_copy_tradin.Http.{Reply, sent, invalid_payload, invalid_credentials, unauthorized}
use forex_remote_copy_tradin.Types.{Admin}
use forex_remote_copy_tradin.World.{World}

pub record AdminTokenPayload : Type 0 where
  pub admin_id : String
  pub username : String

-- bcryptjs: `hash salt password`, with a salt that is drawn, and `compare password hash`.
pub record Passwords : Type 0 where
  pub hash : String → String → String
  pub compare : String → String → Bool
  pub compare_hash : (salt password : String) → compare password (hash salt password) ≡ true

-- jsonwebtoken with JWT_SECRET and JWT_EXPIRES_IN, in seconds: the token of a payload that is signed at
-- an instant, and the payload of a token at an instant, unless it is not accepted.
pub record Tokens : Type 0 where
  pub expires_in : ℕ
  pub sign : ℕ → AdminTokenPayload → String
  pub verify : ℕ → String → Option AdminTokenPayload

-- The token of a payload that is signed at an instant: the payload is read from it until it expires.
pub record IsSigned (tokens : Tokens) (at : ℕ) (p : AdminTokenPayload) : Type 0 where
  pub not_empty : (tokens.sign at p == "") ≡ false
  pub accepted :
      (now : ℕ)
      → now / 1000 < at / 1000 + tokens.expires_in
      → tokens.verify now (tokens.sign at p) ≡ some p
  pub expired :
      (now : ℕ)
      → at / 1000 + tokens.expires_in ≤ now / 1000
      → tokens.verify now (tokens.sign at p) ≡ none

-- prisma.admin.findUnique({ where: { username } })
abbrev pub find_admin : List Admin → String → Option Admin
find_admin admins username = find_first (λ a. a.username == username) admins

module _ (passwords : Passwords) where
  -- `none` is a throw, of the unique id or username.
  unfoldable pub create_admin : String → String → String → String → World → Option World
  create_admin new_id salt username password w =
      if any (λ a. a.id == new_id || a.username == username) w.admins
      then none
      else some (record w {
        admins =
            record {
              id = new_id;
              username = username;
              password_hash = passwords.hash salt password;
            }
            ∷ w.admins;
      })

  -- seedAdmin.ts: ADMIN_USERNAME and ADMIN_PASSWORD
  unfoldable pub ensure_admin : String → String → String → String → World → Option World
  unfolding create_admin
  ensure_admin new_id salt username password w =
      if is_some (find_admin w.admins username)
      then some w
      else create_admin new_id salt username password w

module _ (passwords : Passwords) (tokens : Tokens) where
  abbrev payload_of : Admin → AdminTokenPayload
  payload_of a = record { admin_id = a.id; username = a.username }

  unfoldable pub login : String → String → World → Option String
  login username password w = elim (find_admin w.admins username) [
    | none ↦ none
    | some a ↦
        if passwords.compare password a.password_hash
        then some (tokens.sign w.now (payload_of a))
        else none
  ]

  -- POST /api/auth/login: the token, where zod accepts the username and the password
  unfoldable pub post_login : Option (String × String) → World → Reply String
  unfolding login
  post_login none w = invalid_payload
  post_login (some (username, password)) w = elim (login username password w) [
    | none ↦ invalid_credentials
    | some token ↦ sent token
  ]

module _ (tokens : Tokens) where
  -- the header's token, or else the query's
  abbrev request_token : Option String → Option String → Option String
  unfolding strip_prefix
  request_token header query = or_else (option_bind header (strip_prefix "Bearer ")) query

  -- requireAdminAuth: who sends the request, `none` where it is answered 401
  unfoldable pub require_admin_auth : Option String → Option String → ℕ → Option AdminTokenPayload
  unfolding truthy strip_prefix
  require_admin_auth header query now =
      option_bind (truthy (request_token header query)) (tokens.verify now)

  -- A route of the scope that app.ts puts the guard before.
  unfoldable pub guarded {ℓ} :
      {A : Type ℓ}
      → Option String
      → Option String
      → (World → World × Reply A)
      → World
      → World × Reply A
  unfolding require_admin_auth
  guarded header query route w =
      if is_some (require_admin_auth header query w.now) then route w else (w, unauthorized)
