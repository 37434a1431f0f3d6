-- ===== src/Auth/Session.antt =====
-- From the creation of an administrator to the requests of the dashboard.
use Prim.Native.String.{◌++◌}
use forex_remote_copy_tradin.Prelude.{
  ℕ, String, false, ◌≡◌, refl, Option, none, some, inl, inr, arith, truthy, Bool-cases, eq→beq,
  ◌==◌,
}
use forex_remote_copy_tradin.Prelude.Text.{strip_prefix-append}
use forex_remote_copy_tradin.Http.{sent}
use forex_remote_copy_tradin.World.{World}
use forex_remote_copy_tradin.Auth.{
  AdminTokenPayload, Passwords, Tokens, find_admin, create_admin, login, post_login,
  require_admin_auth,
}

-- The row that a creation adds, found by its username.
pub create_admin-find :
    (passwords : Passwords) (new_id salt username password : String) (w w' : World)
    → create_admin passwords new_id salt username password w ≡ some w'
    → find_admin w'.admins username
      ≡ some (record {
        id = new_id;
        username = username;
        password_hash = passwords.hash salt password;
      })
unfolding create_admin
create_admin-find passwords new_id salt username password w w' h =
    ground (arith, eq→beq username username refl)

module _ (tokens : Tokens) where
  -- A token that is verified opens the guard, in the header.
  pub accepted_in_header :
      (token : String) (query : Option String) (now : ℕ) (p : AdminTokenPayload)
      → (token == "") ≡ false
      → tokens.verify now token ≡ some p
      → require_admin_auth tokens (some ("Bearer " ++ token)) query now ≡ some p
  unfolding require_admin_auth truthy
  accepted_in_header token query now p nonempty ok =
      rw (require_admin_auth, strip_prefix-append "Bearer " token, nonempty) ok

  -- One that is not verified leaves it shut.
  pub refused_in_header :
      (token : String) (now : ℕ)
      → tokens.verify now token ≡ none
      → require_admin_auth tokens (some ("Bearer " ++ token)) none now ≡ none
  unfolding require_admin_auth truthy
  refused_in_header token now bad = elim (Bool-cases (token == "")) [
    | inl empty ↦ rw (require_admin_auth, strip_prefix-append "Bearer " token, empty) refl
    | inr full ↦ rw (require_admin_auth, strip_prefix-append "Bearer " token, full) bad
  ]

module _ (passwords : Passwords) (tokens : Tokens) where
  pub logged_in :
      (new_id salt username password : String) (v : World)
      → find_admin v.admins username
        ≡ some (record {
          id = new_id;
          username = username;
          password_hash = passwords.hash salt password;
        })
      → post_login passwords tokens (some (username, password)) v
        ≡ sent (tokens.sign v.now (record { admin_id = new_id; username = username }))
  unfolding post_login login
  logged_in new_id salt username password v found =
      rw (post_login, login, found, passwords.compare_hash salt password) refl
