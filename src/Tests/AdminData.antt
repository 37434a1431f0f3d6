-- ===== src/Tests/AdminData.antt =====
-- An administrator, columns, texts and tokens for the tests of the admin API.
use forex_remote_copy_tradin.Prelude.{
  ℕ, ◌/◌, ltb, String, refl, Option, none, some, [], ◌∷◌, if◌then◌else◌, ◌==◌, eq→beq,
}
use forex_remote_copy_tradin.Prelude.Int.{pos, pos_part}
use forex_remote_copy_tradin.Prelude.Text.{same}
use forex_remote_copy_tradin.Number.{Number, of_int, cents}
use forex_remote_copy_tradin.World.{World}
use forex_remote_copy_tradin.Tests.Data.{start}
use forex_remote_copy_tradin.Auth.{AdminTokenPayload, Passwords, Tokens}
use forex_remote_copy_tradin.Dashboard.Api.{Session, provider}

-- a column that keeps every digit
abbrev pub exact : ℕ → Number → Number
exact digits n = n

-- hashes and tokens that show what they are made of
abbrev pub plain : Passwords
plain = record {
  hash = λ salt password. password;
  compare = λ password hash. password == hash;
  compare_hash = λ salt password. eq→beq password password refl;
}

abbrev pub boss : AdminTokenPayload
boss = record { admin_id = "a1"; username = "boss" }

abbrev pub signing : Tokens
signing = record {
  expires_in = 3_600;
  sign = λ at p. "token";
  verify = λ now token. if ltb (now / 1000) 4_600 then some boss else none;
}

abbrev pub with_boss : World
with_boss = record start {
  admins = record { id = "a1"; username = "boss"; password_hash = "pw" } ∷ [];
}

abbrev pub logged_out : Session
logged_out = provider none

abbrev pub text : Number → String
text n =
    if same (pos_part n.num) 50
    then "0.5"
    else if same (pos_part n.num) 500
    then "5"
    else if same n.den_pred 0
    then "1"
    else "0.01"

abbrev pub number_of : String → Option Number
number_of t =
    if t == "0.5"
    then some (cents 50)
    else if t == "5"
    then some (cents 500)
    else if t == "1"
    then some (of_int (pos 1))
    else if t == "0.01"
    then some (cents 1)
    else none
