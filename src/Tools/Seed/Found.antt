-- ===== src/Tools/Seed/Found.antt =====
-- What a run of the seed leaves.
use forex_remote_copy_tradin.Prelude.{
  String, true, ◌≡◌, refl, ◌∙◌, inl, inr, Option, some, List, [], ◌∷◌, any, is_some, Bool-cases,
  Option-cases, All, ◌==◌, eq→beq, arith, ◌||◌,
}
use forex_remote_copy_tradin.Prelude.Results.{IfSome, IfSome-bind, IfSome-weaken, IfSome-map}
use forex_remote_copy_tradin.World.{World}
use forex_remote_copy_tradin.Auth.{Passwords, ensure_admin, find_admin, create_admin}
use forex_remote_copy_tradin.Connectors.Service.{
  ConnectorOwner, register_connector, find_by_hash, of_master, of_slave,
}
use forex_remote_copy_tradin.Masters.{is_taken as is_master_taken}
use forex_remote_copy_tradin.Slaves.Routes.{is_taken}
use forex_remote_copy_tradin.Tools.Seed.{
  Draw, Run, dev_slaves, dev_master_account_number, master_numbered, slave_numbered, dev_master,
  dev_slave, find_or_create_master, find_or_create_slave, seed_master, seed_slave, seed_slaves,
  seed,
}

-- The accounts are the same.
record IsSame (w v : World) : Type 0 where
  masters : v.masters ≡ w.masters
  slaves : v.slaves ≡ w.slaves
  admins : v.admins ≡ w.admins

-- The Master is found afterwards, and the administrators are kept.
abbrev IsMasterFound : World → World → Type 0
IsMasterFound w v =
    (is_some (master_numbered v.masters dev_master_account_number) ≡ true) × (v.admins ≡ w.admins)

same_master : (w v u : World) → IsMasterFound w v → IsSame v u → IsMasterFound w u
same_master w v u (there, admins) same = (rw same.masters there, same.admins ∙ admins)

find_or_create_master-found :
    (id : String) (w : World)
    → IfSome (λ found. IsMasterFound w found.0) (find_or_create_master id w)
unfolding find_or_create_master
find_or_create_master-found id w =
    elim (Option-cases (master_numbered w.masters dev_master_account_number)) [
      | inr (m, there) ↦ rw (find_or_create_master, there) (rw there refl, refl)
      | inl missing ↦ elim (Bool-cases (is_master_taken (dev_master id) w)) [
        | inl taken ↦ rw (find_or_create_master, missing, taken) tt
        | inr free ↦ rw (find_or_create_master, missing, free) (refl, refl)
      ]
    ]

-- The Slave is found afterwards, the other accounts are kept, and no Slave is lost.
record IsSlaveFound (number : String) (w v : World) : Type 0 where
  there : is_some (slave_numbered v.slaves number) ≡ true
  kept :
      (n : String)
      → is_some (slave_numbered w.slaves n) ≡ true
      → is_some (slave_numbered v.slaves n) ≡ true
  masters : v.masters ≡ w.masters
  admins : v.admins ≡ w.admins

same_found :
    (number : String) (w v u : World)
    → IsSlaveFound number w v
    → IsSame v u
    → IsSlaveFound number w u
same_found number w v u ok same = record {
  there = rw same.slaves ok.there;
  kept = λ n h. rw same.slaves (ok.kept n h);
  masters = same.masters ∙ ok.masters;
  admins = same.admins ∙ ok.admins;
}

-- The Slaves are in the table.
abbrev pub AreThere : List (String × String) → World → Type 0
AreThere devs w = All (λ dev. is_some (slave_numbered w.slaves dev.0) ≡ true) devs

record AreSlavesFound (devs : List (String × String)) (w v : World) : Type 0 where
  there : AreThere devs v
  kept :
      (n : String)
      → is_some (slave_numbered w.slaves n) ≡ true
      → is_some (slave_numbered v.slaves n) ≡ true
  masters : v.masters ≡ w.masters
  admins : v.admins ≡ w.admins

-- The administrator and all accounts of the seed are in the tables.
pub record IsSeeded (username : String) (w : World) : Type 0 where
  pub admin : is_some (find_admin w.admins username) ≡ true
  pub master : is_some (master_numbered w.masters dev_master_account_number) ≡ true
  pub slaves : AreThere dev_slaves w

find_or_create_slave-found :
    (id master_id : String) (dev : String × String) (w : World)
    → IfSome (λ found. IsSlaveFound dev.0 w found.0) (find_or_create_slave id master_id dev w)
unfolding find_or_create_slave
find_or_create_slave-found id master_id dev w =
    elim (Option-cases (slave_numbered w.slaves dev.0)) [
      | inr (s, there) ↦
          rw (find_or_create_slave, there)
            (record { there = rw there refl; kept = λ n h. h; masters = refl; admins = refl })
      | inl missing ↦ elim (Bool-cases (is_taken (dev_slave id master_id dev) w)) [
        | inl taken ↦ rw (find_or_create_slave, missing, taken) tt
        | inr free ↦
            rw (find_or_create_slave, missing, free)
              (record {
                there = rw (eq→beq dev.0 dev.0 refl) refl;
                kept = λ n h. ground arith;
                masters = refl;
                admins = refl;
              })
      ]
    ]

ensure_admin-found :
    (passwords : Passwords) (new_id salt username password : String) (w : World)
    → IfSome
        (λ v. is_some (find_admin v.admins username) ≡ true)
        (ensure_admin passwords new_id salt username password w)
unfolding ensure_admin create_admin
ensure_admin-found passwords new_id salt username password w =
    elim (Bool-cases (is_some (find_admin w.admins username))) [
      | inl there ↦ rw (ensure_admin, there) there
      | inr missing ↦
          elim (Bool-cases (any (λ a. a.id == new_id || a.username == username) w.admins)) [
            | inl taken ↦ rw (ensure_admin, missing, create_admin, taken) tt
            | inr free ↦
                rw (ensure_admin, missing, create_admin, free)
                  (rw (eq→beq username username refl) refl)
          ]
    ]

module _ (hash_token : String → String) where
  register_connector-IsSame :
      (new_id token : String) (owner : ConnectorOwner) (version : Option String) (w : World)
      → IfSome (IsSame w) (register_connector hash_token new_id token owner version w)
  unfolding register_connector
  register_connector-IsSame new_id token owner version w =
      elim (Option-cases (find_by_hash w.connectors (hash_token token))) [
        | inl fresh ↦
            rw (register_connector, fresh) (record { masters = refl; slaves = refl; admins = refl })
        | inr (c, taken) ↦ rw (register_connector, taken) tt
      ]

  -- a Slave's turn of the loop
  seed_slave-found :
      (draw : Draw) (master_id : String) (dev : String × String) (w : World)
      → IfSome (IsSlaveFound dev.0 w) (seed_slave hash_token draw master_id dev w)
  unfolding register_connector find_or_create_slave
  seed_slave-found draw master_id dev w =
      IfSome-bind (λ found. IsSlaveFound dev.0 w found.0) (IsSlaveFound dev.0 w)
        (find_or_create_slave draw.id master_id dev w) _
        (find_or_create_slave-found draw.id master_id dev w)
        (λ found ok.
          IfSome-weaken (IsSame found.0) (IsSlaveFound dev.0 w)
            (register_connector hash_token draw.connector_id draw.token (of_slave found.1.id)
              (some "dev-seed") found.0)
            (register_connector-IsSame draw.connector_id draw.token (of_slave found.1.id)
              (some "dev-seed") found.0)
            (λ u same. same_found dev.0 w found.0 u ok same))

  -- the loop
  seed_slaves-found :
      (draw : String → Draw) (master_id : String) (devs : List (String × String)) (w : World)
      → IfSome (AreSlavesFound devs w) (seed_slaves hash_token draw master_id devs w)
  unfolding seed_slaves
  seed_slaves-found draw master_id [] w = record {
    there = tt;
    kept = λ n h. h;
    masters = refl;
    admins = refl;
  }
  seed_slaves-found draw master_id (dev ∷ devs) w =
      IfSome-bind (IsSlaveFound dev.0 w) (AreSlavesFound (dev ∷ devs) w)
        (seed_slave hash_token (draw dev.0) master_id dev w)
        (seed_slaves hash_token draw master_id devs) (seed_slave-found (draw dev.0) master_id dev w)
        (λ v one.
          IfSome-weaken (AreSlavesFound devs v) (AreSlavesFound (dev ∷ devs) w)
            (seed_slaves hash_token draw master_id devs v) (seed_slaves-found draw master_id devs v)
            (λ u rest. record {
              there = (rest.kept dev.0 one.there, rest.there);
              kept = λ n h. rest.kept n (one.kept n h);
              masters = rest.masters ∙ one.masters;
              admins = rest.admins ∙ one.admins;
            }))

  seed_master-found :
      (draw : Draw) (w : World) → IfSome (λ r. IsMasterFound w r.0) (seed_master hash_token draw w)
  unfolding register_connector find_or_create_master
  seed_master-found draw w =
      IfSome-bind (λ found. IsMasterFound w found.0) (λ r. IsMasterFound w r.0)
        (find_or_create_master draw.id w) _ (find_or_create_master-found draw.id w)
        (λ found ok.
          IfSome-map (IsSame found.0) (λ r. IsMasterFound w r.0) (λ v. (v, found.1.id))
            (register_connector hash_token draw.connector_id draw.token (of_master found.1.id)
              (some "dev-seed") found.0)
            (register_connector-IsSame draw.connector_id draw.token (of_master found.1.id)
              (some "dev-seed") found.0)
            (λ u same. same_master w found.0 u ok same))

  pub seed-IsSeeded :
      (passwords : Passwords) (username password : String) (run : Run) (w : World)
      → IfSome (IsSeeded username) (seed hash_token passwords username password run w)
  unfolding seed ensure_admin seed_slaves register_connector find_or_create_master
  seed-IsSeeded passwords username password run w =
      IfSome-bind (λ v. is_some (find_admin v.admins username) ≡ true) (IsSeeded username)
        (ensure_admin passwords run.admin_id run.salt username password w) _
        (ensure_admin-found passwords run.admin_id run.salt username password w)
        (λ v admin.
          IfSome-bind (λ m. IsMasterFound v m.0) (IsSeeded username)
            (seed_master hash_token run.of_master v) _ (seed_master-found run.of_master v)
            (λ m master.
              IfSome-weaken (AreSlavesFound dev_slaves m.0) (IsSeeded username)
                (seed_slaves hash_token run.of_slave m.1 dev_slaves m.0)
                (seed_slaves-found run.of_slave m.1 dev_slaves m.0)
                (λ u slaves. record {
                  admin = rw slaves.admins (rw master.1 admin);
                  master = rw slaves.masters master.0;
                  slaves = slaves.there;
                })))
