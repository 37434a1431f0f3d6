-- ===== src/Tools/Seed/Token.antt =====
-- What the token file of the seed's Master is good for.
use forex_remote_copy_tradin.Prelude.{
  String, ◌≡◌, refl, inl, inr, Option, some, ◌∷◌, is_some, Option-cases, Bool-cases, eq→beq, ◌==◌,
  any, List, [], ◌||◌,
}
use forex_remote_copy_tradin.Types.{Master, Connector}
use forex_remote_copy_tradin.World.{World}
use forex_remote_copy_tradin.Auth.{Passwords, ensure_admin, create_admin, find_admin}
use forex_remote_copy_tradin.Connectors.Service.{
  ConnectorOwner, register_connector, new_connector, find_by_hash, of_master, of_slave,
}
use forex_remote_copy_tradin.Connectors.Service.Cache.{IsCoherent, All-IsTrue_new, find_by_hash_new}
use forex_remote_copy_tradin.Masters.{is_taken as is_master_taken}
use forex_remote_copy_tradin.Slaves.Routes.{is_taken}
use forex_remote_copy_tradin.Tools.Seed.{
  Draw, Run, dev_slaves, dev_master_account_number, master_numbered, slave_numbered, dev_master,
  dev_slave, find_or_create_master, find_or_create_slave, seed_master, seed_slave, seed_slaves,
  seed,
}
use forex_remote_copy_tradin.Prelude.Results.{IfSome, IfSome-bind, IfSome-map}

ensure_admin-IsCoherent :
    (passwords : Passwords) (new_id salt username password : String) (w : World)
    → IsCoherent w
    → IfSome IsCoherent (ensure_admin passwords new_id salt username password w)
unfolding ensure_admin create_admin
ensure_admin-IsCoherent passwords new_id salt username password w ok =
    elim (Bool-cases (is_some (find_admin w.admins username))) [
      | inl there ↦ rw (ensure_admin, there) ok
      | inr missing ↦
          elim (Bool-cases (any (λ a. a.id == new_id || a.username == username) w.admins)) [
            | inl taken ↦ rw (ensure_admin, missing, create_admin, taken) tt
            | inr free ↦ rw (ensure_admin, missing, create_admin, free) ok
          ]
    ]

module _ (hash_token : String → String) (connector_id token : String) where
  -- the connector of the seed's Master
  abbrev pub master_connector : Master → Connector
  master_connector m =
      new_connector hash_token connector_id token (of_master m.id) (some "dev-seed")

  -- The Master of the seed is in the table, and the token is its.
  pub record HasMasterToken (w : World) : Type 0 where
    pub master : Master
    pub numbered : master_numbered w.masters dev_master_account_number ≡ some master
    pub owned : find_by_hash w.connectors (hash_token token) ≡ some (master_connector master)
    pub coherent : IsCoherent w

  -- It stays so.
  register_connector-kept :
      (new_id other : String) (owner : ConnectorOwner) (version : Option String) (w : World)
      → HasMasterToken w
      → IfSome HasMasterToken (register_connector hash_token new_id other owner version w)
  unfolding register_connector
  register_connector-kept new_id other owner version w has =
      elim (Option-cases (find_by_hash w.connectors (hash_token other))) [
        | inr (c, taken) ↦ rw (register_connector, taken) tt
        | inl fresh ↦
            let c = new_connector hash_token new_id other owner version in
            rw (register_connector, fresh)
              (record {
                master = has.master;
                numbered = has.numbered;
                owned =
                    find_by_hash_new hash_token w.connectors c (master_connector has.master)
                      (hash_token token) fresh has.owned;
                coherent =
                    All-IsTrue_new hash_token w.connectors c w.token_cache fresh has.coherent;
              })
      ]

  find_or_create_slave-kept :
      (id master_id : String) (dev : String × String) (w : World)
      → HasMasterToken w
      → IfSome (λ found. HasMasterToken found.0) (find_or_create_slave id master_id dev w)
  unfolding find_or_create_slave
  find_or_create_slave-kept id master_id dev w has =
      elim (Option-cases (slave_numbered w.slaves dev.0)) [
        | inr (s, there) ↦ rw (find_or_create_slave, there) has
        | inl missing ↦ elim (Bool-cases (is_taken (dev_slave id master_id dev) w)) [
          | inl taken ↦ rw (find_or_create_slave, missing, taken) tt
          | inr free ↦
              rw (find_or_create_slave, missing, free)
                (record {
                  master = has.master;
                  numbered = has.numbered;
                  owned = has.owned;
                  coherent = has.coherent;
                })
        ]
      ]

  seed_slaves-kept :
      (draw : String → Draw) (master_id : String) (devs : List (String × String)) (w : World)
      → HasMasterToken w
      → IfSome HasMasterToken (seed_slaves hash_token draw master_id devs w)
  unfolding seed_slaves register_connector find_or_create_slave
  seed_slaves-kept draw master_id [] w has = has
  seed_slaves-kept draw master_id (dev ∷ devs) w has =
      IfSome-bind HasMasterToken HasMasterToken (seed_slave hash_token (draw dev.0) master_id dev w)
        (seed_slaves hash_token draw master_id devs)
        (IfSome-bind (λ found. HasMasterToken found.0) HasMasterToken
          (find_or_create_slave (draw dev.0).id master_id dev w) _
          (find_or_create_slave-kept (draw dev.0).id master_id dev w has)
          (λ found ok.
            register_connector-kept (draw dev.0).connector_id (draw dev.0).token
              (of_slave found.1.id) (some "dev-seed") found.0 ok))
        (λ v ok. seed_slaves-kept draw master_id devs v ok)

  -- the Master that is found or created, at its account number
  find_or_create_master-numbered :
      (id : String) (w : World)
      → IsCoherent w
      → IfSome
          (λ found.
            (master_numbered found.0.masters dev_master_account_number ≡ some found.1)
            × IsCoherent found.0)
          (find_or_create_master id w)
  unfolding find_or_create_master
  find_or_create_master-numbered id w ok =
      elim (Option-cases (master_numbered w.masters dev_master_account_number)) [
        | inr (m, there) ↦ rw (find_or_create_master, there) (rw there refl, ok)
        | inl missing ↦ elim (Bool-cases (is_master_taken (dev_master id) w)) [
          | inl taken ↦ rw (find_or_create_master, missing, taken) tt
          | inr free ↦ rw (find_or_create_master, missing, free) (refl, ok)
        ]
      ]

  register_master-has :
      (m : Master) (w : World)
      → master_numbered w.masters dev_master_account_number ≡ some m
      → IsCoherent w
      → IfSome HasMasterToken
          (register_connector hash_token connector_id token (of_master m.id) (some "dev-seed") w)
  unfolding register_connector
  register_master-has m w numbered ok =
      elim (Option-cases (find_by_hash w.connectors (hash_token token))) [
        | inr (c, taken) ↦ rw (register_connector, taken) tt
        | inl fresh ↦
            rw (register_connector, fresh)
              (record {
                master = m;
                numbered = numbered;
                owned = rw (eq→beq (hash_token token) (hash_token token) refl) refl;
                coherent =
                    All-IsTrue_new hash_token w.connectors (master_connector m) w.token_cache fresh
                      ok;
              })
      ]

-- After a run of the seed that did not throw.
pub seed-HasMasterToken :
    (hash_token : String → String) (passwords : Passwords) (username password : String) (run : Run)
    (w : World)
    → IsCoherent w
    → IfSome
        (HasMasterToken hash_token run.of_master.connector_id run.of_master.token)
        (seed hash_token passwords username password run w)
unfolding seed ensure_admin seed_slaves register_connector find_or_create_master
seed-HasMasterToken hash_token passwords username password run w ok =
    let Has = HasMasterToken hash_token run.of_master.connector_id run.of_master.token in
    IfSome-bind IsCoherent Has (ensure_admin passwords run.admin_id run.salt username password w) _
      (ensure_admin-IsCoherent passwords run.admin_id run.salt username password w ok)
      (λ v coherent.
        IfSome-bind (λ m. Has m.0) Has (seed_master hash_token run.of_master v) _
          (IfSome-bind _ (λ m. Has m.0) (find_or_create_master run.of_master.id v) _
            (find_or_create_master-numbered hash_token run.of_master.connector_id
              run.of_master.token run.of_master.id v coherent)
            (λ found ok'.
              IfSome-map Has (λ m. Has m.0) (λ u. (u, found.1.id))
                (register_connector hash_token run.of_master.connector_id run.of_master.token
                  (of_master found.1.id) (some "dev-seed") found.0)
                (register_master-has hash_token run.of_master.connector_id run.of_master.token
                  found.1 found.0 ok'.0 ok'.1)
                (λ u has. has)))
          (λ m has.
            seed_slaves-kept hash_token run.of_master.connector_id run.of_master.token run.of_slave
              m.1 dev_slaves m.0 has))
