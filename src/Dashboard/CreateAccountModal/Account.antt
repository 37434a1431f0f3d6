-- ===== src/Dashboard/CreateAccountModal/Account.antt =====
-- The first request of the modal: the account.
use Prim.Native.String.{◌++◌}
use forex_remote_copy_tradin.Prelude.{
  ℕ, String, Bool, false, ◌≡◌, refl, Option, none, some, ◌∷◌, eq→beq,
}
use forex_remote_copy_tradin.Number.{Number}
use forex_remote_copy_tradin.Http.{created, map_reply}
use forex_remote_copy_tradin.Types.{Master, created_master, created_slave}
use forex_remote_copy_tradin.World.{World}
use forex_remote_copy_tradin.Audit.{admin_entry, write_audit}
use forex_remote_copy_tradin.CopyEngine.Fanout.{find_master}
use forex_remote_copy_tradin.Connectors.Service.{ConnectorOwner, of_master, of_slave}
use forex_remote_copy_tradin.Masters.{
  parse_master, new_master, is_taken as is_master_taken, create_master,
}
use forex_remote_copy_tradin.Slaves.Config.{new_slave}
use forex_remote_copy_tradin.Slaves.Config.Parsing.{parse_create}
use forex_remote_copy_tradin.Slaves.Routes.{
  find_slave, entity_of, is_taken as is_slave_taken, create_slave,
}
use forex_remote_copy_tradin.Dashboard.CreateAccountModal.{
  Kind, master_kind, slave_kind, AccountForm, master_input, slave_input, account_route,
}

abbrev pub owner_of : Kind → String → ConnectorOwner
owner_of master_kind id = of_master id
owner_of (slave_kind master_id) id = of_slave id

module _ (numeric : ℕ → Number → Number) (hash_token : String → String) (is_uuid : String → Bool)
    (ip : Option String) (f : AccountForm) (new_id : String) where
  -- The form is accepted, its Master is there, and the new row breaks no unique column.
  abbrev pub IsReady : Kind → World → Type 0
  IsReady master_kind w =
      (parse_master (master_input f) ≡ some (master_input f))
      × (is_master_taken (new_master new_id (master_input f)) w ≡ false)
  IsReady (slave_kind master_id) w =
      (parse_create is_uuid (slave_input master_id f) ≡ some (slave_input master_id f))
      × ((m : Master) × (find_master w master_id ≡ some m))
      × (is_slave_taken (new_slave numeric new_id (slave_input master_id f)) w ≡ false)

  -- The row of the form is there.
  abbrev pub IsCreated : Kind → World → Type 0
  IsCreated master_kind w = find_master w new_id ≡ some (new_master new_id (master_input f))
  IsCreated (slave_kind master_id) w =
      find_slave w.slaves new_id ≡ some (new_slave numeric new_id (slave_input master_id f))

  -- The first route, where the form is ready.
  pub record IsMade (kind : Kind) (w v : World) : Type 0 where
    pub answer : account_route numeric hash_token is_uuid ip kind f new_id w ≡ (v, created new_id)
    pub is_created : IsCreated kind v
    pub now : v.now ≡ w.now
    pub connectors : v.connectors ≡ w.connectors
    pub cache : v.token_cache ≡ w.token_cache

  pub account_route-IsMade :
      (kind : Kind) (w : World) → IsReady kind w → (v : World) × IsMade kind w v
  unfolding create_master create_slave map_reply new_slave account_route
  account_route-IsMade master_kind w (parsed, free) = (
    write_audit
        (admin_entry "MASTER_CREATED" ("master:" ++ new_id) none
          (some (created_master (new_master new_id (master_input f)))) ip)
        (record w { masters = new_master new_id (master_input f) ∷ w.masters }),
    record {
      answer = rw (account_route, create_master, parsed, free, map_reply) refl;
      is_created = rw (eq→beq new_id new_id refl) refl;
      now = refl;
      connectors = refl;
      cache = refl;
    },
  )
  account_route-IsMade (slave_kind master_id) w (parsed, (m, there), free) = (
    write_audit
        (admin_entry "SLAVE_CREATED" (entity_of new_id) none
          (some (created_slave (new_slave numeric new_id (slave_input master_id f)))) ip)
        (record w { slaves = new_slave numeric new_id (slave_input master_id f) ∷ w.slaves }),
    record {
      answer = rw (account_route, create_slave, parsed, there, free, map_reply) refl;
      is_created = rw (eq→beq new_id new_id refl) refl;
      now = refl;
      connectors = refl;
      cache = refl;
    },
  )
