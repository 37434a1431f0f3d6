-- ===== src/System/Writes/Requests.antt =====
-- The routes of the admin API as sequences of writes.
use Prim.Native.String.{◌++◌}
use forex_remote_copy_tradin.Prelude.{
  ℕ, String, inl, inr, Option, none, some, ◌∷◌, Option-cases, Bool-cases,
}
use forex_remote_copy_tradin.Number.{Number}
use forex_remote_copy_tradin.Audit.{admin_entry, write_audit}
use forex_remote_copy_tradin.World.{World}
use forex_remote_copy_tradin.CopyEngine.Fanout.{find_master}
use forex_remote_copy_tradin.Slaves.SymbolMapping.{upsert_symbol_mapping, delete_symbol_mapping}
use forex_remote_copy_tradin.Slaves.Config.{
  CreateSlaveInput, UpdateSlaveInput, CreateSymbolMappingInput, new_slave,
}
use forex_remote_copy_tradin.Slaves.Routes.{
  find_slave, is_taken as is_slave_taken, create_slave, patch_slave, post_slave_connector,
  post_symbol_mapping, remove_symbol_mapping, insert_slave, update_slave, set_mapping, entity_of,
}
use forex_remote_copy_tradin.Masters.{
  CreateMasterInput, new_master, is_taken as is_master_taken, create_master, post_master_connector,
}
use forex_remote_copy_tradin.Connectors.Service.{of_master, of_slave}
use forex_remote_copy_tradin.System.{Settings}
use forex_remote_copy_tradin.Types.{
  Slave, created_master, created_slave, owner_master, owner_slave, mapping_id,
}
use forex_remote_copy_tradin.System.Writes.Handlers.{issued-Writes}
use forex_remote_copy_tradin.System.Writes.{outside, Writes, done, one}

pub create_master-Writes :
    (new_id : String) (parsed : Option CreateMasterInput) (ip : Option String) (w : World)
    → Writes w (create_master new_id parsed ip w).0
unfolding create_master
create_master-Writes new_id none ip w = done
create_master-Writes new_id (some i) ip w =
    elim (Bool-cases (is_master_taken (new_master new_id i) w)) [
      | inl taken ↦ rw (create_master, taken) done
      | inr free ↦
          rw (create_master, free)
            (one (
              outside (
                write_audit
                  (admin_entry "MASTER_CREATED" ("master:" ++ new_id) none
                    (some (created_master (new_master new_id i))) ip)
                  (record w { masters = new_master new_id i ∷ w.masters }))))
    ]

module _ (numeric : ℕ → Number → Number) where
  insert_slave-Writes :
      (s : Slave) (ip : Option String) (w : World) → Writes w (insert_slave numeric s ip w).0
  insert_slave-Writes s ip w = elim (Bool-cases (is_slave_taken s w)) [
    | inl taken ↦ rw taken done
    | inr free ↦ rw free (
        one (
          outside (
            write_audit
              (admin_entry "SLAVE_CREATED" (entity_of s.id) none (some (created_slave s)) ip)
              (record w { slaves = s ∷ w.slaves }))))
  ]

  pub create_slave-Writes :
      (new_id : String) (parsed : Option CreateSlaveInput) (ip : Option String) (w : World)
      → Writes w (create_slave numeric new_id parsed ip w).0
  unfolding create_slave
  create_slave-Writes new_id none ip w = done
  create_slave-Writes new_id (some i) ip w = elim (Option-cases (find_master w i.master_id)) [
    | inl missing ↦ rw (create_slave, missing) done
    | inr (m, there) ↦
        rw (create_slave, there) (insert_slave-Writes (new_slave numeric new_id i) ip w)
  ]

  pub patch_slave-Writes :
      (id : String) (parsed : Option UpdateSlaveInput) (ip : Option String) (w : World)
      → Writes w (patch_slave numeric id parsed ip w).0
  unfolding patch_slave
  patch_slave-Writes id none ip w = done
  patch_slave-Writes id (some c) ip w = elim (Option-cases (find_slave w.slaves id)) [
    | inl missing ↦ rw (patch_slave, missing) done
    | inr (s, there) ↦ rw (patch_slave, there) (one (outside (update_slave numeric id c s ip w).0))
  ]

pub post_mapping-Writes :
    (id new_id : String) (parsed : Option CreateSymbolMappingInput) (ip : Option String) (w : World)
    → Writes w (post_symbol_mapping id new_id parsed ip w).0
unfolding post_symbol_mapping upsert_symbol_mapping
post_mapping-Writes id new_id none ip w = elim (Option-cases (find_slave w.slaves id)) [
  | inl missing ↦ rw (post_symbol_mapping, missing) done
  | inr (s, there) ↦ rw (post_symbol_mapping, there) done
]
post_mapping-Writes id new_id (some m) ip w = elim (Option-cases (find_slave w.slaves id)) [
  | inl missing ↦ rw (post_symbol_mapping, missing) done
  | inr (s, there) ↦
      rw (post_symbol_mapping, there) (one (outside (set_mapping id new_id m ip w).0))
]

pub remove_mapping-Writes :
    (id mapping : String) (ip : Option String) (w : World)
    → Writes w (remove_symbol_mapping id mapping ip w).0
unfolding remove_symbol_mapping delete_symbol_mapping
remove_mapping-Writes id mapping ip w = elim (Bool-cases (delete_symbol_mapping id mapping w).1) [
  | inr nothing ↦
      rw (remove_symbol_mapping, nothing) (one (outside (delete_symbol_mapping id mapping w).0))
  | inl deleted ↦
      rw (remove_symbol_mapping, deleted)
        (one (
          outside (
            write_audit
              (admin_entry "SYMBOL_MAPPING_DELETED" (entity_of id) (some (mapping_id mapping)) none
                ip)
              (delete_symbol_mapping id mapping w).0)))
]

module _ (c : Settings) (id new_id token : String) (version ip : Option String) (w : World) where
  pub slave_connector-Writes :
      Writes w (post_slave_connector c.hash_token id new_id token version ip w).0
  unfolding post_slave_connector
  slave_connector-Writes = elim (Option-cases (find_slave w.slaves id)) [
    | inl missing ↦ rw (post_slave_connector, missing) done
    | inr (s, found) ↦
        rw (post_slave_connector, found)
          (issued-Writes c id new_id token (owner_slave id) (of_slave id) version ip w)
  ]

  pub master_connector-Writes :
      Writes w (post_master_connector c.hash_token id new_id token version ip w).0
  unfolding post_master_connector
  master_connector-Writes = elim (Option-cases (find_master w id)) [
    | inl missing ↦ rw (post_master_connector, missing) done
    | inr (m, found) ↦
        rw (post_master_connector, found)
          (issued-Writes c id new_id token (owner_master id) (of_master id) version ip w)
  ]
