-- ===== src/Slaves/Routes.antt =====
-- backend/src/modules/slaves/slave.routes.ts. Each route takes what zod makes of the body, `none` where
-- it is refused, the id of the row that it may create, and the address of the request.
pub mod Audited
pub mod Pausing
use Prim.Native.String.{◌++◌}
use forex_remote_copy_tradin.Prelude.{
  ℕ, String, Bool, true, false, Option, none, some, List, ◌∷◌, if◌then◌else◌, find_first, filter_by,
  update_where, any, map, truthy, ◌||◌, ◌==◌,
}
use forex_remote_copy_tradin.Http.{
  Reply, sent, created, no_content, invalid_payload, not_found, master_not_found, server_error,
}
use forex_remote_copy_tradin.Number.{Number}
use forex_remote_copy_tradin.Types.{
  Slave, Connector, SymbolMapping, AuditValue, created_slave, fields, owner_slave, symbols,
  mapping_id,
}
use forex_remote_copy_tradin.World.{World, is_at}
use forex_remote_copy_tradin.Audit.{admin_entry, write_audit}
use forex_remote_copy_tradin.CopyEngine.Fanout.{find_master}
use forex_remote_copy_tradin.Connectors.Service.{register_connector, of_slave}
use forex_remote_copy_tradin.Slaves.Config.{
  CreateSlaveInput, UpdateSlaveInput, CreateSymbolMappingInput, new_slave, updated, pick,
}
use forex_remote_copy_tradin.Slaves.SymbolMapping.{upsert_symbol_mapping, delete_symbol_mapping}

-- prisma.slave.findUnique({ where: { id } })
abbrev pub find_slave : List Slave → String → Option Slave
find_slave slaves id = find_first (λ s. s.id == id) slaves

abbrev pub entity_of : String → String
entity_of id = "slave:" ++ id

-- a Slave with its connectors
abbrev with_connectors : World → Slave → Slave × List Connector
with_connectors w s = (s, filter_by (λ c. is_at c.slave_id s.id) w.connectors)

-- `where: masterId ? { masterId } : undefined`
abbrev is_listed : Option String → Slave → Bool
is_listed none s = true
is_listed (some master_id) s = s.master_id == master_id

-- GET /api/slaves and GET /api/slaves/:id
unfoldable pub get_slaves : Option String → World → Reply (List (Slave × List Connector))
unfolding truthy
get_slaves master_id w =
    sent (map (with_connectors w) (filter_by (is_listed (truthy master_id)) w.slaves))

unfoldable pub get_slave : String → World → Reply (Slave × List Connector)
get_slave id w = elim (find_slave w.slaves id) [
  | none ↦ not_found
  | some s ↦ sent (with_connectors w s)
]

-- the ids and the account numbers are unique
abbrev pub is_taken : Slave → World → Bool
is_taken s w = any (λ t. t.id == s.id || t.account_number == s.account_number) w.slaves

module _ (numeric : ℕ → Number → Number) where
  abbrev pub insert_slave : Slave → Option String → World → World × Reply Slave
  insert_slave s ip w = if is_taken s w then (w, server_error) else (
    write_audit (admin_entry "SLAVE_CREATED" (entity_of s.id) none (some (created_slave s)) ip)
        (record w { slaves = s ∷ w.slaves }),
    created s,
  )

  -- POST /api/slaves
  unfoldable pub create_slave :
      String → Option CreateSlaveInput → Option String → World → World × Reply Slave
  unfolding new_slave
  create_slave new_id none ip w = (w, invalid_payload)
  create_slave new_id (some i) ip w = elim (find_master w i.master_id) [
    | none ↦ (w, master_not_found)
    | some m ↦ insert_slave (new_slave numeric new_id i) ip w
  ]

  abbrev pub update_slave :
      String → UpdateSlaveInput → Slave → Option String → World → World × Reply Slave
  unfolding updated pick
  update_slave id c s ip w = (
    write_audit
        (admin_entry "SLAVE_UPDATED" (entity_of id) (some (fields (pick c s)))
          (some (fields (pick c (updated numeric c s)))) ip)
        (record w { slaves = update_where (λ t. t.id == id) (updated numeric c) w.slaves }),
    sent (updated numeric c s),
  )

  -- PATCH /api/slaves/:id
  unfoldable pub patch_slave :
      String → Option UpdateSlaveInput → Option String → World → World × Reply Slave
  unfolding updated pick
  patch_slave id none ip w = (w, invalid_payload)
  patch_slave id (some c) ip w = elim (find_slave w.slaves id) [
    | none ↦ (w, not_found)
    | some s ↦ update_slave id c s ip w
  ]

-- The new connector, its owner, and the token that is answered only here.
pub record IssuedToken : Type 0 where
  pub connector_id : String
  pub owner_id : String
  pub token : String

-- the answer of registerConnector, `none` where it threw
abbrev pub issued :
    String
    → String
    → String
    → AuditValue
    → Option String
    → World
    → Option World
    → World × Reply IssuedToken
issued new_id token id owner ip w none = (w, server_error)
issued new_id token id owner ip w (some w') = (
  write_audit (admin_entry "CONNECTOR_REGISTERED" ("connector:" ++ new_id) none (some owner) ip) w',
  created (record { connector_id = new_id; owner_id = id; token = token }),
)

-- POST /api/slaves/:id/connectors
unfoldable pub post_slave_connector :
    (String → String)
    → String
    → String
    → String
    → Option String
    → Option String
    → World
    → World × Reply IssuedToken
unfolding register_connector
post_slave_connector hash_token id new_id token version ip w = elim (find_slave w.slaves id) [
  | none ↦ (w, not_found)
  | some s ↦
      issued new_id token id (owner_slave id) ip w
        (register_connector hash_token new_id token (of_slave id) version w)
]

abbrev pub set_mapping :
    String
    → String
    → CreateSymbolMappingInput
    → Option String
    → World
    → World × Reply (String × String)
unfolding upsert_symbol_mapping
set_mapping id new_id m ip w = (
  write_audit
      (admin_entry "SYMBOL_MAPPING_SET" (entity_of id) none
        (some (symbols m.master_symbol m.slave_symbol)) ip)
      (upsert_symbol_mapping new_id id m.master_symbol m.slave_symbol w),
  created (m.master_symbol, m.slave_symbol),
)

-- POST /api/slaves/:id/symbol-mappings, with the two symbols of the row in its answer
unfoldable pub post_symbol_mapping :
    String
    → String
    → Option CreateSymbolMappingInput
    → Option String
    → World
    → World × Reply (String × String)
unfolding upsert_symbol_mapping
post_symbol_mapping id new_id parsed ip w = elim (find_slave w.slaves id) [
  | none ↦ (w, not_found)
  | some s ↦ elim parsed [ none ↦ (w, invalid_payload) | some m ↦ set_mapping id new_id m ip w ]
]

-- GET /api/slaves/:id/symbol-mappings: `by_master_symbol` is the order that the database puts them in.
unfoldable pub get_symbol_mappings :
    (List SymbolMapping → List SymbolMapping) → String → World → Reply (List SymbolMapping)
get_symbol_mappings by_master_symbol id w =
    sent (by_master_symbol (filter_by (λ m. m.slave_id == id) w.symbol_mappings))

-- DELETE /api/slaves/:id/symbol-mappings/:mappingId
unfoldable pub remove_symbol_mapping :
    String → String → Option String → World → World × Reply (Unit {0})
unfolding delete_symbol_mapping
remove_symbol_mapping id mapping ip w =
    let deleted = delete_symbol_mapping id mapping w in
    if deleted.1
    then (
      write_audit
          (admin_entry "SYMBOL_MAPPING_DELETED" (entity_of id) (some (mapping_id mapping)) none ip)
          deleted.0,
      no_content,
    )
    else (deleted.0, not_found)
