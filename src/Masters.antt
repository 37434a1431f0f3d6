-- ===== src/Masters.antt =====
-- backend/src/modules/masters: the routes of the Masters and the schema of their bodies.
use Prim.Native.String.{◌++◌}
use forex_remote_copy_tradin.Prelude.{
  String, Bool, Option, none, some, List, ◌∷◌, if◌then◌else◌, filter_by, any, map, ◌||◌, ◌==◌,
}
use forex_remote_copy_tradin.Http.{Reply, sent, created, invalid_payload, not_found, server_error}
use forex_remote_copy_tradin.Types.{Master, Slave, Connector, created_master, owner_master}
use forex_remote_copy_tradin.World.{World, is_at}
use forex_remote_copy_tradin.Audit.{admin_entry, write_audit}
use forex_remote_copy_tradin.CopyEngine.Fanout.{find_master}
use forex_remote_copy_tradin.Connectors.Service.{register_connector, of_master}
use forex_remote_copy_tradin.Slaves.Routes.{IssuedToken, issued}

-- createMasterSchema's output: its platform has the default in it
pub record CreateMasterInput : Type 0 where
  pub name : String
  pub account_number : String
  pub broker : String
  pub platform : String
  pub server : String

-- createMasterSchema: every text is filled in
unfoldable pub parse_master : CreateMasterInput → Option CreateMasterInput
parse_master i =
    if i.name == "" || i.account_number == "" || i.broker == "" || i.server == ""
    then none
    else some i

abbrev pub new_master : String → CreateMasterInput → Master
new_master new_id i = record {
  id = new_id;
  name = i.name;
  account_number = i.account_number;
  broker = i.broker;
  platform = i.platform;
  server = i.server;
  balance = none;
  equity = none;
  position_snapshot = none;
  position_snapshot_at = none;
}

-- the ids and the account numbers are unique
abbrev pub is_taken : Master → World → Bool
is_taken m w = any (λ n. n.id == m.id || n.account_number == m.account_number) w.masters

abbrev insert_master : Master → Option String → World → World × Reply Master
insert_master m ip w = if is_taken m w then (w, server_error) else (
  write_audit (admin_entry "MASTER_CREATED" ("master:" ++ m.id) none (some (created_master m)) ip)
      (record w { masters = m ∷ w.masters }),
  created m,
)

-- POST /api/masters
unfoldable pub create_master :
    String → Option CreateMasterInput → Option String → World → World × Reply Master
create_master new_id none ip w = (w, invalid_payload)
create_master new_id (some i) ip w = insert_master (new_master new_id i) ip w

abbrev connectors_of : World → Master → List Connector
connectors_of w m = filter_by (λ c. is_at c.master_id m.id) w.connectors

abbrev slaves_of : World → Master → List Slave
slaves_of w m = filter_by (λ s. s.master_id == m.id) w.slaves

-- GET /api/masters and GET /api/masters/:id
unfoldable pub get_masters : World → Reply (List (Master × List Connector))
get_masters w = sent (map (λ m. (m, connectors_of w m)) w.masters)

unfoldable pub get_master : String → World → Reply (Master × List Connector × List Slave)
get_master id w = elim (find_master w id) [
  | none ↦ not_found
  | some m ↦ sent (m, connectors_of w m, slaves_of w m)
]

-- POST /api/masters/:id/connectors
unfoldable pub post_master_connector :
    (String → String)
    → String
    → String
    → String
    → Option String
    → Option String
    → World
    → World × Reply IssuedToken
unfolding register_connector
post_master_connector hash_token id new_id token version ip w = elim (find_master w id) [
  | none ↦ (w, not_found)
  | some m ↦
      issued new_id token id (owner_master id) ip w
        (register_connector hash_token new_id token (of_master id) version w)
]
