-- ===== src/Dashboard/CreateAccountModal.antt =====
-- frontend/src/components/CreateAccountModal.tsx: handleSubmit, on the routes that it calls one after the
-- other. What other requests do between the two is left out.
pub mod Account
pub mod Credentials
use forex_remote_copy_tradin.Prelude.{ℕ, String, Bool, Option, none, some}
use forex_remote_copy_tradin.Http.{Reply, map_reply}
use forex_remote_copy_tradin.Number.{Number}
use forex_remote_copy_tradin.World.{World}
use forex_remote_copy_tradin.Auth.{Tokens}
use forex_remote_copy_tradin.Masters.{
  CreateMasterInput, parse_master, create_master, post_master_connector,
}
use forex_remote_copy_tradin.Slaves.Config.{CreateSlaveInput}
use forex_remote_copy_tradin.Slaves.Config.Parsing.{parse_create, no_config}
use forex_remote_copy_tradin.Slaves.Routes.{create_slave, post_slave_connector}
use forex_remote_copy_tradin.Dashboard.Api.{Session, Fetched, body, undefined, api_error, api_fetch}

-- the kind, with the Master that a Slave copies from
pub data Kind : Type 0 where
  master_kind : Kind
  slave_kind : String → Kind

pub record AccountForm : Type 0 where
  pub name : String
  pub account_number : String
  pub broker : String
  pub platform : String
  pub server : String

-- What the modal shows: the token of `created`, or an error.
pub data Outcome : Type 0 where
  shown : String → Outcome
  failed : Outcome

-- the bodies of the first request
abbrev master_input : AccountForm → CreateMasterInput
master_input f = record {
  name = f.name;
  account_number = f.account_number;
  broker = f.broker;
  platform = f.platform;
  server = f.server;
}

abbrev slave_input : String → AccountForm → CreateSlaveInput
slave_input master_id f = record {
  master_id = master_id;
  name = f.name;
  account_number = f.account_number;
  broker = f.broker;
  platform = f.platform;
  server = f.server;
  config = no_config;
}

module _ (numeric : ℕ → Number → Number) (hash_token : String → String) (is_uuid : String → Bool)
    (ip : Option String) where
  -- the first request, for the id of the row
  unfoldable pub account_route : Kind → AccountForm → String → World → World × Reply String
  unfolding create_master create_slave parse_master parse_create map_reply
  account_route master_kind f new_id w =
      let answered = create_master new_id (parse_master (master_input f)) ip w in
      (answered.0, map_reply (λ m. m.id) answered.1)
  account_route (slave_kind master_id) f new_id w =
      let answered =
        create_slave numeric new_id (parse_create is_uuid (slave_input master_id f)) ip w in
      (answered.0, map_reply (λ s. s.id) answered.1)

  -- the second request, for the token
  unfoldable pub connector_route : Kind → String → String → String → World → World × Reply String
  unfolding post_master_connector post_slave_connector map_reply
  connector_route master_kind id new_id token w =
      let answered = post_master_connector hash_token id new_id token (some "1.0.0") ip w in
      (answered.0, map_reply (λ r. r.token) answered.1)
  connector_route (slave_kind master_id) id new_id token w =
      let answered = post_slave_connector hash_token id new_id token (some "1.0.0") ip w in
      (answered.0, map_reply (λ r. r.token) answered.1)

  module _ (tokens : Tokens) (kind : Kind) (connector_id token : String) where
    abbrev pub show : World × (Session × Fetched String) → World × (Session × Outcome)
    show (w, (s, body t)) = (w, (s, shown t))
    show (w, (s, undefined)) = (w, (s, failed))
    show (w, (s, api_error status)) = (w, (s, failed))

    abbrev pub register : World × (Session × Fetched String) → World × (Session × Outcome)
    unfolding api_fetch
    register (w, (s, body id)) =
        show (api_fetch tokens (connector_route kind id connector_id token) w s)
    register (w, (s, undefined)) = (w, (s, failed))
    register (w, (s, api_error status)) = (w, (s, failed))

    unfoldable pub handle_submit :
        AccountForm → String → World → Session → World × (Session × Outcome)
    unfolding api_fetch
    handle_submit f new_id w s = register (api_fetch tokens (account_route kind f new_id) w s)
