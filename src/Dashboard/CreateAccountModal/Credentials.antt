-- ===== src/Dashboard/CreateAccountModal/Credentials.antt =====
-- What the token of the modal is good for.
use Prim.Native.String.{◌++◌}
use forex_remote_copy_tradin.Prelude.{
  ℕ, String, Bool, ◌≡◌, refl, ap, subst, sym, ◌∙◌, Option, none, some, ◌∷◌, eq→beq,
}
use forex_remote_copy_tradin.Number.{Number}
use forex_remote_copy_tradin.Http.{created, map_reply}
use forex_remote_copy_tradin.Types.{AuditValue, owner_master, owner_slave}
use forex_remote_copy_tradin.World.{World}
use forex_remote_copy_tradin.Audit.{admin_entry, write_audit}
use forex_remote_copy_tradin.Connectors.Service.{
  find_by_hash, identity, new_connector, register_connector, authenticate_connector,
}
use forex_remote_copy_tradin.Connectors.Service.Cache.{
  IsCoherent, register-authenticate, authenticate_connector_lem,
}
use forex_remote_copy_tradin.Auth.{AdminTokenPayload, Tokens, require_admin_auth}
use forex_remote_copy_tradin.Masters.{post_master_connector}
use forex_remote_copy_tradin.Slaves.Routes.{post_slave_connector}
use forex_remote_copy_tradin.Dashboard.Api.{Session, body, fetched, authorization, api_fetch}
use forex_remote_copy_tradin.Dashboard.Api.Requests.{fetch-open}
use forex_remote_copy_tradin.Dashboard.CreateAccountModal.{
  Kind, master_kind, slave_kind, AccountForm, shown, account_route, connector_route, register, show,
  handle_submit,
}
use forex_remote_copy_tradin.Dashboard.CreateAccountModal.Account.{
  owner_of, IsReady, IsCreated, IsMade, account_route-IsMade,
}

module _ (numeric : ℕ → Number → Number) (hash_token : String → String) (is_uuid : String → Bool)
    (ip : Option String) (f : AccountForm) (new_id : String) where
  module _ (connector_id token : String) where
    -- The second route, where the account is there and the token's hash is new.
    record IsIssued (kind : Kind) (v u : World) : Type 0 where
      answer :
          connector_route numeric hash_token is_uuid ip kind new_id connector_id token v
          ≡ (u, created token)
      masters : u.masters ≡ v.masters
      slaves : u.slaves ≡ v.slaves
      authenticated :
          (authenticate_connector hash_token token u).1
          ≡ some (
              identity
                (new_connector hash_token connector_id token (owner_of kind new_id) (some "1.0.0")))

    -- the registration of the route
    registered : Kind → World → World
    registered kind v = record v {
      connectors =
          new_connector hash_token connector_id token (owner_of kind new_id) (some "1.0.0")
          ∷ v.connectors;
    }

    registered-some :
        (kind : Kind) (v : World)
        → find_by_hash v.connectors (hash_token token) ≡ none
        → register_connector hash_token connector_id token (owner_of kind new_id) (some "1.0.0") v
          ≡ some (registered kind v)
    unfolding register_connector registered
    registered-some kind v fresh = rw (register_connector, fresh) refl

    issued_state : Kind → AuditValue → World → World
    unfolding registered
    issued_state kind value v =
        write_audit
          (admin_entry "CONNECTOR_REGISTERED" ("connector:" ++ connector_id) none (some value) ip)
          (registered kind v)

    issued-authenticated :
        (kind : Kind) (value : AuditValue) (v : World)
        → find_by_hash v.connectors (hash_token token) ≡ none
        → IsCoherent v
        → (authenticate_connector hash_token token (issued_state kind value v)).1
          ≡ some (
              identity
                (new_connector hash_token connector_id token (owner_of kind new_id) (some "1.0.0")))
    unfolding issued_state registered
    issued-authenticated kind value v fresh ok =
        (authenticate_connector_lem hash_token token (issued_state kind value v)
          (register-authenticate hash_token connector_id token (owner_of kind new_id) (some "1.0.0")
            v (registered kind v) ok (registered-some kind v fresh)).0).0
        ∙ rw (eq→beq (hash_token token) (hash_token token) refl) refl

    connector_route-IsIssued :
        (kind : Kind) (v : World)
        → IsCreated numeric hash_token is_uuid ip f new_id kind v
        → find_by_hash v.connectors (hash_token token) ≡ none
        → IsCoherent v
        → (u : World) × IsIssued kind v u
    unfolding post_master_connector post_slave_connector map_reply issued_state registered
        connector_route
    connector_route-IsIssued master_kind v there fresh ok = (
      issued_state master_kind (owner_master new_id) v,
      record {
        answer =
            rw
              (
                connector_route,
                post_master_connector,
                there,
                registered-some master_kind v fresh,
                map_reply,
              )
              refl;
        masters = refl;
        slaves = refl;
        authenticated = issued-authenticated master_kind (owner_master new_id) v fresh ok;
      },
    )
    connector_route-IsIssued (slave_kind master_id) v there fresh ok = (
      issued_state (slave_kind master_id) (owner_slave new_id) v,
      record {
        answer =
            rw
              (
                connector_route,
                post_slave_connector,
                there,
                registered-some (slave_kind master_id) v fresh,
                map_reply,
              )
              refl;
        masters = refl;
        slaves = refl;
        authenticated = issued-authenticated (slave_kind master_id) (owner_slave new_id) v fresh ok;
      },
    )

    -- A row that is there stays there through the second route.
    IsCreated-issued :
        (kind : Kind) (v u : World)
        → IsIssued kind v u
        → IsCreated numeric hash_token is_uuid ip f new_id kind v
        → IsCreated numeric hash_token is_uuid ip f new_id kind u
    IsCreated-issued master_kind v u issued there = rw issued.masters there
    IsCreated-issued (slave_kind master_id) v u issued there = rw issued.slaves there

    -- Both requests, the guard included.
    submitted :
        (tokens : Tokens) (kind : Kind) (w v u : World) (s : Session) (p : AdminTokenPayload)
        → require_admin_auth tokens (authorization s) none w.now ≡ some p
        → IsMade numeric hash_token is_uuid ip f new_id kind w v
        → IsIssued kind v u
        → handle_submit numeric hash_token is_uuid ip tokens kind connector_id token f new_id w s
          ≡ (u, (s, shown token))
    unfolding handle_submit
    submitted tokens kind w v u s p known made issued =
        let first : api_fetch tokens (account_route numeric hash_token is_uuid ip kind f new_id) w s
            ≡ (v, (s, body new_id)) =
          fetch-open tokens (account_route numeric hash_token is_uuid ip kind f new_id) s p w known
          ∙ ap (λ r. (r.0, fetched r.1 s)) made.answer in
        let route = connector_route numeric hash_token is_uuid ip kind new_id connector_id token in
        let second : api_fetch tokens route v s ≡ (u, (s, body token)) =
          fetch-open tokens route s p v (rw made.now known)
          ∙ ap (λ r. (r.0, fetched r.1 s)) issued.answer in
        ap (register numeric hash_token is_uuid ip tokens kind connector_id token) first
        ∙ ap (show numeric hash_token is_uuid ip tokens kind connector_id token) second

    -- A submit of a form that is ready, by an administrator who is logged in, shows the new token. The
    -- account is there as the form says, and the token authenticates as the new connector, whose owner
    -- is that account.
    pub handle_submit-authenticate :
        (tokens : Tokens) (kind : Kind) (w : World) (s : Session) (p : AdminTokenPayload)
        → require_admin_auth tokens (authorization s) none w.now ≡ some p
        → IsReady numeric hash_token is_uuid ip f new_id kind w
        → find_by_hash w.connectors (hash_token token) ≡ none
        → IsCoherent w
        → ((handle_submit numeric hash_token is_uuid ip tokens kind connector_id token f new_id w
              s).1.1
            ≡ shown token)
          × IsCreated numeric hash_token is_uuid ip f new_id kind
              (handle_submit numeric hash_token is_uuid ip tokens kind connector_id token f new_id w
                s).0
          × ((authenticate_connector hash_token token
                (handle_submit numeric hash_token is_uuid ip tokens kind connector_id token f new_id
                  w s).0).1
              ≡ some (
                  identity (
                    new_connector hash_token connector_id token
                      (owner_of kind new_id)
                      (some "1.0.0"))))
    handle_submit-authenticate tokens kind w s p known ready fresh ok =
        let (v, made) = account_route-IsMade numeric hash_token is_uuid ip f new_id kind w ready in
        let coherent : IsCoherent v = rw (made.connectors, made.cache) ok in
        let (u, issued) =
          connector_route-IsIssued kind v made.is_created (rw made.connectors fresh) coherent in
        let all = submitted tokens kind w v u s p known made issued in
        (
          ap (λ r. r.1.1) all,
          subst (IsCreated numeric hash_token is_uuid ip f new_id kind) (sym (ap (λ r. r.0) all))
              (IsCreated-issued kind v u issued made.is_created),
          ap (λ r. (authenticate_connector hash_token token r.0).1) all ∙ issued.authenticated,
        )
