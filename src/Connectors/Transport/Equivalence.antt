-- ===== src/Connectors/Transport/Equivalence.antt =====
-- The two transports of a Slave's results, and who may open a socket.
use forex_remote_copy_tradin.Prelude.{
  ℕ, String, ◌≡◌, refl, ap, ◌∙◌, inl, inr, ◌⊎◌, Option, none, some, Option-cases, Bool-cases, ◌==◌,
  beq→eq, eq→beq, ◌≢◌, option_bind,
}
use forex_remote_copy_tradin.Types.{ExecutionResult, AuthenticatedConnector}
use forex_remote_copy_tradin.World.{World, Socket}
use forex_remote_copy_tradin.Realtime.WsGateway.{get, connected}
use forex_remote_copy_tradin.Realtime.WsGateway.Reconnect.{reconnected-others, get-connected}
use forex_remote_copy_tradin.Connectors.Service.Frame.{
  authenticate_connector-IsCached, record_heartbeat-IsBeaten,
}
use forex_remote_copy_tradin.Connectors.Bearer.{bearer_token}
use forex_remote_copy_tradin.Connectors.Service.{authenticate_connector}
use forex_remote_copy_tradin.Connectors.Polling.{
  execution_result, slave_of_auth, connector_of_auth, result_with,
}
use forex_remote_copy_tradin.Connectors.Transport.{
  other_message, on_message, slave_socket_opened, opened_with,
}

module _ (hash_token : String → String) (threshold_seconds : ℕ) where
  -- A result that a Slave's connector posts has the effect that the same result has on the socket of
  -- that Slave and connector, once the token has been authenticated.
  pub execution_result-on_message :
      (header : Option String) (token slave_id : String) (r : ExecutionResult) (w : World)
      → bearer_token header ≡ some token
      → slave_of_auth (authenticate_connector hash_token token w).1 ≡ some slave_id
      → execution_result hash_token threshold_seconds header (some r) w ≡ (
        on_message threshold_seconds slave_id
            (connector_of_auth (authenticate_connector hash_token token w).1)
            (other_message (some r))
            (authenticate_connector hash_token token w).0,
        200,
      )
  unfolding execution_result result_with on_message
  execution_result-on_message header token slave_id r w carried own =
      rw (execution_result, carried, result_with, own) refl

  -- the Slave whose connector the token of a header authenticates
  abbrev pub opener : Option String → World → Option String
  opener header w =
      option_bind (bearer_token header)
        (λ token. slave_of_auth (authenticate_connector hash_token token w).1)

  -- The socket of x is the new one if the header is one of x, and else as it was.
  abbrev pub IsKeptOrOwned : Option String → Socket → World → World → String → Type 0
  IsKeptOrOwned header socket w w' x =
      ((opener header w ≡ some x) × (get x w'.connections ≡ some socket))
      ⊎ ((opener header w ≢ some x) × (get x w'.connections ≡ get x w.connections))

  opened_with-IsKeptOrOwned :
      (socket : Socket) (v : World) (auth : Option AuthenticatedConnector) (x : String)
      → ((slave_of_auth auth ≡ some x)
          × (get x (opened_with threshold_seconds hash_token socket (v, auth)).connections
              ≡ some socket))
        ⊎ ((slave_of_auth auth ≢ some x)
            × (get x (opened_with threshold_seconds hash_token socket (v, auth)).connections
                ≡ get x v.connections))
  unfolding opened_with
  opened_with-IsKeptOrOwned socket v auth x = elim (Option-cases (slave_of_auth auth)) [
    | inl refused ↦ inr (rw refused (λ e. cc), rw (opened_with, refused) refl)
    | inr (slave_id, own) ↦
        let beaten =
          ap (λ u. get x u.connections)
            (record_heartbeat-IsBeaten threshold_seconds (connector_of_auth auth)
              (connected slave_id socket v) none).same in
        elim (Bool-cases (slave_id == x)) [
          | inr other ↦ inr (
            rw own (λ e. let same : slave_id ≡ x = cc in let yes = eq→beq slave_id x same in cc),
            rw (opened_with, own) (beaten ∙ (reconnected-others slave_id x 0 socket v other).0),
          )
          | inl here ↦
              let e = beq→eq slave_id x here in
              inl (
                own ∙ ap some e,
                rw (opened_with, own) (beaten ∙ get-connected slave_id x socket v e),
              )
        ]
  ]

  -- Opening a socket changes the socket that instructions to a Slave go to exactly for the Slave whose
  -- connector the token of the header authenticates: that Slave's becomes the new one, and any other
  -- Slave's stays as it was. Without a token, or with an unknown one or one of a Master, every Slave's
  -- stays.
  pub slave_socket_opened-IsKeptOrOwned :
      (header : Option String) (socket : Socket) (w : World) (x : String)
      → IsKeptOrOwned header socket w
          (slave_socket_opened threshold_seconds hash_token header socket w)
          x
  unfolding slave_socket_opened
  slave_socket_opened-IsKeptOrOwned header socket w x = elim (Option-cases (bearer_token header)) [
    | inl missing ↦ inr (rw missing (λ e. cc), rw (slave_socket_opened, missing) refl)
    | inr (token, carried) ↦
        let auth = authenticate_connector hash_token token w in
        let kept =
          ap (λ v. get x v.connections) (authenticate_connector-IsCached hash_token token w).same in
        elim (opened_with-IsKeptOrOwned socket auth.0 auth.1 x) [
          | inl (own, new) ↦ inl (rw carried own, rw (slave_socket_opened, carried) new)
          | inr (foreign, same) ↦
              inr (rw carried foreign, rw (slave_socket_opened, carried) (same ∙ kept))
        ]
  ]
