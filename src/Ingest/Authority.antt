-- ===== src/Ingest/Authority.antt =====
-- On whose behalf an event is published.
use forex_remote_copy_tradin.Prelude.{
  ℕ, String, ◌≡◌, refl, sym, ap, ◌∙◌, inl, inr, ◌⊎◌, Option, none, some, ◌∷◌, Option-cases,
  truthy-eq_some,
}
use forex_remote_copy_tradin.Types.{NormalizedTradeEvent, AuthenticatedConnector, OwnerType}
use forex_remote_copy_tradin.World.{World}
use forex_remote_copy_tradin.Connectors.Bearer.{bearer_token}
use forex_remote_copy_tradin.Connectors.Service.{authenticate_connector}
use forex_remote_copy_tradin.Connectors.Service.Frame.{authenticate_connector-IsCached}
use forex_remote_copy_tradin.Ingest.{
  master_of_auth, ingest, ingest_with, ingest_trade_event, normalized,
}
use forex_remote_copy_tradin.Ingest.Once.{accept_cases}

module _ (hash_token : String → String) where
  -- The header's token authenticates a connector of the Master that the event names.
  pub record IsSpokenFor (header : Option String) (w : World) (e : NormalizedTradeEvent)
      : Type 0 where
    pub token : String
    pub connector : AuthenticatedConnector
    pub carried : bearer_token header ≡ some token
    pub authentic : (authenticate_connector hash_token token w).1 ≡ some connector
    pub of_a_master : connector.owner_type ≡ OwnerType.master
    pub its_own : connector.master_id ≡ some e.master_id

  master_of_auth-eq_some :
      (auth : Option AuthenticatedConnector) (master_id : String)
      → master_of_auth auth ≡ some master_id
      → (a : AuthenticatedConnector) × (auth ≡ some a)
        × (a.owner_type ≡ OwnerType.master)
        × (a.master_id ≡ some master_id)
  master_of_auth-eq_some none master_id h = absurd (cc)
  master_of_auth-eq_some (some a) master_id h = go a.owner_type refl
    where
      go :
          (t : OwnerType)
          → a.owner_type ≡ t
          → (b : AuthenticatedConnector) × (◌≡◌ {A = Option AuthenticatedConnector}
              (some a)
              (some b))
            × (b.owner_type ≡ OwnerType.master)
            × (b.master_id ≡ some master_id)
      go OwnerType.master e = (a, refl, e, truthy-eq_some a.master_id (rw e at h))
      go OwnerType.slave e = absurd (cc)

  ingest_cases :
      (ttl_seconds : ℕ) (master_id new_id : String) (parsed : Option NormalizedTradeEvent)
      (w : World)
      → ((ingest ttl_seconds master_id new_id parsed w).0.published ≡ w.published)
        ⊎ ((e : NormalizedTradeEvent) × (e.master_id ≡ master_id)
            × ((ingest ttl_seconds master_id new_id parsed w).0.published ≡ e ∷ w.published))
  unfolding ingest
  ingest_cases ttl_seconds master_id new_id none w = inl refl
  ingest_cases ttl_seconds master_id new_id (some payload) w =
      let e = normalized payload master_id w.now in
      elim (accept_cases ttl_seconds new_id e w) [
        | inl (seen, same) ↦ inl (rw same refl)
        | inr (fresh, published, keys, reply) ↦ inr (e, refl, published)
      ]

  -- A request publishes at most one event, and only when the token of its header authenticates a
  -- connector of a Master; the event then carries that Master's id, whatever the body says. A request
  -- with no token, with an unknown one or with one of a Slave publishes nothing.
  pub ingest_trade_event-published :
      (ttl_seconds : ℕ) (header : Option String) (new_id : String)
      (parsed : Option NormalizedTradeEvent) (w : World)
      → ((ingest_trade_event hash_token ttl_seconds header new_id parsed w).0.published
          ≡ w.published)
        ⊎ ((e : NormalizedTradeEvent) × ((ingest_trade_event hash_token ttl_seconds header new_id
                parsed w).0.published
              ≡ e ∷ w.published)
            × IsSpokenFor header w e)
  unfolding ingest_trade_event ingest_with
  ingest_trade_event-published ttl_seconds header new_id parsed w =
      elim (Option-cases (bearer_token header)) [
        | inl missing ↦ inl (rw (ingest_trade_event, missing) refl)
        | inr (token, carried) ↦
            let auth = authenticate_connector hash_token token w in
            let kept =
              ap (λ v. v.published) (authenticate_connector-IsCached hash_token token w).same in
            elim (Option-cases (master_of_auth auth.1)) [
              | inl refused ↦ inl (rw (ingest_trade_event, carried, ingest_with, refused) kept)
              | inr (master_id, found) ↦
                  let (connector, authentic, of_a_master, its_own) =
                    master_of_auth-eq_some auth.1 master_id found in
                  elim (ingest_cases ttl_seconds master_id new_id parsed auth.0) [
                    | inl same ↦
                        inl (rw (ingest_trade_event, carried, ingest_with, found) (same ∙ kept))
                    | inr (e, own, published) ↦ inr (
                      e,
                      rw (ingest_trade_event, carried, ingest_with, found)
                          (published ∙ ap (◌∷◌ e) kept),
                      record {
                        token = token;
                        connector = connector;
                        carried = carried;
                        authentic = authentic;
                        of_a_master = of_a_master;
                        its_own = its_own ∙ ap some (sym own);
                      },
                    )
                  ]
            ]
      ]
