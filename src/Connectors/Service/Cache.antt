-- ===== src/Connectors/Service/Cache.antt =====
-- The Redis cache in front of the connectors table.
use forex_remote_copy_tradin.Prelude.{
  ℕ, String, ◌≡◌, refl, sym, ap, ◌∙◌, inl, inr, Option, none, some, List, [], ◌∷◌, arith,
  find_first, option_map, All, All-find_first, find_first-eq_some, ◌==◌, Bool-cases, Option-cases,
  eq→beq, beq→eq, eq_iff,
}
use forex_remote_copy_tradin.Types.{Connector, AuthenticatedConnector}
use forex_remote_copy_tradin.World.{World, Entry, redis_get, is_live_entry}
use forex_remote_copy_tradin.Connectors.Service.{
  identity, find_by_hash, look_up, authenticate_connector, ConnectorOwner, new_connector,
  register_connector,
}

-- A cached token is the identity of the connector with that token hash.
abbrev pub IsTrue : List Connector → Entry AuthenticatedConnector → Type 0
IsTrue connectors e =
    (c : Connector) × (find_by_hash connectors e.key ≡ some c) × (e.value ≡ identity c)

abbrev pub IsCoherent : World → Type 0
IsCoherent w = All (IsTrue w.connectors) w.token_cache

-- what the table says
abbrev pub owner_by_hash : World → String → Option AuthenticatedConnector
owner_by_hash w hash = option_map identity (find_by_hash w.connectors hash)

redis_get-IsTrue :
    (now : ℕ) (hash : String) (connectors : List Connector)
    (entries : List (Entry AuthenticatedConnector)) {a : AuthenticatedConnector}
    → All (IsTrue connectors) entries
    → redis_get now hash entries ≡ some a
    → option_map identity (find_by_hash connectors hash) ≡ some a
redis_get-IsTrue now hash connectors entries {a} all h =
    go (find_first (is_live_entry now hash) entries) refl
  where
    go :
        (f : Option (Entry AuthenticatedConnector))
        → find_first (is_live_entry now hash) entries ≡ f
        → option_map identity (find_by_hash connectors hash) ≡ some a
    go none e = absurd (ground arith)
    go (some entry) e =
        let (c, found, same) =
          All-find_first (IsTrue connectors) (is_live_entry now hash) entries all e in
        let hit = find_first-eq_some (is_live_entry now hash) entries e in
        let key : entry.key ≡ hash = ground (arith, eq_iff entry.key hash) in
        let at_hash : find_by_hash connectors hash ≡ some c = rw key at found in
        let value : some entry.value ≡ some a = rw e at h in rw at_hash (ap some (sym same) ∙ value)

abbrev Authenticated : World → String → World × Option AuthenticatedConnector → Type 0
Authenticated w hash r =
    (r.1 ≡ owner_by_hash w hash) × IsCoherent r.0 × (r.0.connectors ≡ w.connectors)

look_up-Authenticated :
    (hash_token : String → String) (hash : String) (w : World) (f : Option Connector)
    → IsCoherent w
    → find_by_hash w.connectors hash ≡ f
    → Authenticated w hash (look_up hash_token hash f w)
unfolding look_up
look_up-Authenticated hash_token hash w none ok e = (rw e, ok, refl)
look_up-Authenticated hash_token hash w (some c) ok e = (rw e, ((c, e, refl), ok), refl)

module _ (hash_token : String → String) where
  -- With a coherent cache, authentication answers what the connectors table says about the token's
  -- hash, whether it is cached or not, and leaves the cache coherent and the table as it was.
  pub authenticate_connector_lem :
      (token : String) (w : World)
      → IsCoherent w
      → ((authenticate_connector hash_token token w).1 ≡ owner_by_hash w (hash_token token))
        × IsCoherent (authenticate_connector hash_token token w).0
        × ((authenticate_connector hash_token token w).0.connectors ≡ w.connectors)
  unfolding authenticate_connector
  authenticate_connector_lem token w ok =
      elim (Option-cases (redis_get w.now (hash_token token) w.token_cache)) [
        | inl miss ↦
            rw (miss, authenticate_connector)
              (look_up-Authenticated hash_token (hash_token token) w
                (find_by_hash w.connectors (hash_token token)) ok refl)
        | inr (a, hit) ↦
            rw (hit, authenticate_connector)
              (
                sym (redis_get-IsTrue w.now (hash_token token) w.connectors w.token_cache ok hit),
                ok,
                refl,
              )
      ]

  pub find_by_hash_new :
      (connectors : List Connector) (c d : Connector) (key : String)
      → find_by_hash connectors c.token_hash ≡ none
      → find_by_hash connectors key ≡ some d
      → find_by_hash (c ∷ connectors) key ≡ some d
  find_by_hash_new connectors c d key free found = elim (Bool-cases (c.token_hash == key)) [
    | inr other ↦ rw other found
    | inl same ↦
        let e = beq→eq c.token_hash key same in
        let free_key : find_by_hash connectors key ≡ none = rw e at free in absurd (cc)
  ]

  pub All-IsTrue_new :
      (connectors : List Connector) (c : Connector) (entries : List (Entry AuthenticatedConnector))
      → find_by_hash connectors c.token_hash ≡ none
      → All (IsTrue connectors) entries
      → All (IsTrue (c ∷ connectors)) entries
  All-IsTrue_new connectors c [] free all = tt
  All-IsTrue_new connectors c (e ∷ entries) free ((d, found, same), rest) = (
    (d, find_by_hash_new connectors c d e.key free found, same),
    All-IsTrue_new connectors c entries free rest,
  )

  register_connector-eq-some :
      (new_id token : String) (owner : ConnectorOwner) (version : Option String) (w : World)
      {w' : World}
      → register_connector hash_token new_id token owner version w ≡ some w'
      → (find_by_hash w.connectors (hash_token token) ≡ none)
        × (w' ≡ record w {
          connectors = new_connector hash_token new_id token owner version ∷ w.connectors;
        })
  unfolding register_connector
  register_connector-eq-some new_id token owner version w h = ground arith

  -- A registration that does not throw keeps the cache coherent, and the token that it returns then
  -- authenticates as the connector that was registered, with the owner that was given.
  pub register-authenticate :
      (new_id token : String) (owner : ConnectorOwner) (version : Option String) (w w' : World)
      → IsCoherent w
      → register_connector hash_token new_id token owner version w ≡ some w'
      → IsCoherent w'
        × ((authenticate_connector hash_token token w').1
            ≡ some (identity (new_connector hash_token new_id token owner version)))
  register-authenticate new_id token owner version w w' ok h =
      let (free, e) = register_connector-eq-some new_id token owner version w h in
      let c : Connector = new_connector hash_token new_id token owner version in
      let coherent : IsCoherent w' = rw e (All-IsTrue_new w.connectors c w.token_cache free ok) in
      (
        coherent,
        (authenticate_connector_lem token w' coherent).0
            ∙ rw (e, eq→beq (hash_token token) (hash_token token) refl) refl,
      )
