-- ===== src/System/Coherent.antt =====
-- The token cache in the states that the system reaches.
use forex_remote_copy_tradin.Prelude.{String, ◌≡◌}
use forex_remote_copy_tradin.World.{World}
use forex_remote_copy_tradin.Connectors.Service.{authenticate_connector}
use forex_remote_copy_tradin.Connectors.Service.Cache.{
  IsCoherent, owner_by_hash, authenticate_connector_lem,
}
use forex_remote_copy_tradin.System.{Settings, Reaches}
use forex_remote_copy_tradin.System.Writes.Steps.{Reaches-Writes}
use forex_remote_copy_tradin.System.Writes.Safety.{Writes-IsCoherent}

-- From a state whose token cache says what the connectors table says, in every state that the handlers'
-- steps lead to, authentication answers for a token what the table then says about its hash, whether
-- the answer comes from the cache or not.
pub Reaches-authenticate :
    (c : Settings) (w w' : World) (token : String)
    → Reaches c w w'
    → IsCoherent w
    → (authenticate_connector c.hash_token token w').1 ≡ owner_by_hash w' (c.hash_token token)
Reaches-authenticate c w w' token path ok =
    (authenticate_connector_lem c.hash_token token w'
      (Writes-IsCoherent (Reaches-Writes c w w' path) ok)).0
