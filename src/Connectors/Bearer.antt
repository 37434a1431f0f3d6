-- ===== src/Connectors/Bearer.antt =====
-- The bearer token of the Authorization header, as each route of the connectors takes it out.
use forex_remote_copy_tradin.Prelude.{String, Option, option_bind, truthy}
use forex_remote_copy_tradin.Prelude.Text.{strip_prefix}

-- `header?.startsWith("Bearer ") ? header.slice(7) : undefined`, and the test `!token`
unfoldable pub bearer_token : Option String → Option String
unfolding strip_prefix truthy
bearer_token header = option_bind header λ h. truthy (strip_prefix "Bearer " h)
