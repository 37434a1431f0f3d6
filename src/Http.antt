-- ===== src/Http.antt =====
-- What a route of the admin API answers, by the code of the reply.
pub data Reply {ℓ} (A : Type ℓ) : Type ℓ where
  -- 200, 201 and 204
  sent : A → Reply A
  created : A → Reply A
  no_content : Reply A
  -- 400 INVALID_PAYLOAD, 401, 404 NOT_FOUND and 404 MASTER_NOT_FOUND
  invalid_payload : Reply A
  unauthorized : Reply A
  invalid_credentials : Reply A
  not_found : Reply A
  master_not_found : Reply A
  -- 500: the handler threw
  server_error : Reply A

-- the part of an answer that a caller reads
unfoldable pub map_reply {ℓ κ} : {A : Type ℓ} {B : Type κ} → (A → B) → Reply A → Reply B
map_reply f (sent a) = sent (f a)
map_reply f (created a) = created (f a)
map_reply f no_content = no_content
map_reply f invalid_payload = invalid_payload
map_reply f unauthorized = unauthorized
map_reply f invalid_credentials = invalid_credentials
map_reply f not_found = not_found
map_reply f master_not_found = master_not_found
map_reply f server_error = server_error
