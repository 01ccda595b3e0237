-- ===== src/Api/Handlers.antt =====
-- Requests to execute a service, over a manager with a small queue and client.
use developer_gateway.Prelude.{ℕ, Option, none, some, List, String, if◌then◌else◌, same}
use developer_gateway.Auth.{AuthRequest}

-- A verifier that knows one user.
abbrev verify : (aad : String) → AuthRequest → Option String
verify aad req = if same aad "user" then none else some "unknown user"

abbrev decode_hex : String → Option (List ℕ)
decode_hex text = none
