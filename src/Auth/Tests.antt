-- ===== src/Auth/Tests.antt =====
-- Two authenticators, and the theorems on them at concrete requests.
use developer_gateway.Prelude.{ℕ, ◌+◌, ◌≡◌, none, some, String, ◌⊎◌, inl, inr}
use developer_gateway.Rpc.Http.{Handled, returned}
use developer_gateway.Auth.{Auth, HttpRequest}
use developer_gateway.Auth.Middleware.{serve, Refused, Admitted, serve_authenticates}

abbrev accepting : Auth
accepting = record {
  authenticate = λ req. inl (record req { aad = some "user" });
  verify = λ req x. none;
}

abbrev request : HttpRequest
request = record { session_header = "s"; aad = none; session = none; authenticator = none }

abbrev hash : String → String
hash aad = "5e"

abbrev next : HttpRequest → ℕ → Handled String × ℕ
next req n = (returned req.session, n + 1)

serve_authenticates_example :
    ((e : String) × (accepting.authenticate request ≡ inr e)
      × Refused hash accepting.authenticate next e
          (serve hash accepting.authenticate next request)
          0)
    ⊎ ((req' : HttpRequest) × (accepting.authenticate request ≡ inl req')
        × Admitted hash accepting.authenticate next request req' 0)
serve_authenticates_example = serve_authenticates hash accepting.authenticate next request 0
