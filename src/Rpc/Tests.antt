-- ===== src/Rpc/Tests.antt =====
-- The router on a small table of routes, and the theorems on its answers at such inputs.
use developer_gateway.Prelude.{
  ℕ, ◌+◌, ◌≡◌, ◌<◌, refl, Bool, true, false, some, List, [], ◌∷◌, String, ◌⊎◌, inr, ltb, leb,
  length, none, Option, if◌then◌else◌, same,
}
use developer_gateway.Errors.{Error, new}
use developer_gateway.Errors.Request.{err_queue_not_found}
use developer_gateway.Backend.Events.{RpcError}
use developer_gateway.Rpc.Http.{
  Handled, returned, failed, panicked, gateway_error, write_header, encode, report, serve_router,
  serve_route, find_route, find_handler, report_any_error, report_error, http_error_of,
  http_internal_server_error,
}
use developer_gateway.Rpc.Json.{JsonRequest, IsRejected, IsHandled, json_requests_are_checked}
use developer_gateway.Rpc.Answers.{
  redact_mux, router_hides_causes, first_status, report_tells_success,
}

abbrev encodes : String ⊎ RpcError → Bool
encodes body = true

abbrev not_found_error : Error
not_found_error = new err_queue_not_found (some "redis: no key")

-- A route whose GET fails and whose POST panics; the state counts the calls.
abbrev mux : List (String × List (String × (ℕ → Handled String × ℕ)))
mux =
    (
      "/v0/api/service/poll",
      ("GET", λ n. (failed (gateway_error not_found_error), n + 1))
          ∷ ("POST", λ n. (panicked "index out of range", n + 1))
          ∷ [],
    )
    ∷ []

panics_are_answered :
    (serve_router encodes mux "/v0/api/service/poll" "POST" 0).0
    ≡ write_header 500
      ∷ encode (
          inr (record {
            error_code = 1000;
            description = "Internal Error. Please check the status of the service.";
          }))
      ∷ []
unfolding serve_router serve_route find_route find_handler report report_any_error http_error_of
    report_error http_internal_server_error same
panics_are_answered = refl

router_hides_causes_example :
    serve_router encodes (redact_mux mux) "/v0/api/service/poll" "GET" 0
    ≡ serve_router encodes mux "/v0/api/service/poll" "GET" 0
router_hides_causes_example = router_hides_causes encodes mux "/v0/api/service/poll" "GET" 0

report_tells_success_example :
    (n : ℕ) × (first_status encodes (report encodes (failed (gateway_error not_found_error))).1
      ≡ some n)
    × (ltb n 300 ≡ false)
    × (n < 600)
report_tells_success_example =
    report_tells_success encodes (failed (gateway_error not_found_error)) tt

-- The body is kept as its bytes, if it has at most as many as the limit; the handler counts the calls.
abbrev decode_bytes : (limit : ℕ) → List ℕ → List ℕ → Option (List ℕ)
decode_bytes limit empty body = if leb (length body) limit then some body else none

abbrev handle_body : Option (List ℕ) → ℕ → Handled (List ℕ) × ℕ
handle_body body n = (returned body, n + 1)

abbrev json_request : JsonRequest
json_request = record {
  content_length = some 2;
  content_type = "application/json";
  body = 123 ∷ 125 ∷ [];
}

json_requests_are_checked_example :
    IsRejected 0 decode_bytes (some []) handle_body json_request 4
    ⊎ IsHandled 0 decode_bytes (some []) handle_body json_request 4
json_requests_are_checked_example =
    json_requests_are_checked 0 decode_bytes (some []) handle_body json_request 4
